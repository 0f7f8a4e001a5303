-- ===== src/Lib.antt =====
-- A verification library for the router's control programs: how a config is applied to the
-- machine, held until the admin confirms it or taken back, how failed sign-ins are counted, when
-- one firewall rule covers another, how a TLS hello is rebuilt and parsed, and who may sign in to
-- the web interface and do what there.
--
-- Parts and their sources, by path from the repository's root:
--   * Transaction: the undo journal of one apply, src/frfw/transaction.py. `Entry`, `begin` and
--     `roll_back` are `_Entry`, `Transaction.begin` and `Transaction.roll_back`.
--   * Provision: `apply_all`, `preflight` and `_Run` of src/frfw/provision.py. Provision/Machinery
--     is `_Run`: entering a step, its work, the handlers of an exception, the rollback.
--     Provision/Steps is the list of `_Run._steps` with the undo of each step. Provision/Apply is
--     `apply_all` with its checks and the record of the config applied last.
--   * ApplyConfirm: src/frfw/apply_confirm.py, and `_apply_locked` and
--     `_handle_set_management_addresses` of src/frfw/helper/server.py. It calls `apply_all`.
--     ApplyConfirm/Serve puts the requests of the helper, the turns of the waiting unit, the apply
--     of the schedule check and a boot with an apply pending (src/frfw/cli.py) into one step
--     function, one at a time: all but a save of config.yaml and the helper's rollback hold the one
--     lock. `firewall-cli apply` of the console, and a boot with nothing pending, are not among
--     them. ApplyConfirm/Revert has `_boot_apply`, the boot's apply of the config before.
--   * LoginGuard: `BruteforceGuard` and `reject_failed_login` of src/frfw/webui/auth_rate_limiter.py,
--     and `jail_key` of src/frfw/bruteforce.py. A method is a function of the guard's record and
--     the clock.
--   * RuleCheck: `covers`, `_chains` and the shadow findings of src/frfw/rule_lint.py, against the
--     lines that `_render_rule` of src/frfw/nft/builder.py renders of a `Rule` of
--     src/frfw/config/schema.py. RuleCheck/Order is `earliest_shadower` of
--     src/frfw/rule_order.py. RuleCheck/Render says when a packet matches a line.
--   * Tls: `Reassembler` of src/frfw/tlsfp/reassembly.py (Tls/Flows), and `handshake_from_records`
--     (Tls/Records) and `parse_client_hello` (Tls/Reader, Tls/Hello) of
--     src/frfw/tlsfp/clienthello.py, which the reassembler calls. Tls/Wire writes what is parsed.
--   * Accounts: `AdminStore` of src/frfw/admin_account.py. Accounts/Store has its changes, each a
--     function of the file; Accounts/Signing is `verify`, which reads the file twice.
--   * Sessions: src/frfw/webui/auth.py, and `require_login` of src/frfw/webui/deps.py, which asks the
--     accounts. Sessions/Listed is `SessionStore`, Sessions/Manager the cookies and CSRF tokens,
--     Sessions/Login the request.
--   * Tickets: `TicketStore` and `totp_step` of src/frfw/webui/mfa.py, and the check of a code in
--     `mfa_totp` of src/frfw/webui/routes/mfa.py (Tickets/Totp), which asks the accounts.
--   * Base: dictionaries in insertion order, lists, tests and equality, for all of them.
--
-- What is a parameter: the machine is a type `W`, and what the source does to it by other
-- programs (nft, ip, wg, Kea, dnsmasq, bpftool, sshd) is a function of `W` that returns messages
-- or raises with part of its work done. So are what the source reads for an undo, the parser of a
-- config, the parser of an address, the neighbour table, whether a moment is in a schedule, the
-- functions of hashlib, the signed cookie of itsdangerous, the codes of pyotp, and
-- src/frfw/passwords.py. Times are whole milliseconds where Python has floats, so `remaining` is
-- exact on that grid only. A text for the user is kept where the code branches on it or stores
-- it.
--
-- Fuel: the loop of `wait` has one unit for each turn. A turn sleeps for a second or until the
-- deadline, so the seconds that remain, and one more, are enough. The loops over records,
-- extensions, names and protocols of a TLS hello have one unit for each byte: a turn uses up a
-- byte at least.
--
-- Not modelled: dry runs, failures to write files (among them the record of the applied config,
-- after which an apply raises though all its steps ran), what happens inside one request while
-- another one writes, the JSON and YAML forms of what is stored, and the parts of the program
-- outside these files: the rest of the ruleset, DHCP, DNS, the XDP filter, the hashes of TLS
-- hellos, intrusion detection, updates and the web pages.
pub mod Base
pub mod LoginGuard
pub mod Transaction
pub mod Provision
pub mod ApplyConfirm
pub mod RuleCheck
pub mod Tls
pub mod Accounts
pub mod Sessions
pub mod Tickets
