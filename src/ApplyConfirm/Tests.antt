-- ===== src/ApplyConfirm/Tests.antt =====
-- Two configs applied one after the other on a small router, the second held; then each theorem
-- at such a store.
use fr_os_pblk.Base.{
  ℕ, ◌+◌, String, ◌≡◌, ◌≢◌, ◌≤◌, ◌<◌, refl, true, false, Option, none, some, List, [], ◌∷◌, arith,
  if◌then◌else◌, ◌==◌, string_eq,
}
use fr_os_pblk.Transaction.{Undo}
use fr_os_pblk.Provision.Machinery.{
  ok, Work, run_all, end_pass, all_steps, run_steps, enter, opened, begin_step,
}
use fr_os_pblk.Provision.Steps.{
  Subsystems, steps, captured, firewall_undo, loaded_before, wireguard_undo, xdp_undo, ipv6_touched,
  was_ipv6,
}
use fr_os_pblk.Provision.Apply.{
  Checks, apply_all, preflight, first_failure, checks, record_applied, run_steps_of,
  load_applied_config,
}
use fr_os_pblk.ApplyConfirm.Store.{
  Pending, Store, Calls, done, restore_rejected, remaining, begin, needs_confirmation,
}
use fr_os_pblk.ApplyConfirm.Revert.{at_once, at_boot, revert_by, wait}
use fr_os_pblk.ApplyConfirm.Requests.{
  Circumstances, apply_locked, apply_waiting, unless_moved, applied_or_raised, hold,
}
use fr_os_pblk.ApplyConfirm.Serve.{
  Request, edit, apply, move, confirms, restores, rolls_back, checks_schedule, wakes, serve,
  serve_all,
}
use fr_os_pblk.ApplyConfirm.Applies.{Applies, apply_locked-Applies}
use fr_os_pblk.ApplyConfirm.Consistent.{IsConsistent}
use fr_os_pblk.ApplyConfirm.Invariant.{serve_all-IsConsistent}
use fr_os_pblk.ApplyConfirm.Held.{Reloading, HeldUnless, serve_all-held}
use fr_os_pblk.ApplyConfirm.Back.{Reverted, revert_by-Reverted, restore_rejected-revert_by}
use fr_os_pblk.ApplyConfirm.Waiting.{EndsInTime, wait-EndsInTime, wait_confirmed}

-- The machine is the number of the config that its firewall has loaded.
abbrev idle : Work ℕ
idle w = (w, ok [])

abbrev nothing : Undo ℕ
nothing w = (w, none)

abbrev subsystems : Subsystems ℕ ℕ
subsystems = record {
  read_live_sets = λ config w. ok tt;
  firewall = λ config w. (config, ok []);
  running_ruleset = λ w. ok (some (λ v. (w, none)));
  forwarding = idle;
  capture_forwarding = λ w. ok nothing;
  wireguard = λ config. idle;
  tunnel_exists = λ w. false;
  without_wireguard = λ config. config;
  addresses = λ config previous. idle;
  capture_links = λ config previous w. ok nothing;
  ipv6 = λ config. idle;
  ipv6_enabled = λ config. false;
  ipv6_files_exist = λ w. false;
  capture_ipv6 = λ config previous w. ok nothing;
  kea = λ config. idle;
  has_dhcp_zones = λ config. false;
  capture_kea = λ w. ok nothing;
  dns_resolver = λ config. idle;
  capture_dns_resolver = λ w. ok nothing;
  sni_filter = λ config. idle;
  is_filtering = λ w. false;
  without_sni_filter = λ config. config;
  tls_exchange = λ config. idle;
  capture_tls_file = λ w. ok nothing;
  ssh_exchange = λ config. idle;
  capture_kex_file = λ w. ok nothing;
  sshd = λ config. idle;
  capture_sshd = λ w. ok nothing;
  webui = λ config. idle;
}

abbrev no_checks : Checks ℕ ℕ
no_checks = record {
  firewall = λ config w. none;
  devices = λ config w. none;
  has_dhcp_zones = λ config. false;
  kea = λ config w. none;
  adblocker_enabled = λ config. true;
  dnsmasq = λ config w. none;
  xdp_enabled = λ config. false;
  xdp = λ config w. none;
  ipv6_enabled = λ config. false;
  ipv6 = λ config w. none;
}

abbrev read_number : String → Option ℕ
read_number text = if text == "one" then some 1 else if text == "two" then some 2 else none

abbrev calls : Calls ℕ ℕ
calls = record {
  parse = read_number;
  subsystems = subsystems;
  checks = no_checks;
  confirm_apply_seconds = λ config. 60;
  moves_management = λ config previous. none;
  reachable = λ config. "192.168.1.1" ∷ [];
  with_addresses = λ text addresses. text;
  rollback_last = λ w. 0;
}

abbrev circumstances : Circumstances
circumstances = record { id = "c0ffee"; now = 5000; start = none; user = "admin" }

abbrev blank : Store ℕ
blank = record {
  router = record { machine = 0; recorded = none };
  pending = none;
  config = none;
  rejected = none;
  alerts = [];
}

abbrev p : Pending
p = record {
  id = "c0ffee";
  deadline = 65000;
  seconds = 60;
  by = "admin";
  addresses = "192.168.1.1" ∷ [];
  previous = "one";
}

abbrev held_store : Store ℕ
held_store = record {
  router = record { machine = 2; recorded = some "two" };
  pending = some p;
  config = some "two";
  rejected = none;
  alerts = [];
}

abbrev requests : List Request
requests =
    edit "one" ∷ apply "one" true circumstances ∷ edit "two" ∷ apply "two" true circumstances ∷ []

second_is_held : serve_all calls requests blank ≡ held_store
unfolding serve_all serve apply_locked apply_waiting unless_moved applied_or_raised hold begin
    needs_confirmation apply_all preflight first_failure checks record_applied run_steps_of
    load_applied_config run_all end_pass all_steps run_steps enter opened begin_step steps captured
    firewall_undo loaded_before wireguard_undo xdp_undo ipv6_touched was_ipv6
second_is_held = refl

serve_all-IsConsistent_example : IsConsistent calls (serve_all calls requests blank)
serve_all-IsConsistent_example = serve_all-IsConsistent calls requests blank refl refl

abbrev stale : String
stale = "stale"

abbrev others_requests : List Request
others_requests =
    confirms stale
    ∷ edit "one"
    ∷ apply "one" true circumstances
    ∷ move ("192.168.2.1" ∷ []) circumstances
    ∷ wakes 64999
    ∷ restores
    ∷ rolls_back
    ∷ checks_schedule
    ∷ []

stale_is_other : stale ≢ p.id
stale_is_other h = ground (arith, (string_eq.test_iff "stale" "c0ffee").1 h)

serve_all-held_example :
    HeldUnless (Reloading others_requests) held_store (serve_all calls others_requests held_store)
serve_all-held_example =
    serve_all-held calls p others_requests held_store refl
      (stale_is_other, (tt, (tt, (tt, (omega arith, (tt, (tt, (tt, tt))))))))

revert_by-Reverted_example :
    Reverted calls at_once "the admin went back" p held_store
      (revert_by calls at_once "the admin went back" held_store).0
revert_by-Reverted_example =
    revert_by-Reverted calls at_once "the admin went back" p held_store refl

abbrev two : String
two = "two"

two_is_other : two ≢ p.previous
two_is_other h = ground (arith, (string_eq.test_iff "two" "one").1 h)

restore_rejected-revert_by_example :
    let s = (revert_by calls at_boot "the router restarted" held_store).0 in
    restore_rejected read_number s ≡ (record s { config = some "two"; rejected = none }, done "two")
restore_rejected-revert_by_example =
    restore_rejected-revert_by calls at_boot "the router restarted" p held_store "two" 2 1 refl refl
      refl two_is_other refl

abbrev first_store : Store ℕ
first_store = record held_store {
  router = record { machine = 1; recorded = some "one" };
  pending = none;
}

apply_locked-Applies_example :
    Applies calls "two" first_store (apply_locked calls circumstances 2 "two" true first_store).0
apply_locked-Applies_example = apply_locked-Applies calls circumstances 2 "two" true first_store

sixty : remaining p 5000 < 100
unfolding remaining
sixty = omega arith

wait-EndsInTime_example :
    EndsInTime calls p
      (λ t s. s)
      (λ t. 3)
      3
      5000
      (wait calls (λ t s. s) (λ t. 3) 100 5000 held_store)
wait-EndsInTime_example =
    wait-EndsInTime calls p (λ t s. s) (λ t. 3) 3 100 5000 held_store (λ t. omega arith)
      (λ t u h. h) refl sixty

wait_confirmed_example :
    (end : ℕ) × (wait calls (λ t s. record s { pending = none }) (λ t. 3) 2 5000 held_store
      ≡ some (end, record held_store { pending = none }))
    × (end ≤ (5000 + 1000) + 3)
wait_confirmed_example =
    wait_confirmed calls p (λ t s. record s { pending = none }) (λ t. 3) 0 5000 held_store refl
      (omega arith) (λ t. refl)
