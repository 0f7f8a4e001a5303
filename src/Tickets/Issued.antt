-- ===== src/Tickets/Issued.antt =====
-- `TicketStore` of src/frfw/webui/mfa.py: each method is one step under the lock. SHA-256 and the
-- random id of a new ticket are parameters; `data` of an entry is left out, no method reads it.
use fr_os_pblk.Base.{
  ℕ, ◌+◌, ◌*◌, String, Bool, true, false, not, Option, none, some, List, [], ◌∷◌, ◌++◌, length,
  keep, ltb, leb, ◌==◌, string_eq, nat_eq, if◌then◌else◌,
}
use fr_os_pblk.Base.Dict.{Dict, get, put, del}
use fr_os_pblk.Accounts.Account.{AdminAccount}

abbrev pub ticket_time : ℕ
ticket_time = 300 * 1000

abbrev pub max_code_attempts : ℕ
max_code_attempts = 5

abbrev pub max_account_failures : ℕ
max_account_failures = 10

abbrev pub account_lock_time : ℕ
account_lock_time = 15 * 60 * 1000

-- `_Entry`
pub record Ticket : Type 0 where
  pub user : String
  pub version : String
  pub expires : ℕ
  pub attempts : ℕ

pub record TicketStore : Type 0 where
  pub lifetime : ℕ
  pub entries : Dict String Ticket
  pub failures : Dict String (List ℕ)

abbrev pub new_store : ℕ → TicketStore
new_store lifetime = record { lifetime = lifetime; entries = []; failures = [] }

abbrev pub failed_at : Option (List ℕ) → List ℕ
failed_at none = []
failed_at (some failures) = failures

-- `self._failures.setdefault(user, []).append(time.time())`
unfoldable pub note_failure : String → ℕ → Dict String (List ℕ) → Dict String (List ℕ)
note_failure user now failures = put user (failed_at (get user failures) ++ now ∷ []) failures

-- `t > cutoff`, the cutoff being 15 minutes ago
abbrev pub is_recent : ℕ → ℕ → Bool
is_recent now t = ltb now (t + account_lock_time)

-- Whether too many wrong second factors were given lately, and the store without the older ones.
unfoldable pub account_locked : String → ℕ → TicketStore → Bool × TicketStore
account_locked username now store =
    let recent = keep (is_recent now) (failed_at (get username store.failures)) in
    (
      leb max_account_failures (length recent),
      record store { failures = put username recent store.failures },
    )

module _ (sha256 : String → String) (session_version : AdminAccount → String) where
  unfoldable pub create : AdminAccount → String → ℕ → TicketStore → TicketStore
  create account tid now store = record store {
    entries =
        put (sha256 tid)
          (record {
            user = account.username;
            version = session_version account;
            expires = now + store.lifetime;
            attempts = 0;
          })
          (keep (λ (entry : String × Ticket). ltb now entry.1.expires) store.entries);
  }

  abbrev pub if_current : Ticket → Option AdminAccount → Option (Ticket × AdminAccount)
  if_current entry none = none
  if_current entry (some account) =
      if not (session_version account == entry.version) then none else some (entry, account)

  abbrev pub if_live :
      (String → Option AdminAccount) → ℕ → Option Ticket → Option (Ticket × AdminAccount)
  if_live account_of now none = none
  if_live account_of now (some entry) =
      if leb entry.expires now then none else if_current entry (account_of entry.user)

  -- `get`
  unfoldable pub find_ticket :
      Option String
      → (String → Option AdminAccount)
      → ℕ
      → TicketStore
      → Option (Ticket × AdminAccount)
  find_ticket none account_of now store = none
  find_ticket (some tid) account_of now store =
      if tid == "" then none else if_live account_of now (get (sha256 tid) store.entries)

module _ (sha256 : String → String) where
  abbrev pub count_wrong : String → ℕ → TicketStore → Option Ticket → Bool × TicketStore
  count_wrong tid now store none = (false, store)
  count_wrong tid now store (some entry) =
      let failures = note_failure entry.user now store.failures in
      let entry' : Ticket = record entry { attempts = entry.attempts + 1 } in
      if leb max_code_attempts (entry.attempts + 1)
      then (false, record store { failures = failures; entries = del (sha256 tid) store.entries })
      else (
        true,
        record store { failures = failures; entries = put (sha256 tid) entry' store.entries },
      )

  -- `fail`: whether the ticket may still be used
  unfoldable pub fail_code : String → ℕ → TicketStore → Bool × TicketStore
  fail_code tid now store = count_wrong tid now store (get (sha256 tid) store.entries)

  abbrev pub use_up : String → TicketStore → Option Ticket → Bool × TicketStore
  use_up tid store none = (false, store)
  use_up tid store (some entry) = (true, record store { entries = del (sha256 tid) store.entries })

  -- `consume`: whether this caller got it
  unfoldable pub consume : String → TicketStore → Bool × TicketStore
  consume tid store = use_up tid store (get (sha256 tid) store.entries)
