-- ===== src/Sessions/Listed.antt =====
-- `SessionStore` of src/frfw/webui/auth.py. The state is what the file holds, and each method is one
-- step under the lock. SHA-256 is a parameter, and so is the random id of a new session.
use fr_os_pblk.Base.{
  ℕ, ◌+◌, ◌-◌, ◌*◌, String, Bool, false, not, ◌&&◌, Option, none, some, [], length, keep, ltb, ◌==◌,
  string_eq, nat_eq, if◌then◌else◌,
}
use fr_os_pblk.Base.Dict.{Dict, get, put, del}

abbrev pub session_max_age : ℕ
session_max_age = 12 * 3600 * 1000

pub record Session : Type 0 where
  pub user : String
  pub expires : ℕ

abbrev pub Sessions : Type 0
Sessions = Dict String Session

-- `_load`, of what reading the file gives: nothing where it fails or the file holds no dict
unfoldable pub load_sessions : Option Sessions → Sessions
load_sessions none = []
load_sessions (some sessions) = sessions

abbrev pub entry_valid : String → ℕ → Option Session → Bool
entry_valid username now none = false
entry_valid username now (some entry) = (entry.user == username) && ltb now entry.expires

module _ (sha256 : String → String) where
  unfoldable pub add_session : String → String → ℕ → Option Sessions → Option Sessions
  add_session sid username now file = some (
      put (sha256 sid) (record { user = username; expires = now + session_max_age })
        (keep (λ (entry : String × Session). ltb now entry.1.expires) (load_sessions file)))

  unfoldable pub valid : String → String → ℕ → Option Sessions → Bool
  valid sid username now file = entry_valid username now (get (sha256 sid) (load_sessions file))

  unfoldable pub revoke : String → Option Sessions → Option Sessions
  revoke sid file = elim (get (sha256 sid) (load_sessions file)) [
    | none ↦ file
    | some entry ↦ some (del (sha256 sid) (load_sessions file))
  ]

unfoldable pub kept_sessions : String → Sessions → Sessions
kept_sessions username sessions =
    keep (λ (entry : String × Session). not (entry.1.user == username)) sessions

-- The new file, and how many sessions ended.
unfoldable pub revoke_user : String → Option Sessions → Option Sessions × ℕ
revoke_user username file =
    let sessions = load_sessions file in
    let kept = kept_sessions username sessions in
    ((if length kept == length sessions then file else some kept), length sessions - length kept)
