-- ===== src/Sessions/Login.antt =====
-- `require_login` and `require_admin` of src/frfw/webui/deps.py.
use Prim.Native.String
use fr_os_pblk.Base.{
  ℕ, String, Bool, false, not, ◌&&◌, ◌||◌, Option, none, some, List, [], ◌∷◌, ◌==◌, string_eq,
  if◌then◌else◌,
}
use fr_os_pblk.Accounts.Account.{AdminAccount, File, has_mfa, is_admin, find_account, policy}
use fr_os_pblk.Sessions.Listed.{Sessions}
use fr_os_pblk.Sessions.Manager.{Signing, session_from_cookie, verify_csrf}

pub record PageRequest : Type 0 where
  pub cookie : Option String
  pub path : String
  pub method : String
  -- `submitted_csrf_token`
  pub token : String

-- The user's name, or the HTTPException.
pub data Admission : Type 0 where
  to_login : Admission
  to_setup : Admission
  to_mfa : Admission
  bad_csrf : Admission
  read_only : Admission
  admins_only : Admission
  allowed : String → Admission

abbrev pub safe_methods : List String
safe_methods = "GET" ∷ "HEAD" ∷ "OPTIONS" ∷ []

abbrev pub viewer_allowed_paths : List String
viewer_allowed_paths =
    "/logout" ∷ "/account/password" ∷ "/account/logout-everywhere" ∷ "/account/mfa/totp"
    ∷ "/account/mfa/webauthn/options" ∷ "/account/mfa/webauthn/register" ∷ "/account/mfa/remove"
    ∷ []

abbrev pub setup_paths : List String
setup_paths = "/setup" ∷ "/logout" ∷ []

abbrev pub mfa_enrol_prefix : String
mfa_enrol_prefix = "/account/mfa"

unfoldable pub one_of : String → List String → Bool
one_of x [] = false
one_of x (y ∷ ys) = (x == y) || one_of x ys

-- `path.startswith(MFA_ENROL_PREFIX)`
unfoldable pub enrols : String → Bool
enrols path = String.slice path 0 (String.len mfa_enrol_prefix) == mfa_enrol_prefix

-- An admin that has to enrol a second factor first.
unfoldable pub owes_mfa : AdminAccount → String → Bool → Bool
owes_mfa account path required =
    is_admin account
    && not (has_mfa account)
    && not (enrols path)
    && not (one_of path setup_paths)
    && required

unfoldable pub may_change : Signing → AdminAccount → PageRequest → ℕ → Option Sessions → Admission
may_change s account r now sessions =
    if one_of r.method safe_methods
    then allowed account.username
    else if not (verify_csrf s r.cookie (some r.token) now sessions)
    then bad_csrf
    else if not (is_admin account) && not (one_of r.path viewer_allowed_paths)
    then read_only
    else allowed account.username

-- The session's account, if it is there and its version is the session's.
unfoldable pub session_account : Signing → Option (String × String) → File → Option AdminAccount
session_account s none file = none
session_account s (some (username, version)) file = elim (find_account file username) [
  | none ↦ none
  | some account ↦ if not (version == s.session_version account) then none else some account
]

unfoldable pub check_account :
    Signing → Option AdminAccount → PageRequest → ℕ → Option Sessions → File → Admission
check_account s none r now sessions file = to_login
check_account s (some account) r now sessions file =
    if account.must_change && not (one_of r.path setup_paths)
    then to_setup
    else if owes_mfa account r.path (policy file)
    then to_mfa
    else may_change s account r now sessions

unfoldable pub require_login : Signing → PageRequest → ℕ → Option Sessions → File → Admission
require_login s r now sessions file =
    check_account s (session_account s (session_from_cookie s r.cookie now sessions) file) r now
      sessions file

abbrev pub only_admins : Option AdminAccount → String → Admission
only_admins none username = to_login
only_admins (some account) username =
    if not (is_admin account) then admins_only else allowed username

-- `require_admin`, with the account that `require_login` recorded on the request
unfoldable pub require_admin : Signing → PageRequest → ℕ → Option Sessions → File → Admission
require_admin s r now sessions file = elim (require_login s r now sessions file) [
  | allowed username ↦
      only_admins (session_account s (session_from_cookie s r.cookie now sessions) file) username
  | refusal ↦ refusal
]
