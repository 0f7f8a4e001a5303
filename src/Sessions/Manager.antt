-- ===== src/Sessions/Manager.antt =====
-- The CSRF tokens and `SessionManager` of src/frfw/webui/auth.py. The signed cookie of itsdangerous,
-- SHA-256 and HMAC are parameters.
use Prim.Native.String
use fr_os_pblk.Base.{
  ℕ, String, Bool, false, not, ◌||◌, Option, none, some, ◌==◌, string_eq, if◌then◌else◌,
}
use fr_os_pblk.Accounts.Account.{AdminAccount}
use fr_os_pblk.Sessions.Listed.{session_max_age, Sessions, add_session, valid, revoke}

-- What a cookie carries: any of the fields may be missing or not a text.
pub record Payload : Type 0 where
  pub username : Option String
  pub v : Option String
  pub sid : Option String

-- `loads` is None for BadSignature and SignatureExpired; its numbers are the age allowed and the time.
pub record Signing : Type 0 where
  pub sha256 : String → String
  pub hmac : String → String
  pub session_version : AdminAccount → String
  pub dumps : Payload → ℕ → String
  pub loads : String → ℕ → ℕ → Option Payload

-- The data of a cookie that `_load` lets through.
pub record Claim : Type 0 where
  pub username : String
  pub version : String
  pub sid : String

abbrev pub or_empty : Option String → String
or_empty none = ""
or_empty (some v) = v

unfoldable pub claim : Payload → Option Claim
claim payload = elim payload.username [
  | none ↦ none
  | some username ↦ elim payload.sid [
    | none ↦ none
    | some sid ↦ some (record { username = username; version = or_empty payload.v; sid = sid })
  ]
]

module _ (s : Signing) where
  unfoldable pub generate_csrf_token : String → String
  generate_csrf_token sid = s.hmac (String.◌++◌ "csrf:" sid)

  unfoldable pub verify_csrf_token : String → String → Bool
  verify_csrf_token token sid =
      if (token == "") || (sid == "") then false else token == generate_csrf_token sid

  -- What the cookie of a new session carries.
  abbrev pub session_payload : AdminAccount → String → Payload
  session_payload account sid = record {
    username = some account.username;
    v = some (s.session_version account);
    sid = some sid;
  }

  unfoldable pub create_cookie_value :
      AdminAccount → String → ℕ → Option Sessions → String × Option Sessions
  create_cookie_value account sid now file = (
    s.dumps (session_payload account sid) now,
    add_session s.sha256 sid account.username now file,
  )

  -- `_load`
  unfoldable pub load_cookie : Option String → ℕ → Option Claim
  load_cookie none now = none
  load_cookie (some cookie) now =
      if cookie == ""
      then none
      else elim (s.loads cookie session_max_age now) [ none ↦ none | some payload ↦ claim payload ]

  -- The claim of a cookie whose session is still listed.
  unfoldable pub live_claim : Option Claim → ℕ → Option Sessions → Option Claim
  live_claim none now file = none
  live_claim (some c) now file =
      if not (valid s.sha256 c.sid c.username now file) then none else some c

  unfoldable pub session_from_cookie :
      Option String → ℕ → Option Sessions → Option (String × String)
  session_from_cookie cookie now file = elim (live_claim (load_cookie cookie now) now file) [
    | none ↦ none
    | some c ↦ some (c.username, c.version)
  ]

  unfoldable pub csrf_token_for : Option String → ℕ → Option Sessions → String
  csrf_token_for cookie now file = elim (live_claim (load_cookie cookie now) now file) [
    | none ↦ ""
    | some c ↦ generate_csrf_token c.sid
  ]

  unfoldable pub verify_csrf : Option String → Option String → ℕ → Option Sessions → Bool
  verify_csrf cookie none now file = false
  verify_csrf cookie (some token) now file =
      if token == "" then false else elim (live_claim (load_cookie cookie now) now file) [
        | none ↦ false
        | some c ↦ verify_csrf_token token c.sid
      ]

  unfoldable pub revoke_cookie : Option String → ℕ → Option Sessions → Option Sessions
  revoke_cookie cookie now file = elim (load_cookie cookie now) [
    | none ↦ file
    | some c ↦ revoke s.sha256 c.sid file
  ]
