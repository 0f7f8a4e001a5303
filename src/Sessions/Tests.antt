-- ===== src/Sessions/Tests.antt =====
-- src/frfw/webui/auth.py and deps.py: a sign-in, a request and a logout, and the theorems at
-- concrete inputs.
use Prim.Native.String
use fr_os_pblk.Base.{
  String, ◌≡◌, refl, false, Option, none, some, List, [], ◌∷◌, string_eq, arith, ◌⊎◌,
}
use fr_os_pblk.Base.Dict.{get}
use fr_os_pblk.Accounts.Password.{unreadable}
use fr_os_pblk.Accounts.Account.{
  no_mfa, AdminAccount, has_mfa, is_admin, File, current, users, policy, policy_of, find_account,
}
use fr_os_pblk.Sessions.Listed.{Sessions, load_sessions, valid, revoke_user}
use fr_os_pblk.Sessions.Manager.{
  Signing, Payload, claim, create_cookie_value, load_cookie, live_claim, session_from_cookie,
  generate_csrf_token, verify_csrf_token, verify_csrf, revoke_cookie,
}
use fr_os_pblk.Sessions.Login.{
  PageRequest, allowed, to_login, one_of, enrols, owes_mfa, may_change, session_account,
  check_account, require_login,
}
use fr_os_pblk.Sessions.Allowed.{IsAllowed, require_login-IsAllowed}
use fr_os_pblk.Sessions.Ended.{SessionCall, adds, revokes, act_all}
use fr_os_pblk.Sessions.OfUser.{valid-revoke_user}
use fr_os_pblk.Sessions.Cookies.{
  session_from_cookie-create_cookie_value, require_login-revoke_cookie,
}

abbrev alices : Payload
alices = record { username = some "alice"; v = some "1"; sid = some "s1" }

-- One cookie, that opens to Alice's first session.
abbrev signing : Signing
signing = record {
  sha256 = λ sid. String.◌++◌ "#" sid;
  hmac = λ text. String.◌++◌ "mac:" text;
  session_version = λ account. "1";
  dumps = λ payload now. "cookie";
  loads = λ cookie age now. some alices;
}

abbrev accounts : File
accounts =
    current
      ((
        "alice",
        record {
          password_hash = unreadable "";
          role = some "admin";
          must_change = none;
          mfa = none;
        },
      )
        ∷ [])
      none

abbrev listed : Option Sessions
listed = some (("#s1", record { user = "alice"; expires = 5000 }) ∷ [])

abbrev post : PageRequest
post = record { cookie = some "cookie"; path = "/rules"; method = "POST"; token = "mac:csrf:s1" }

post_allowed : require_login signing post 100 listed accounts ≡ allowed "alice"
unfolding require_login check_account session_account session_from_cookie live_claim load_cookie
    claim valid load_sessions get find_account users owes_mfa is_admin has_mfa enrols one_of
    may_change policy policy_of verify_csrf verify_csrf_token generate_csrf_token
post_allowed = refl

require_login-IsAllowed_example : IsAllowed signing "alice" post 100 listed accounts
require_login-IsAllowed_example =
    require_login-IsAllowed signing post 100 listed accounts "alice" post_allowed

valid-revoke_user_example :
    (valid signing.sha256 "s1" "alice" 100 (revoke_user "alice" listed).0 ≡ false)
    × (◌≡◌ {A = String} "bob" "alice"
        ⊎ (valid signing.sha256 "s1" "bob" 100 (revoke_user "alice" listed).0
            ≡ valid signing.sha256 "s1" "bob" 100 listed))
unfolding load_sessions get
valid-revoke_user_example =
    valid-revoke_user signing.sha256 "s1" "alice" "bob" 100 listed (refl, tt)

cookie_opened :
    load_cookie signing (some "cookie") 200
    ≡ some (record { username = "alice"; version = "1"; sid = "s1" })
unfolding load_cookie claim
cookie_opened = refl

abbrev later : List SessionCall
later = adds "s2" "alice" 300 ∷ revokes "s2" ∷ []

require_login-revoke_cookie_example :
    require_login signing post 200
      (act_all signing.sha256 later (revoke_cookie signing post.cookie 200 listed))
      accounts
    ≡ to_login
require_login-revoke_cookie_example =
    require_login-revoke_cookie signing post
      (record { username = "alice"; version = "1"; sid = "s1" }) 200 200 listed accounts later
      cookie_opened cookie_opened
      ((λ h. ground (arith, (string_eq.test_iff "#s2" "#s1").1 h)), (tt, tt))

abbrev alice : AdminAccount
alice = record {
  username = "alice";
  password_hash = unreadable "";
  role = "admin";
  must_change = false;
  mfa = no_mfa;
}

session_from_cookie-create_cookie_value_example :
    session_from_cookie signing
      (some "cookie")
      400
      (create_cookie_value signing alice "s1" 300 none).1
    ≡ some ("alice", "1")
unfolding create_cookie_value
session_from_cookie-create_cookie_value_example =
    session_from_cookie-create_cookie_value signing alice "s1" 300 400 none refl refl (omega arith)
