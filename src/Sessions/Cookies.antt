-- ===== src/Sessions/Cookies.antt =====
-- `SessionManager` of src/frfw/webui/auth.py: a cookie from its making to its logout.
use fr_os_pblk.Base.{
  ℕ, ◌+◌, ◌<◌, String, ◌≡◌, refl, ap, ◌∙◌, true, false, Option, none, some, List, keep, ltb, ◌==◌,
  string_eq, nat_eq, arith, All,
}
use fr_os_pblk.Base.Dict.{get, put, get-put}
use fr_os_pblk.Accounts.Account.{AdminAccount, File}
use fr_os_pblk.Sessions.Listed.{
  session_max_age, Session, Sessions, load_sessions, entry_valid, add_session, valid, revoke,
}
use fr_os_pblk.Sessions.Manager.{
  Signing, Payload, Claim, claim, session_payload, create_cookie_value, load_cookie, live_claim,
  session_from_cookie, revoke_cookie,
}
use fr_os_pblk.Sessions.Login.{PageRequest, to_login, session_account, check_account, require_login}
use fr_os_pblk.Sessions.Ended.{SessionCall, SparesKey, act_all, valid-revoke}

load-dumped :
    (s : Signing) (p : Payload) (made now : ℕ)
    → s.loads (s.dumps p made) session_max_age now ≡ some p
    → (s.dumps p made == "") ≡ false
    → load_cookie s (some (s.dumps p made)) now ≡ claim p
unfolding load_cookie
load-dumped s p made now opens filled = rw filled (rw opens refl)

valid-add_session :
    (sha256 : String → String) (sid username : String) (made now : ℕ) (file : Option Sessions)
    → now < made + session_max_age
    → valid sha256 sid username now (add_session sha256 sid username made file) ≡ true
unfolding valid add_session load_sessions
valid-add_session sha256 sid username made now file young =
    let entry : Session = record { user = username; expires = made + session_max_age } in
    let kept = keep (λ (x : String × Session). ltb made x.1.expires) (load_sessions file) in
    let found : get (sha256 sid) (put (sha256 sid) entry kept) ≡ some entry = ground (
      arith,
      get-put (sha256 sid) (sha256 sid) entry kept,
      (string_eq.test_iff (sha256 sid) (sha256 sid)).1 refl,
    ) in
    ap (entry_valid username now) found
    ∙ ground (arith, young, (string_eq.test_iff username username).1 refl)

abbrev of_claim : Option Claim → Option (String × String)
of_claim none = none
of_claim (some c) = some (c.username, c.version)

live-listed :
    (s : Signing) (c : Claim) (now : ℕ) (file : Option Sessions)
    → valid s.sha256 c.sid c.username now file ≡ true
    → live_claim s (some c) now file ≡ some c
unfolding live_claim
live-listed s c now file listed = rw listed refl

live-gone :
    (s : Signing) (c : Claim) (now : ℕ) (file : Option Sessions)
    → valid s.sha256 c.sid c.username now file ≡ false
    → live_claim s (some c) now file ≡ none
unfolding live_claim
live-gone s c now file gone = rw gone refl

session-live :
    (s : Signing) (cookie : Option String) (c : Claim) (now : ℕ) (file : Option Sessions)
    → load_cookie s cookie now ≡ some c
    → valid s.sha256 c.sid c.username now file ≡ true
    → session_from_cookie s cookie now file ≡ some (c.username, c.version)
unfolding session_from_cookie
session-live s cookie c now file opened listed =
    ap (λ o. of_claim (live_claim s o now file)) opened
    ∙ ap of_claim (live-listed s c now file listed)

session-dead :
    (s : Signing) (cookie : Option String) (c : Claim) (now : ℕ) (file : Option Sessions)
    → load_cookie s cookie now ≡ some c
    → valid s.sha256 c.sid c.username now file ≡ false
    → session_from_cookie s cookie now file ≡ none
unfolding session_from_cookie
session-dead s cookie c now file opened gone =
    ap (λ o. of_claim (live_claim s o now file)) opened ∙ ap of_claim (live-gone s c now file gone)

-- When opening the new cookie within its age gives back what was signed, and it is not empty: the cookie that is made for an
-- account, presented within 12 hours of its making, names the account's user and password version.
pub session_from_cookie-create_cookie_value :
    (s : Signing) (account : AdminAccount) (sid : String) (made now : ℕ) (file : Option Sessions)
    → s.loads (s.dumps (session_payload s account sid) made) session_max_age now
      ≡ some (session_payload s account sid)
    → (s.dumps (session_payload s account sid) made == "") ≡ false
    → now < made + session_max_age
    → let (cookie, file') = create_cookie_value s account sid made file in
      session_from_cookie s (some cookie) now file'
      ≡ some (account.username, s.session_version account)
unfolding create_cookie_value claim
session_from_cookie-create_cookie_value s account sid made now file opens filled young =
    let payload = session_payload s account sid in
    let c : Claim = record {
      username = account.username;
      version = s.session_version account;
      sid = sid;
    } in
    session-live s (some (s.dumps payload made)) c now
      (add_session s.sha256 sid account.username made file)
      (load-dumped s payload made now opens filled)
      (valid-add_session s.sha256 sid account.username made now file young)

-- After a logout with a cookie that was let in, a request with that cookie goes to the sign-in page, at
-- any later time at which the cookie opens to the same data, whatever sessions were added, under other
-- keys, and ended since.
pub require_login-revoke_cookie :
    (s : Signing) (r : PageRequest) (c : Claim) (out now : ℕ) (sessions : Option Sessions)
    (accounts : File) (as' : List SessionCall)
    → load_cookie s r.cookie out ≡ some c
    → load_cookie s r.cookie now ≡ some c
    → All (SparesKey s.sha256 (s.sha256 c.sid)) as'
    → require_login s r now (act_all s.sha256 as' (revoke_cookie s r.cookie out sessions)) accounts
      ≡ to_login
unfolding require_login session_account check_account revoke_cookie
require_login-revoke_cookie s r c out now sessions accounts as' opened later spared =
    let ended = act_all s.sha256 as' (revoke_cookie s r.cookie out sessions) in
    let gone : valid s.sha256 c.sid c.username now ended ≡ false =
      ap
        (λ o. valid s.sha256 c.sid c.username now (
          act_all s.sha256 as'
            (elim o [ none ↦ sessions | some d ↦ revoke s.sha256 d.sid sessions ])))
        opened
      ∙ valid-revoke s.sha256 c.sid c.username now sessions as' spared in
    ap (λ session. check_account s (session_account s session accounts) r now ended accounts)
      (session-dead s r.cookie c now ended later gone)
