-- ===== src/Sessions/Ended.antt =====
-- `SessionStore` of src/frfw/webui/auth.py: runs of calls after a `revoke`.
use fr_os_pblk.Base.{
  ℕ, ◌+◌, String, ◌≡◌, ◌≢◌, refl, sym, ap, subst, Bool, true, false, not, Option, none, some, List,
  [], ◌∷◌, keep, ltb, ◌==◌, string_eq, nat_eq, if◌then◌else◌, arith, All,
}
use fr_os_pblk.Base.Dict.{get, del, get-put, get-del}
use fr_os_pblk.Sessions.Listed.{
  session_max_age, Session, Sessions, load_sessions, entry_valid, add_session, valid, revoke,
  kept_sessions, revoke_user,
}

-- The calls that change the list of sessions.
pub data SessionCall : Type 0 where
  adds : String → String → ℕ → SessionCall
  revokes : String → SessionCall
  revokes_user : String → SessionCall

abbrev pub Absent : String → Option Sessions → Type 0
Absent key file = get key (load_sessions file) ≡ none

keep-absent :
    (p : String × Session → Bool) (k : String) (d : Sessions)
    → get k d ≡ none
    → get k (keep p d) ≡ none
unfolding get
keep-absent p k [] h = refl
keep-absent p k ((j, e) ∷ d) h = ground (arith, keep-absent p k d)

load_if :
    (key : String) (b : Bool) (file : Option Sessions) (kept : Sessions)
    → Absent key file
    → get key kept ≡ none
    → Absent key (if b then file else some kept)
unfolding load_sessions
load_if key true file kept h k = h
load_if key false file kept h k = k

module _ (sha256 : String → String) where
  unfoldable pub act : SessionCall → Option Sessions → Option Sessions
  act (adds sid username now) file = add_session sha256 sid username now file
  act (revokes sid) file = revoke sha256 sid file
  act (revokes_user username) file = (revoke_user username file).0

  unfoldable pub act_all : List SessionCall → Option Sessions → Option Sessions
  act_all [] file = file
  act_all (a ∷ as') file = act_all as' (act a file)

  -- The action does not start a session with this key.
  abbrev pub SparesKey : String → SessionCall → Type 0
  SparesKey key (adds sid username now) = sha256 sid ≢ key
  SparesKey key (revokes sid) = Unit
  SparesKey key (revokes_user username) = Unit

  add_session-Absent :
      (key sid username : String) (now : ℕ) (file : Option Sessions)
      → sha256 sid ≢ key
      → Absent key file
      → Absent key (add_session sha256 sid username now file)
  unfolding add_session load_sessions
  add_session-Absent key sid username now file other h =
      let kept =
        keep (λ (entry : String × Session). ltb now entry.1.expires) (load_sessions file) in
      let gone = keep-absent (λ entry. ltb now entry.1.expires) key (load_sessions file) h in
      ground (
        arith,
        get-put (sha256 sid) key (record { user = username; expires = now + session_max_age }) kept,
        string_eq.test_iff (sha256 sid) key,
        other,
        gone,
      )

  revoke-Absent :
      (key sid : String) (file : Option Sessions)
      → Absent key file
      → Absent key (revoke sha256 sid file)
  unfolding revoke load_sessions
  revoke-Absent key sid file h =
      elim (get (sha256 sid) (load_sessions file))
        as (λ o.
          Absent key
            (elim o [ none ↦ file | some entry ↦ some (del (sha256 sid) (load_sessions file)) ])) [
              | none ↦ h
              | some entry ↦ ground (arith, get-del (sha256 sid) key (load_sessions file), h)
            ]

  act-Absent :
      (key : String) (a : SessionCall) (file : Option Sessions)
      → SparesKey key a
      → Absent key file
      → Absent key (act a file)
  unfolding act revoke_user kept_sessions
  act-Absent key (adds sid username now) file other h =
      add_session-Absent key sid username now file other h
  act-Absent key (revokes sid) file other h = revoke-Absent key sid file h
  act-Absent key (revokes_user username) file other h =
      load_if key _ file (kept_sessions username (load_sessions file)) h
        (keep-absent (λ entry. not (entry.1.user == username)) key (load_sessions file) h)

  act_all-Absent :
      (key : String) (as' : List SessionCall) (file : Option Sessions)
      → All (SparesKey key) as'
      → Absent key file
      → Absent key (act_all as' file)
  unfolding act_all
  act_all-Absent key [] file spared h = h
  act_all-Absent key (a ∷ as') file (s, spared) h =
      act_all-Absent key as' (act a file) spared (act-Absent key a file s h)

  revoked :
      (sid : String) (o : Option Session) (file : Option Sessions)
      → get (sha256 sid) (load_sessions file) ≡ o
      → Absent (sha256 sid) (revoke sha256 sid file)
  unfolding revoke load_sessions
  revoked sid none file h =
      subst
        (λ o.
          Absent (sha256 sid)
            (elim o [ none ↦ file | some entry ↦ some (del (sha256 sid) (load_sessions file)) ]))
        (sym h) h
  revoked sid (some e) file h =
      subst
        (λ o.
          Absent (sha256 sid)
            (elim o [ none ↦ file | some entry ↦ some (del (sha256 sid) (load_sessions file)) ]))
        (sym h)
        (ground (
          arith,
          get-del (sha256 sid) (sha256 sid) (load_sessions file),
          (string_eq.test_iff (sha256 sid) (sha256 sid)).1 refl,
        ))

  -- A session that was revoked is never valid again, for any user and at any time, whatever sessions
  -- are added after it, under other keys, and revoked.
  pub valid-revoke :
      (sid username : String) (now : ℕ) (file : Option Sessions) (as' : List SessionCall)
      → All (SparesKey (sha256 sid)) as'
      → valid sha256 sid username now (act_all as' (revoke sha256 sid file)) ≡ false
  unfolding valid
  valid-revoke sid username now file as' spared = ap (entry_valid username now) (
      act_all-Absent (sha256 sid) as' (revoke sha256 sid file) spared
        (revoked sid (get (sha256 sid) (load_sessions file)) file refl))
