-- ===== src/Sessions/OfUser.antt =====
-- `SessionStore.revoke_user` of src/frfw/webui/auth.py.
use fr_os_pblk.Base.{
  ℕ, String, ◌≡◌, refl, sym, ap, ◌∙◌, Bool, false, not, Option, none, some, [], ◌∷◌, keep, length,
  length-keep-le, ◌==◌, string_eq, nat_eq, if◌then◌else◌, arith, Bool-cases, if_ind_eq, inl, inr,
  ◌⊎◌,
}
use fr_os_pblk.Base.Dict.{get}
use fr_os_pblk.Base.Dict.Keys.{Unique, get-keep}
use fr_os_pblk.Sessions.Listed.{
  Session, Sessions, load_sessions, entry_valid, valid, kept_sessions, revoke_user,
}

-- The entries of a list whose length `keep` does not change all pass.
kept_all :
    (p : String × Session → Bool) (d : Sessions) → length (keep p d) ≡ length d → keep p d ≡ d
kept_all p [] h = refl
kept_all p (x ∷ d) h = elim (Bool-cases (p x)) [
  | inl kept ↦ rw kept (ap (λ l. x ∷ l) (kept_all p d (ground (arith, h, kept))))
  | inr dropped ↦ ground (arith, h, dropped, length-keep-le p d)
]

revoke_user-load :
    (username : String) (file : Option Sessions)
    → load_sessions (revoke_user username file).0 ≡ kept_sessions username (load_sessions file)
unfolding revoke_user kept_sessions load_sessions
revoke_user-load username file =
    let d = load_sessions file in
    let kept = kept_sessions username d in
    if_ind_eq (λ f. load_sessions f ≡ kept) (length kept == length d) file (some kept)
      (λ same. sym (
        kept_all (λ entry. not (entry.1.user == username)) d
          ((nat_eq.test_iff (length kept) (length d)).0 same)))
      (λ less. refl)

abbrev unless_user : String → Option Session → Option Session
unless_user username none = none
unless_user username (some e) = if not (e.user == username) then some e else none

unless_user-own :
    (username : String) (now : ℕ) (o : Option Session)
    → entry_valid username now (unless_user username o) ≡ false
unless_user-own username now none = refl
unless_user-own username now (some e) = elim (Bool-cases (e.user == username)) [
  | inl own ↦ rw own refl
  | inr foreign ↦ rw foreign (rw foreign refl)
]

unless_user-other :
    (username other : String) (now : ℕ) (o : Option Session)
    → (other == username) ≡ false
    → entry_valid other now (unless_user username o) ≡ entry_valid other now o
unless_user-other username other now none h = refl
unless_user-other username other now (some e) h = elim (Bool-cases (e.user == username)) [
  | inl own ↦
      let not_theirs : (e.user == other) ≡ false = ground (
        arith,
        h,
        own,
        string_eq.test_iff e.user username,
        string_eq.test_iff e.user other,
        string_eq.test_iff other username,
      ) in
      rw own (rw not_theirs refl)
  | inr foreign ↦ rw foreign refl
]

as_unless :
    (username : String) (o : Option Session)
    → elim o [ none ↦ none | some e ↦ if not (e.user == username) then some e else none ]
      ≡ unless_user username o
as_unless username none = refl
as_unless username (some e) = refl

get-revoke_user :
    (key username : String) (file : Option Sessions)
    → Unique (load_sessions file)
    → get key (load_sessions (revoke_user username file).0)
      ≡ unless_user username (get key (load_sessions file))
unfolding kept_sessions
get-revoke_user key username file u =
    ap (get key) (revoke_user-load username file)
    ∙ (get-keep (λ (x : Session). not (x.user == username)) key (load_sessions file) u
        ∙ as_unless username (get key (load_sessions file)))

-- After `revoke_user`, no session of that user is valid, whatever its id and at any time, and a session
-- of another user is valid if it was; the list has each key once.
pub valid-revoke_user :
    (sha256 : String → String) (sid username other : String) (now : ℕ) (file : Option Sessions)
    → Unique (load_sessions file)
    → (valid sha256 sid username now (revoke_user username file).0 ≡ false)
      × ((other ≡ username)
          ⊎ (valid sha256 sid other now (revoke_user username file).0
              ≡ valid sha256 sid other now file))
unfolding valid kept_sessions
valid-revoke_user sha256 sid username other now file u =
    let found = get-revoke_user (sha256 sid) username file u in
    let o = get (sha256 sid) (load_sessions file) in
    (
      ap (entry_valid username now) found ∙ unless_user-own username now o,
      elim (Bool-cases (other == username)) [
        | inl same ↦ inl ((string_eq.test_iff other username).0 same)
        | inr foreign ↦
            inr (ap (entry_valid other now) found ∙ unless_user-other username other now o foreign)
      ],
    )
