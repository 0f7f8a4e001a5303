-- ===== src/Tickets/Tests.antt =====
-- src/frfw/webui/mfa.py: tickets and codes, and the theorems at concrete inputs.
use Prim.Native.String
use fr_os_pblk.Base.{
  nat_eq, ◌≡◌, refl, if◌then◌else◌, ◌≤◌, String, false, none, some, List, [], ◌∷◌, ◌==◌, string_eq,
}
use fr_os_pblk.Accounts.Password.{unreadable}
use fr_os_pblk.Accounts.Account.{
  no_mfa, AdminAccount, File, current, users, write, find_account, policy_of,
}
use fr_os_pblk.Tickets.Issued.{ticket_time, new_store, create}
use fr_os_pblk.Tickets.Spent.{
  TicketCall, fails, consumes, asks_locked, count_true, uses_key, fails_key, count_true-create,
}
use fr_os_pblk.Tickets.Codes.{Otp, is_newer, candidates, first_match, totp_step}
use fr_os_pblk.Tickets.Totp.{
  Try, with_step, file_after, keep_step, with_totp, with_account, mfa_totp, accepted_steps,
  Increasing, mfa_totp-Increasing,
}
use fr_os_pblk.Base.Dict.{get, put}
use fr_os_pblk.Accounts.Store.{set_mfa, replace_account}

abbrev alice : AdminAccount
alice = record {
  username = "alice";
  password_hash = unreadable "";
  role = "admin";
  must_change = false;
  mfa = no_mfa;
}

abbrev key_of_id : String → String
key_of_id tid = String.◌++◌ "#" tid

abbrev one_version : AdminAccount → String
one_version account = "1"

abbrev calls : List TicketCall
calls =
    fails "t1" 1000
    ∷ asks_locked "alice" 1500
    ∷ consumes "t1"
    ∷ consumes "t1"
    ∷ fails "t1" 2000
    ∷ []

count_true-create_example :
    (count_true key_of_id one_version
        (uses_key key_of_id one_version "#t1")
        calls
        (create key_of_id one_version alice "t1" 500 (new_store ticket_time))
      ≤ 1)
    × (count_true key_of_id one_version
          (fails_key key_of_id one_version "#t1")
          calls
          (create key_of_id one_version alice "t1" 500 (new_store ticket_time))
        ≤ 4)
count_true-create_example =
    count_true-create key_of_id one_version alice "t1" 500 (new_store ticket_time) calls tt
      (tt, (tt, (tt, (tt, (tt, tt)))))

-- The code of step 3 is "three".
abbrev otp : Otp
otp = record {
  interval = 30000;
  code_at = λ secret step. if step == 3 then "three" else "other";
  six_digits = λ code. some code;
}

abbrev enrolled : File
enrolled =
    current
      ((
        "alice",
        record {
          password_hash = unreadable "";
          role = some "admin";
          must_change = none;
          mfa =
              some (record {
                totp = some (record { secret = "secret"; last_step = 1 });
                webauthn = [];
              });
        },
      )
        ∷ [])
      none

-- The code of step 3, twice, and that of step 4.
abbrev tries : List Try
tries =
    record { username = "alice"; code = "three"; now = 90000 }
    ∷ record { username = "alice"; code = "three"; now = 91000 }
    ∷ record { username = "alice"; code = "other"; now = 120000 }
    ∷ []

once_each : accepted_steps otp "alice" tries enrolled ≡ 3 ∷ 4 ∷ []
unfolding accepted_steps mfa_totp with_account with_totp keep_step file_after with_step set_mfa
    replace_account find_account users write get put totp_step first_match candidates is_newer
    policy_of
once_each = refl

mfa_totp-Increasing_example : Increasing (some 1) (accepted_steps otp "alice" tries enrolled)
unfolding find_account users get
mfa_totp-Increasing_example = mfa_totp-Increasing otp "alice" tries enrolled
