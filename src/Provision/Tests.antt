-- ===== src/Provision/Tests.antt =====
-- An apply on a machine with a firewall and a resolver, each set to a number.
use fr_os_pblk.Base.{
  ℕ, String, ◌≡◌, refl, sym, ap, ◌∙◌, subst, Bool, true, false, Option, none, some, [], ◌∷◌, arith,
  All,
}
use fr_os_pblk.Transaction.{Undo, begin, roll_back, undo_all, undo_entry}
use fr_os_pblk.Provision.Machinery.{
  other, Result, ok, err, Work, Opening, begins, run_all, all_steps, run_steps, enter, opened,
  begin_step, end_pass, fail_with, failed_pass,
}
use fr_os_pblk.Provision.Steps.{
  Subsystems, steps, firewall_undo, captured, loaded_before, wireguard_undo, xdp_undo, ipv6_touched,
  was_ipv6,
}
use fr_os_pblk.Provision.Restored.{IsUndone, AllUndone, Plain, PlainOpening, TakesBack}
use fr_os_pblk.Provision.Unchanged.{Silent, IsPlain}
use fr_os_pblk.Provision.Apply.{
  Router, Checks, apply_all, load_applied_config, preflight, checks, first_failure, record_applied,
  run_steps_of,
}
use fr_os_pblk.Provision.Outcome.{
  Records, LeavesRouter, apply_all-Records, run_steps_of-Silent, apply_all-restores,
}

-- The firewall's number and the resolver's.
abbrev Machine : Type 0
Machine = ℕ × ℕ

abbrev idle : Work Machine
idle w = (w, ok [])

abbrev nothing : Undo Machine
nothing w = (w, none)

-- The resolver takes the new number and does not start.
abbrev subsystems : Subsystems Machine ℕ
subsystems = record {
  read_live_sets = λ config w. ok tt;
  firewall = λ config w. ((config, w.1), ok ("loaded" ∷ []));
  running_ruleset = λ w. ok (some (λ v. ((w.0, v.1), none)));
  forwarding = idle;
  capture_forwarding = λ w. ok nothing;
  wireguard = λ config. idle;
  tunnel_exists = λ w. false;
  without_wireguard = λ config. config;
  addresses = λ config previous. idle;
  capture_links = λ config previous w. ok nothing;
  ipv6 = λ config. idle;
  ipv6_enabled = λ config. false;
  ipv6_files_exist = λ w. false;
  capture_ipv6 = λ config previous w. ok nothing;
  kea = λ config. idle;
  has_dhcp_zones = λ config. false;
  capture_kea = λ w. ok nothing;
  dns_resolver = λ config w. ((w.0, config), err (other "dnsmasq did not start"));
  capture_dns_resolver = λ w. ok (λ v. ((v.0, w.1), none));
  sni_filter = λ config. idle;
  is_filtering = λ w. false;
  without_sni_filter = λ config. config;
  tls_exchange = λ config. idle;
  capture_tls_file = λ w. ok nothing;
  ssh_exchange = λ config. idle;
  capture_kex_file = λ w. ok nothing;
  sshd = λ config. idle;
  capture_sshd = λ w. ok nothing;
  webui = λ config. idle;
}

abbrev no_checks : Checks Machine ℕ
no_checks = record {
  firewall = λ config w. none;
  devices = λ config w. none;
  has_dhcp_zones = λ config. false;
  kea = λ config w. none;
  adblocker_enabled = λ config. true;
  dnsmasq = λ config w. none;
  xdp_enabled = λ config. false;
  xdp = λ config w. none;
  ipv6_enabled = λ config. false;
  ipv6 = λ config w. none;
}

abbrev unread : String → Option ℕ
unread text = none

abbrev before : Router Machine
before = record { machine = (1, 1); recorded = none }

abbrev undo_of : Result (Option (Undo Machine) × String) → Option (Undo Machine)
undo_of (ok (undo, why_not)) = undo
undo_of (err e) = none

-- A step that journals `u`, and whose work `u` takes back.
undone_by :
    (name : String) (touched : Machine → Bool)
    (read : Machine → Result (Option (Undo Machine) × String)) (work : Work Machine) (w : Machine)
    (u : Undo Machine)
    → read w ≡ ok (some u, "")
    → (touched w ≡ false → (work w).0 ≡ w)
    → u (work w).0 ≡ (w, none)
    → TakesBack (begins touched read) work w
undone_by name touched read work w u reads rests undone =
    (rests, λ undo why_not yes h. (u, ap undo_of (sym h ∙ reads), undone))

-- A step whose work does nothing, and which journals nothing or an undo that does nothing.
at_rest :
    (name : String) (touched : Machine → Bool)
    (read : Machine → Result (Option (Undo Machine) × String)) (w : Machine)
    → read w ≡ ok (some nothing, "")
    → IsUndone (record { name = name; opening = begins touched read; work = idle }) w
at_rest name touched read w reads =
    let plain : Plain (read w) = subst Plain (sym reads) tt in
    record {
      takes_back = undone_by name touched read idle w nothing reads (λ h. refl) refl;
      plain_work = tt;
      plain_opening = plain;
    }

firewall_example :
    IsUndone
      (record {
        name = "the firewall";
        opening = begins (λ w. true) (firewall_undo subsystems 2 none);
        work = subsystems.firewall 2;
      })
      (1, 1)
unfolding firewall_undo loaded_before
firewall_example = record {
  takes_back =
      undone_by "the firewall" (λ w. true) (firewall_undo subsystems 2 none) (subsystems.firewall 2)
        (1, 1) (λ v. ((1, v.1), none)) refl (λ h. ground arith) refl;
  plain_work = tt;
  plain_opening = tt;
}

resolver_example :
    IsUndone
      (record {
        name = "the ad-block DNS resolver";
        opening = begins (λ w. true) (λ w. captured (subsystems.capture_dns_resolver w));
        work = subsystems.dns_resolver 2;
      })
      (2, 1)
unfolding captured
resolver_example = record {
  takes_back =
      undone_by "the ad-block DNS resolver" (λ w. true)
        (λ w. captured (subsystems.capture_dns_resolver w)) (subsystems.dns_resolver 2) (2, 1)
        (λ v. ((v.0, 1), none)) refl (λ h. ground arith) refl;
  plain_work = tt;
  plain_opening = tt;
}

all_undone : AllUndone (steps subsystems 2 none) (1, 1)
unfolding steps captured wireguard_undo xdp_undo
all_undone = (
  firewall_example,
  (
    at_rest _ _ _ (2, 1) refl,
    (
      at_rest _ _ _ (2, 1) refl,
      (
        at_rest _ _ _ (2, 1) refl,
        (
          at_rest _ _ _ (2, 1) refl,
          (
            at_rest _ _ _ (2, 1) refl,
            (
              resolver_example,
              (
                at_rest _ _ _ (2, 2) refl,
                (
                  at_rest _ _ _ (2, 2) refl,
                  (
                    at_rest _ _ _ (2, 2) refl,
                    (
                      at_rest _ _ _ (2, 2) refl,
                      (record { takes_back = refl; plain_work = tt; plain_opening = tt }, tt),
                    ),
                  ),
                ),
              ),
            ),
          ),
        ),
      ),
    ),
  ),
)

-- The resolver does not start, and the firewall is loaded as it was.
apply_all-restores_example :
    LeavesRouter before (apply_all unread subsystems no_checks 2 (some "adblocker: on") true before)
unfolding load_applied_config
apply_all-restores_example =
    apply_all-restores unread no_checks subsystems 2 (some "adblocker: on") before tt all_undone

apply_all-Records_example :
    Records
      (some "adblocker: on")
      before
      (apply_all unread subsystems no_checks 2 (some "adblocker: on") false before)
apply_all-Records_example =
    apply_all-Records unread no_checks subsystems 2 (some "adblocker: on") false before

is_plain :
    (name : String) (opening : Opening Machine) (work : Work Machine)
    → ((w : Machine) → Plain (work w).1)
    → ((w : Machine) → PlainOpening opening w)
    → IsPlain (record { name = name; opening = opening; work = work })
is_plain name opening work plain_work plain_opening = record {
  plain_work = plain_work;
  plain_opening = plain_opening;
}

All-IsPlain : All IsPlain (steps subsystems 2 none)
unfolding steps captured wireguard_undo xdp_undo firewall_undo loaded_before
All-IsPlain =
    let plain = λ (w : Machine). tt in
    (
      is_plain _ _ _ plain plain,
      (
        is_plain _ _ _ plain plain,
        (
          is_plain _ _ _ plain plain,
          (
            is_plain _ _ _ plain plain,
            (
              is_plain _ _ _ plain plain,
              (
                is_plain _ _ _ plain plain,
                (
                  is_plain _ _ _ plain plain,
                  (
                    is_plain _ _ _ plain plain,
                    (
                      is_plain _ _ _ plain plain,
                      (
                        is_plain _ _ _ plain plain,
                        (is_plain _ _ _ plain plain, (is_plain _ _ _ plain plain, tt)),
                      ),
                    ),
                  ),
                ),
              ),
            ),
          ),
        ),
      ),
    )

run_steps_of-Silent_example : Silent (1, 1) (run_steps_of unread subsystems 2 false before)
unfolding load_applied_config
run_steps_of-Silent_example = run_steps_of-Silent unread subsystems 2 false before tt All-IsPlain

-- Without a rollback the router stays half way.
half_way : (apply_all unread subsystems no_checks 2 none false before).0.machine ≡ (2, 2)
unfolding apply_all record_applied run_steps_of run_all all_steps run_steps enter opened begin_step
    end_pass fail_with failed_pass steps captured firewall_undo loaded_before wireguard_undo
    ipv6_touched was_ipv6 load_applied_config
half_way = refl

-- With a rollback it does not.
put_back : (apply_all unread subsystems no_checks 2 none true before).0.machine ≡ (1, 1)
unfolding apply_all preflight checks first_failure record_applied run_steps_of run_all all_steps
    run_steps enter opened begin_step end_pass fail_with failed_pass steps captured firewall_undo
    loaded_before wireguard_undo ipv6_touched was_ipv6 load_applied_config begin roll_back undo_all
    undo_entry
put_back = refl
