-- ===== src/Provision/Apply.antt =====
-- `apply_all`, `preflight` and the record of the applied config, of src/frfw/provision.py.
use fr_os_pblk.Base.{
  String, Bool, true, false, Option, none, some, List, [], ◌∷◌, ◌++◌, if◌then◌else◌,
}
use fr_os_pblk.Transaction.{ApplyError}
use fr_os_pblk.Provision.Machinery.{Ending, applied, failed, run_all}
use fr_os_pblk.Provision.Steps.{Subsystems, steps}

-- The machine, and the text of the config last applied in full (APPLIED_CONFIG_PATH).
pub record Router (W : Type 0) : Type 0 where
  pub machine : W
  pub recorded : Option String

-- A check of `preflight`: it reads the machine, and may raise.
abbrev pub Check : Type 0 → Type 0
Check W = W → Option String

-- The checks that `preflight` calls, and whether the config wants them.
pub record Checks (W Config : Type 0) : Type 0 where
  pub firewall : Config → Check W
  pub devices : Config → Check W
  pub has_dhcp_zones : Config → Bool
  pub kea : Config → Check W
  pub adblocker_enabled : Config → Bool
  pub dnsmasq : Config → Check W
  pub xdp_enabled : Config → Bool
  pub xdp : Config → Check W
  pub ipv6_enabled : Config → Bool
  pub ipv6 : Config → Check W

module _ {W : Type 0} where
  abbrev pub wanted : Bool → String → Check W → List (String × Check W)
  wanted true step check = (step, check) ∷ []
  wanted false step check = []

  -- The first check that raises ends the apply.
  unfoldable pub first_failure : List (String × Check W) → W → Option ApplyError
  first_failure [] w = none
  first_failure ((step, check) ∷ rest) w = elim (check w) [
    | some text ↦ some (record {
      step = step;
      cause = text;
      changed = false;
      rolled_back = [];
      not_rolled_back = [];
    })
    | none ↦ first_failure rest w
  ]

  -- `write_private(record, source_text)` after a run that succeeded; that it fails is not modelled.
  unfoldable pub record_applied : Option String → Router W → W × Ending → Router W × Ending
  record_applied none r (w, applied messages) = (record r { machine = w }, applied messages)
  record_applied (some text) r (w, applied messages) =
      (record { machine = w; recorded = some text }, applied messages)
  record_applied source r (w, failed e) = (record r { machine = w }, failed e)

module _ {W Config : Type 0} (c : Checks W Config) where
  unfoldable pub checks : Config → List (String × Check W)
  checks config =
      (("the firewall ruleset", c.firewall config) ∷ ("network devices", c.devices config) ∷ [])
      ++ (wanted (c.has_dhcp_zones config) "DHCP (Kea)" (c.kea config)
          ++ (wanted (c.adblocker_enabled config) "the ad-block DNS resolver" (c.dnsmasq config)
              ++ (wanted (c.xdp_enabled config) "the XDP SNI filter" (c.xdp config)
                  ++ wanted (c.ipv6_enabled config) "IPv6" (c.ipv6 config))))

  unfoldable pub preflight : Config → W → Option ApplyError
  preflight config w = first_failure (checks config) w

-- `load_applied_config`
unfoldable pub load_applied_config :
    {Config : Type 0} → (String → Option Config) → Option String → Option Config
load_applied_config parse none = none
load_applied_config parse (some text) = parse text

module _ {W Config : Type 0} (parse : String → Option Config) (s : Subsystems W Config) where
  unfoldable pub run_steps_of : Config → Bool → Router W → W × Ending
  run_steps_of config transactional r =
      run_all (s.read_live_sets config) (steps s config (load_applied_config parse r.recorded))
        transactional r.machine

  unfoldable pub apply_all :
      Checks W Config → Config → Option String → Bool → Router W → Router W × Ending
  apply_all c config source transactional r =
      elim (if transactional then preflight c config r.machine else none) [
        | some e ↦ (r, failed e)
        | none ↦ record_applied source r (run_steps_of config transactional r)
      ]
