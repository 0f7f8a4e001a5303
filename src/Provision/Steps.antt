-- ===== src/Provision/Steps.antt =====
-- `_Run._steps` of src/frfw/provision.py: the steps, their order, and how each is undone.
use fr_os_pblk.Base.{
  String, Bool, true, false, ◌||◌, Option, none, some, List, [], ◌∷◌, if◌then◌else◌,
}
use fr_os_pblk.Transaction.{Undo}
use fr_os_pblk.Provision.Machinery.{Result, ok, err, Work, begins, only_named, Step, cause}

-- What `_steps` calls: the subsystems, whose work is done by other programs. The capture of a
-- step reads the machine and gives the undo to journal.
pub record Subsystems (W Config : Type 0) : Type 0 where
  pub read_live_sets : Config → W → Result (Unit {0})
  pub firewall : Config → Work W
  -- `capture_running_ruleset`: the undo that loads it again, if anything was loaded.
  pub running_ruleset : W → Result (Option (Undo W))
  pub forwarding : Work W
  pub capture_forwarding : W → Result (Undo W)
  pub wireguard : Config → Work W
  pub tunnel_exists : W → Bool
  pub without_wireguard : Config → Config
  pub addresses : Config → Option Config → Work W
  pub capture_links : Config → Option Config → W → Result (Undo W)
  pub ipv6 : Config → Work W
  pub ipv6_enabled : Config → Bool
  pub ipv6_files_exist : W → Bool
  pub capture_ipv6 : Config → Option Config → W → Result (Undo W)
  pub kea : Config → Work W
  pub has_dhcp_zones : Config → Bool
  pub capture_kea : W → Result (Undo W)
  pub dns_resolver : Config → Work W
  pub capture_dns_resolver : W → Result (Undo W)
  pub sni_filter : Config → Work W
  pub is_filtering : W → Bool
  pub without_sni_filter : Config → Config
  pub tls_exchange : Config → Work W
  pub capture_tls_file : W → Result (Undo W)
  pub ssh_exchange : Config → Work W
  pub capture_kex_file : W → Result (Undo W)
  pub sshd : Config → Work W
  pub capture_sshd : W → Result (Undo W)
  pub webui : Config → Work W

module _ {W : Type 0} where
  -- A step run as an undo: its messages are dropped, its exception is reported.
  abbrev pub as_undo : Work W → Undo W
  as_undo work w = ((work w).0, elim (work w).1 [ ok _ ↦ none | err e ↦ some (cause e) ])

  abbrev pub always : W → Bool
  always w = true

  unfoldable pub captured : Result (Undo W) → Result (Option (Undo W) × String)
  captured (ok undo) = ok (some undo, "")
  captured (err e) = err e

  -- The last branches of `_firewall_undo`.
  unfoldable pub loaded_before : Result (Option (Undo W)) → Result (Option (Undo W) × String)
  loaded_before (ok (some reload)) = ok (some reload, "")
  loaded_before (ok none) = ok (
    none,
    "nothing was loaded before it, so the new ruleset stays: the router is never left unfiltered",
  )
  loaded_before (err e) = err e

  module _ {Config : Type 0} (s : Subsystems W Config) (config : Config)
      (previous : Option Config) where
    -- `_firewall_undo`; the rebuild reads the live sets again.
    unfoldable pub firewall_undo : W → Result (Option (Undo W) × String)
    firewall_undo w = elim previous [
      | some before ↦ ok (
        some (λ v. elim (s.read_live_sets before v) [
          | err e ↦ (v, some (cause e))
          | ok _ ↦ as_undo (s.firewall before) v
        ]),
        "",
      )
      | none ↦ loaded_before (s.running_ruleset w)
    ]

    unfoldable pub wireguard_undo : W → Result (Option (Undo W) × String)
    wireguard_undo w = elim previous [
      | some before ↦ ok (some (as_undo (s.wireguard before)), "")
      | none ↦
          if s.tunnel_exists w
          then ok
              (none, "no config was recorded as applied before, so the tunnel as it was is unknown")
          else ok (some (as_undo (s.wireguard (s.without_wireguard config))), "")
    ]

    unfoldable pub xdp_undo : W → Result (Option (Undo W) × String)
    xdp_undo w = elim previous [
      | some before ↦ ok (some (as_undo (s.sni_filter before)), "")
      | none ↦
          if s.is_filtering w
          then ok (
            none,
            "no config was recorded as applied before, so its blocklist and devices are unknown",
          )
          else ok (some (as_undo (s.sni_filter (s.without_sni_filter config))), "")
    ]

    unfoldable pub was_ipv6 : Bool
    was_ipv6 = elim previous [ none ↦ false | some before ↦ s.ipv6_enabled before ]

    -- `ipv6_touched`
    unfoldable pub ipv6_touched : W → Bool
    ipv6_touched w = s.ipv6_enabled config || s.ipv6_files_exist w || was_ipv6

    unfoldable pub steps : List (Step W)
    steps =
        record {
          name = "the firewall";
          opening = begins always firewall_undo;
          work = s.firewall config;
        }
        ∷ record {
          name = "IPv4 forwarding";
          opening = begins always (λ w. captured (s.capture_forwarding w));
          work = s.forwarding;
        }
        ∷ record {
          name = "WireGuard";
          opening = begins always wireguard_undo;
          work = s.wireguard config;
        }
        ∷ record {
          name = "interface addresses";
          opening = begins always (λ w. captured (s.capture_links config previous w));
          work = s.addresses config previous;
        }
        ∷ record {
          name = "IPv6";
          opening = begins ipv6_touched (λ w. captured (s.capture_ipv6 config previous w));
          work = s.ipv6 config;
        }
        ∷ record {
          name = "DHCP (Kea)";
          opening = begins (λ w. s.has_dhcp_zones config) (λ w. captured (s.capture_kea w));
          work = s.kea config;
        }
        ∷ record {
          name = "the ad-block DNS resolver";
          opening = begins always (λ w. captured (s.capture_dns_resolver w));
          work = s.dns_resolver config;
        }
        ∷ record {
          name = "the XDP SNI filter";
          opening = begins always xdp_undo;
          work = s.sni_filter config;
        }
        ∷ record {
          name = "the webUI's TLS key exchange";
          opening = begins always (λ w. captured (s.capture_tls_file w));
          work = s.tls_exchange config;
        }
        ∷ record {
          name = "SSH key exchange";
          opening = begins always (λ w. captured (s.capture_kex_file w));
          work = s.ssh_exchange config;
        }
        ∷ record {
          name = "SSH listen addresses";
          opening = begins always (λ w. captured (s.capture_sshd w));
          work = s.sshd config;
        }
        ∷ record {
          name = "the webUI's listen addresses";
          opening = only_named;
          work = s.webui config;
        }
        ∷ []
