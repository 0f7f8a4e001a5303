-- ===== src/LoginGuard/State.antt =====
-- The state of src/frfw/webui/auth_rate_limiter.py and the keys that sources count under: `_key`,
-- and jail_key of src/frfw/bruteforce.py.
use Prim.Native.Char.{code}
use Prim.Native.String
use fr_os_pblk.Base.{
  ℕ, ◌+◌, ◌*◌, String, Bool, false, not, ◌&&◌, ◌||◌, Option, none, some, List, [], ltb, leb,
  if◌then◌else◌, ◌==◌, string_eq, nat_eq, length,
}
use fr_os_pblk.Base.Dict.{Dict, get, put}

abbrev pub second : ℕ
second = 1000

abbrev pub sweep_interval : ℕ
sweep_interval = 100

abbrev pub max_tracked : ℕ
max_tracked = 5000

abbrev pub known_source_time : ℕ
known_source_time = 90 * 24 * 3600 * second

abbrev pub device_cache_time : ℕ
device_cache_time = 60 * second

abbrev pub device_cache_size : ℕ
device_cache_size = 1024

abbrev pub ban_duration_seconds : ℕ
ban_duration_seconds = 60 * 60

-- What Python's `ipaddress.ip_address` returns of an address text.
pub record Address : Type 0 where
  pub is_v6 : Bool
  pub has_scope : Bool
  pub ipv4_mapped : Option String
  pub text : String

-- The arguments of `BruteforceGuard`, and Python's address parser.
pub record Settings : Type 0 where
  pub max_attempts : ℕ
  pub window : ℕ
  pub account_max_attempts : ℕ
  pub account_window : ℕ
  pub has_state_path : Bool
  pub device_of : Option (String → Option String)
  pub ip_address : String → Option Address

-- The state file's content.
pub record Saved : Type 0 where
  pub ips : Dict String (List ℕ)
  pub accounts : Dict String (List ℕ)
  pub known : Dict String (Dict String ℕ)

-- The fields of `BruteforceGuard`, and the state file with whether it can be written now.
pub record Guard : Type 0 where
  pub attempts : Dict String (List ℕ)
  pub account_attempts : Dict String (List ℕ)
  pub known : Dict String (Dict String ℕ)
  pub calls_since_sweep : ℕ
  pub devices : Dict String (Option String × ℕ)
  pub file : Option Saved
  pub is_writable : Bool

-- The key that a source counts under.

-- `none` is the ValueError.
unfoldable pub jail_key : Settings → String → Option String
jail_key c ip = elim (c.ip_address ip) [
  | none ↦ none
  | some a ↦
      if a.is_v6 && a.has_scope then none else elim (if a.is_v6 then a.ipv4_mapped else none) [
        | none ↦ some a.text
        | some mapped ↦ some mapped
      ]
]

unfoldable pub source : Settings → String → String
unfolding jail_key
source c ip = elim (jail_key c ip) [ none ↦ ip | some key ↦ key ]

-- `":" in text`
unfoldable pub has_colon : String → Bool
has_colon String.[] = false
has_colon (String.◌∷◌ ch rest) = code ch == b':' || has_colon rest

-- `f"mac:{device}" if device else key`
unfoldable pub device_key : String → Option String → String
device_key key none = key
device_key key (some device) = if device == "" then key else String.◌++◌ "mac:" device

-- `self._devices[key] = (device, now)`, after making room.
unfoldable pub remember : String → Option String → ℕ → Guard → Guard
remember key device now g = record g {
  devices =
      put key (device, now) (if leb device_cache_size (length g.devices) then [] else g.devices);
}

unfoldable pub look_up : (String → Option String) → String → ℕ → Guard → String × Guard
unfolding remember
look_up device_of key now g =
    let device = device_of key in (device_key key device, remember key device now g)

-- `_key`
unfoldable pub key_of : Settings → String → ℕ → Guard → String × Guard
unfolding source has_colon device_key look_up
key_of c ip now g =
    let key = source c ip in
    elim c.device_of [
      | none ↦ (key, g)
      | some device_of ↦ if not (has_colon key) then (key, g) else elim (get key g.devices) [
        | none ↦ look_up device_of key now g
        | some (device, since) ↦
            if ltb now (since + device_cache_time)
            then (device_key key device, g)
            else look_up device_of key now g
      ]
    ]
