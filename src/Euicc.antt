-- ===== src/Euicc.antt =====
-- The virtual eUICC: VirtualEUICC of euicc/euicc.py and the profiles (ISDP of euicc/isdp.py) that
-- it holds in memory and on disk.
pub mod Invariant
pub mod Enable
pub mod Operations
pub mod Memory
pub mod Sessions
use virtual_phone.Prelude.{
  ℕ, ◌+◌, ◌-◌, ◌*◌, Bool, true, false, Option, none, some, List, [], ◌∷◌, ltb, if◌then◌else◌,
  Result, ok, raised, ◌>>=◌, ◌>>◌, raise_if, or_raise, value_error, key_error, runtime_error,
  memory_error, not, find, store, remove, text_key,
}
use virtual_phone.Sms.Gsm7.{Text}

pub data EuiccState : Type 0 where
  initialized ready locked error : EuiccState

pub data ProfileState : Type 0 where
  disabled enabled deleting : ProfileState

pub data ProfileClass : Type 0 where
  provisioning operational test : ProfileClass

pub record Isdp : Type 0 where
  pub iccid : Text
  pub imsi : Text
  pub aid : Text
  pub ki : Text
  pub opc : Text
  pub mcc : Text
  pub mnc : Text
  pub spn : Text
  pub msisdn : Option Text
  pub gid1 : Option Text
  pub gid2 : Option Text
  pub impi : Option Text
  pub impu : Option Text
  pub home_domain : Option Text
  pub state : ProfileState
  pub profile_class : ProfileClass
  pub sqn : ℕ

abbrev pub is_enabled : ProfileState → Bool
is_enabled enabled = true
is_enabled _ = false

abbrev pub is_disabled : ProfileState → Bool
is_disabled disabled = true
is_disabled _ = false

abbrev pub is_ready : EuiccState → Bool
is_ready ready = true
is_ready _ = false

-- The decoded profile package; a key that is missing is `none`.
pub record ProfileData : Type 0 where
  pub iccid : Option Text
  pub imsi : Option Text
  pub ki : Option Text
  pub opc : Option Text
  pub mcc : Option Text
  pub mnc : Option Text
  pub spn : Option Text
  pub msisdn : Option Text
  pub impi : Option Text
  pub impu : Option Text
  pub home_domain : Option Text
  pub aid : Option Text
  pub profile_size : Option ℕ

abbrev pub or_default {ℓ} : {A : Type ℓ} → Option A → A → A
or_default none d = d
or_default (some a) d = a

-- The card: `files` are the profiles on disk by the ICCID in the file's name.
pub record Euicc : Type 0 where
  pub state : EuiccState
  pub free_nvram : ℕ
  pub profiles : List (Text × Isdp)
  pub active_iccid : Option Text
  pub files : List (Text × Isdp)

abbrev pub lookup : Text → List (Text × Isdp) → Option Isdp
lookup iccid = find text_key iccid

abbrev pub is_some {ℓ} : {A : Type ℓ} → Option A → Bool
is_some none = false
is_some (some _) = true

-- `self.profiles[iccid] = isdp` and _save_profile.
unfoldable pub put_profile : Isdp → Euicc → Euicc
put_profile isdp e = record e {
  profiles = store text_key isdp.iccid isdp e.profiles;
  files = store text_key isdp.iccid isdp e.files;
}

-- _require_ready
abbrev pub require_ready : Euicc → Result (Unit {0})
require_ready e = raise_if (not (is_ready e.state)) runtime_error

-- "001", "01" and "Virtual Operator".
abbrev pub default_mcc : Text
default_mcc = 0x30 ∷ 0x30 ∷ 0x31 ∷ []

abbrev pub default_mnc : Text
default_mnc = 0x30 ∷ 0x31 ∷ []

abbrev pub default_spn : Text
default_spn =
    0x56 ∷ 0x69 ∷ 0x72 ∷ 0x74 ∷ 0x75 ∷ 0x61 ∷ 0x6c ∷ 0x20 ∷ 0x4f ∷ 0x70 ∷ 0x65 ∷ 0x72 ∷ 0x61 ∷ 0x74
    ∷ 0x6f ∷ 0x72 ∷ []

abbrev pub required_size : ProfileData → ℕ
required_size profile_data = or_default profile_data.profile_size (64 * 1024)

-- The instance that install_profile creates.
abbrev pub new_isdp : ProfileData → Text → Text → Text → Text → Text → Isdp
new_isdp profile_data fresh_aid iccid imsi ki opc = record {
  iccid = iccid;
  imsi = imsi;
  aid = or_default profile_data.aid fresh_aid;
  ki = ki;
  opc = opc;
  mcc = or_default profile_data.mcc default_mcc;
  mnc = or_default profile_data.mnc default_mnc;
  spn = or_default profile_data.spn default_spn;
  msisdn = profile_data.msisdn;
  gid1 = none;
  gid2 = none;
  impi = profile_data.impi;
  impu = profile_data.impu;
  home_domain = profile_data.home_domain;
  state = disabled;
  profile_class = operational;
  sqn = 0;
}

-- install_profile; the fresh identifier that it may need is an argument.
unfoldable pub install_profile : ProfileData → Text → Euicc → Result (Euicc × Isdp)
unfolding put_profile
install_profile profile_data fresh_aid e = do
  require_ready e
  iccid ← or_raise profile_data.iccid key_error
  raise_if (is_some (lookup iccid e.profiles)) value_error
  raise_if (ltb e.free_nvram (required_size profile_data)) memory_error
  imsi ← or_raise profile_data.imsi key_error
  ki ← or_raise profile_data.ki key_error
  opc ← or_raise profile_data.opc key_error
  let isdp = new_isdp profile_data fresh_aid iccid imsi ki opc
  ok (record (put_profile isdp e) { free_nvram = e.free_nvram - required_size profile_data }, isdp)

-- `if self._active_iccid and self._active_iccid in self.profiles`: the profile meant. An empty
-- string counts as no active profile.
abbrev pub live_profile : Option Text → List (Text × Isdp) → Option Isdp
live_profile none profiles = none
live_profile (some []) profiles = none
live_profile (some (c ∷ iccid)) profiles = lookup (c ∷ iccid) profiles

unfoldable pub disable_found : Option Isdp → Euicc → Euicc
unfolding put_profile
disable_found none e = e
disable_found (some current) e = put_profile (record current { state = disabled }) e

-- Disabling the current profile, if there is one.
unfoldable pub disable_current : Euicc → Euicc
unfolding disable_found
disable_current e = disable_found (live_profile e.active_iccid e.profiles) e

unfoldable pub enable_profile : Text → Euicc → Result Euicc
unfolding disable_current put_profile
enable_profile iccid e = do
  require_ready e
  target ← or_raise (lookup iccid e.profiles) key_error
  let switched = record (put_profile (record target { state = enabled }) (disable_current e)) {
    active_iccid = some iccid;
  }
  ok (if is_enabled target.state then e else switched)

-- `if self._active_iccid == iccid: self._active_iccid = None`
abbrev pub clear_active : Text → Option Text → Option Text
clear_active iccid none = none
clear_active iccid (some active) = if text_key.same active iccid then none else some active

unfoldable pub disable_profile : Text → Euicc → Result Euicc
unfolding put_profile
disable_profile iccid e = do
  require_ready e
  target ← or_raise (lookup iccid e.profiles) key_error
  let off = record (put_profile (record target { state = disabled }) e) {
    active_iccid = clear_active iccid e.active_iccid;
  }
  ok (if is_disabled target.state then e else off)

unfoldable pub delete_profile : Text → Euicc → Result Euicc
delete_profile iccid e = do
  require_ready e
  target ← or_raise (lookup iccid e.profiles) key_error
  ok (record e {
    active_iccid = clear_active iccid e.active_iccid;
    profiles = remove text_key iccid e.profiles;
    files = remove text_key iccid e.files;
  })

unfoldable pub get_active_profile : Euicc → Option Isdp
get_active_profile e = live_profile e.active_iccid e.profiles
