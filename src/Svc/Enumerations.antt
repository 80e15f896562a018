-- ===== src/Svc/Enumerations.antt =====
-- The enumerations of libhydrosphere/include/hs/svc/svc_types.hpp that only the prototypes of system calls
-- name, with the numbers that stand for them.
use hydrosphere.Common.{ℕ, zero, suc, ◌≡◌, refl, List, [], ◌∷◌, Option, none, some}

pub data LimitableResource : Type 0 where
  memory threads events transfer_memories sessions : LimitableResource

unfoldable pub limitable_resource_value : LimitableResource → ℕ
limitable_resource_value memory = 0
limitable_resource_value threads = 1
limitable_resource_value events = 2
limitable_resource_value transfer_memories = 3
limitable_resource_value sessions = 4

-- ThreadActivity and ProcessActivity
pub data Activity : Type 0 where
  unpaused paused : Activity

unfoldable pub activity_value : Activity → ℕ
activity_value unpaused = 0
activity_value paused = 1

pub data InterruptType : Type 0 where
  level_trigger edge_trigger : InterruptType

unfoldable pub interrupt_type_value : InterruptType → ℕ
interrupt_type_value level_trigger = 0
interrupt_type_value edge_trigger = 1

pub data ProcessInfoType : Type 0 where
  process_state : ProcessInfoType

unfoldable pub process_info_type_value : ProcessInfoType → ℕ
process_info_type_value process_state = 0

pub data DeviceName : Type 0 where
  afi avpc dc dcb hc bda isp2 msenc_nvenc nv nv2 ppcs sata vi vic xusb_host : DeviceName
  xusb_dev tsec ppcs1 dc1 sdmmc1a sdmmc2a sdmmc3a sdmmc4a isp2b gpu gpub ppcs2 : DeviceName
  nvdec ape se nvjpg hc1 se1 axiap etr tsecb tsec1 tsecb1 nvdec1 : DeviceName

-- Each name without a number of its own has the next number.
device_name_value : DeviceName → ℕ
device_name_value afi = 0
device_name_value avpc = 1
device_name_value dc = 2
device_name_value dcb = 3
device_name_value hc = 4
device_name_value bda = 5
device_name_value isp2 = 6
device_name_value msenc_nvenc = 7
device_name_value nv = 8
device_name_value nv2 = 9
device_name_value ppcs = 10
device_name_value sata = 11
device_name_value vi = 12
device_name_value vic = 13
device_name_value xusb_host = 14
device_name_value xusb_dev = 15
device_name_value tsec = 16
device_name_value ppcs1 = 17
device_name_value dc1 = 18
device_name_value sdmmc1a = 19
device_name_value sdmmc2a = 20
device_name_value sdmmc3a = 21
device_name_value sdmmc4a = 22
device_name_value isp2b = 23
device_name_value gpu = 24
device_name_value gpub = 25
device_name_value ppcs2 = 26
device_name_value nvdec = 27
device_name_value ape = 28
device_name_value se = 29
device_name_value nvjpg = 30
device_name_value hc1 = 31
device_name_value se1 = 32
device_name_value axiap = 33
device_name_value etr = 34
device_name_value tsecb = 35
device_name_value tsec1 = 36
device_name_value tsecb1 = 37
device_name_value nvdec1 = 38

-- The names in the order of the source.
device_names : List DeviceName
device_names =
    afi ∷ avpc ∷ dc ∷ dcb ∷ hc ∷ bda ∷ isp2 ∷ msenc_nvenc ∷ nv ∷ nv2 ∷ ppcs ∷ sata ∷ vi ∷ vic
    ∷ xusb_host ∷ xusb_dev ∷ tsec ∷ ppcs1 ∷ dc1 ∷ sdmmc1a ∷ sdmmc2a ∷ sdmmc3a ∷ sdmmc4a ∷ isp2b
    ∷ gpu ∷ gpub ∷ ppcs2 ∷ nvdec ∷ ape ∷ se ∷ nvjpg ∷ hc1 ∷ se1 ∷ axiap ∷ etr ∷ tsecb ∷ tsec1
    ∷ tsecb1 ∷ nvdec1 ∷ []

nth {ℓ} : {A : Type ℓ} → List A → ℕ → Option A
nth [] n = none
nth (x ∷ xs) zero = some x
nth (x ∷ xs) (suc n) = nth xs n

-- The number of a device is its place in the source, so that no two devices share one.
device_name_value-place : (d : DeviceName) → nth device_names (device_name_value d) ≡ some d
unfolding nth device_names device_name_value
device_name_value-place afi = refl
device_name_value-place _ = refl
