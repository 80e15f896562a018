-- ===== src/Svc.antt =====
-- The plain types of libhydrosphere/include/hs/svc/svc_types.hpp and hs_result.hpp.
pub mod Stubs
pub mod Enumerations
pub mod Calls
pub mod Machine
pub mod Aarch64
pub mod Aarch32
pub mod Api
use Prim.Native.Nat.{bit_or}
use hydrosphere.Common.{ℕ, ◌/◌, ◌*◌, ◌%◌, ◌^◌, Bool, not, ◌==◌}

-- class Handle
pub record Handle : Type 0 where
  pub value : ℕ  -- uint32_t

unfoldable pub is_invalid : Handle → Bool
is_invalid h = h.value == 0

abbrev pub from_raw_value : ℕ → Handle
from_raw_value v = record { value = v }

-- `Handle()`: the value-initialised handle.
abbrev pub no_handle : Handle
no_handle = from_raw_value 0

unfoldable pub handle_eq : Handle → Handle → Bool
handle_eq a b = a.value == b.value

-- `operator!=`, as it is written.
unfoldable pub handle_ne : Handle → Handle → Bool
handle_ne a b = a.value == b.value

-- class Result
pub record Result : Type 0 where
  pub value : ℕ  -- uint32_t

abbrev pub success : ℕ
success = 0

abbrev pub result : ℕ → Result
result v = record { value = v }

unfoldable pub is_ok : Result → Bool
is_ok r = r.value == success

unfoldable pub is_err : Result → Bool
unfolding is_ok
is_err r = not (is_ok r)

-- GetValue() & 0x3FFFFF: module and description of a result.
abbrev pub code_of : Result → ℕ
code_of r = r.value % 2 ^ 22

-- GetValue() & 0x3FFE00: the description alone.
abbrev pub description_of : Result → ℕ
description_of r = r.value / 2 ^ 9 % 2 ^ 13 * 2 ^ 9

-- enum class MemoryPermission, as the numbers that its operator gives.
abbrev permission_none : ℕ
permission_none = 0

abbrev permission_read : ℕ
permission_read = 1

abbrev permission_write : ℕ
permission_write = 2

abbrev permission_execute : ℕ
permission_execute = 4

-- `operator|`
unfoldable pub permission_or : ℕ → ℕ → ℕ
permission_or a b = bit_or a b

-- struct MemoryInfo, less its padding.
pub record MemoryInfo : Type 0 where
  pub address : ℕ
  pub size : ℕ
  pub kind : ℕ  -- the member `type`
  pub attribute : ℕ
  pub permission : ℕ
  pub device_ref_count : ℕ
  pub ipc_ref_count : ℕ

-- enum class InfoType
pub data InfoType : Type 0 where
  address_space_base address_space_size stack_region_base stack_region_size : InfoType

abbrev pub info_type_value : InfoType → ℕ
info_type_value address_space_base = 12
info_type_value address_space_size = 13
info_type_value stack_region_base = 14
info_type_value stack_region_size = 15

-- GetThreadPseudoHandle and GetProcessPseudoHandle of os_api.hpp.
abbrev pub thread_pseudo_handle : Handle
thread_pseudo_handle = from_raw_value 0xFFFF8000

abbrev pub process_pseudo_handle : Handle
process_pseudo_handle = from_raw_value 0xFFFF8001

-- How a call with system calls in it ends: it returns, aborts the process, or is still in its loop when the rounds are spent.
pub data Ending (S A : Type 0) : Type 0 where
  returns : A → S → Ending S A
  aborts : Ending S A
  unfinished : Ending S A
