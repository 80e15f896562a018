-- ===== src/Allocator.antt =====
-- The reservation of address ranges of
-- libhydrosphere/source/common/os/detail/os_virtualmemory_allocator.{hpp,cpp}, for the 64-bit target.
-- What the kernel says of its memory, `QueryMemory` and `GetInfo`, is a parameter.
pub mod Scan
pub mod Reserve
pub mod Success
pub mod Setup
pub mod Apart
pub mod Repeat
use Prim.Native.Nat.{bit_and}
use hydrosphere.Common.{
  ℕ, zero, suc, ◌+◌, ◌-◌, ◌^◌, Bool, true, false, not, ◌&&◌, ◌||◌, Option, none, some, ◌==◌, ltb,
  leb, if◌then◌else◌, u64,
}
use hydrosphere.Svc.{
  Handle, Result, MemoryInfo, InfoType, address_space_base, address_space_size, stack_region_base,
  stack_region_size, is_ok, is_err, process_pseudo_handle,
}
use hydrosphere.CriticalSection.Sequential.{enter, leave}
use hydrosphere.CriticalSection.Guarded.{Caller}

-- PAGE_SIZE
abbrev pub page_size : ℕ
page_size = 0x1000

pub record VirtualMemoryAllocator : Type 0 where
  pub critical_section : ℕ
  pub address_space_start : ℕ
  pub address_space_end : ℕ
  pub guard_page_size : ℕ
  pub next_available_address : ℕ

-- The constructor.
abbrev pub allocator : (start end guard : ℕ) → VirtualMemoryAllocator
allocator start end guard = record {
  critical_section = 0;
  address_space_start = start;
  address_space_end = end;
  guard_page_size = guard;
  next_available_address = start;
}

-- `InsideAddressRange`
abbrev pub inside_address_range : (start end target : ℕ) → Bool
inside_address_range start end target = leb start target && ltb target end

-- (a + (alignement - 1)) & ~(alignement - 1), on 64-bit words.
unfoldable pub align_up : (a alignement : ℕ) → ℕ
align_up a alignement =
    let low = u64 (alignement + 2 ^ 64 - 1) in bit_and (u64 (a + low)) (2 ^ 64 - 1 - low)

-- One round of the loop of `Reserve` after the other: `none` when the rounds are spent. The result is
-- the address and what becomes of `next_availaible_address`.
unfoldable pub scan :
    ℕ
    → (query : ℕ → MemoryInfo) → VirtualMemoryAllocator
    → (size alignement address : ℕ) → (already_retried : Bool) → Option (ℕ × ℕ)
scan zero query a size alignement address retried = none
scan (suc rounds) query a size alignement address retried =
    let candidate = align_up (u64 (address + a.guard_page_size)) alignement in
    let info = query candidate in
    let restart = scan rounds query a size alignement a.address_space_start true in
    let onward = scan rounds query a size alignement (u64 (info.address + info.size)) retried in
    if not (inside_address_range a.address_space_start a.address_space_end candidate)
    then (if retried then some (0, a.next_available_address) else restart)
    else (if not (info.kind == 0) || ltb info.size size
        then onward
        else some (candidate, u64 (candidate + size)))

-- What `Reserve` does between `Enter` and `Leave`.
unfoldable pub reserve_locked :
    ℕ
    → (query : ℕ → MemoryInfo) → (size alignement : ℕ) → VirtualMemoryAllocator
    → Option (ℕ × VirtualMemoryAllocator)
reserve_locked rounds query size alignement a =
    let size' = align_up size page_size in
    let a' =
      if not
        (inside_address_range a.address_space_start a.address_space_end a.next_available_address)
      then record a { next_available_address = a.address_space_start }
      else a in
    elim (scan rounds query a' size' alignement a'.next_available_address false) [
      | none ↦ none
      | some (address, next) ↦ some (address, record a' { next_available_address = next })
    ]

-- `Reserve`; `none` while the caller waits for the lock, or when the rounds are spent.
unfoldable pub reserve :
    Caller
    → (query : ℕ → MemoryInfo) → (size alignement : ℕ) → VirtualMemoryAllocator
    → Option (ℕ × VirtualMemoryAllocator)
reserve c query size alignement a = elim (enter c.rounds c.others c.self a.critical_section) [
  | none ↦ none
  | some v ↦
      elim (reserve_locked c.rounds query size alignement (record a { critical_section = v })) [
        | none ↦ none
        | some (address, a') ↦
            some (
              address,
              record a' { critical_section = leave c.unlocked c.self a'.critical_section },
            )
      ]
]

-- `Free` ignores its argument.
abbrev pub free : (ptr : ℕ) → VirtualMemoryAllocator → VirtualMemoryAllocator
free ptr a = a

-- `InitializeVirtualMemoryAllocators`: the address space and the stack allocator, or an abort.
-- `get_info` gives the result and the value that the kernel writes.
pub data Initialized : Type 0 where
  aborted : Initialized
  allocators : (address_space stack : VirtualMemoryAllocator) → Initialized

unfoldable pub initialize_virtual_memory_allocators :
    (get_info : InfoType → Handle → ℕ → Result × ℕ) → Initialized
initialize_virtual_memory_allocators get_info =
    let (r0, start) = get_info address_space_base process_pseudo_handle 0 in
    let (r1, size) = get_info address_space_size process_pseudo_handle 0 in
    let (r2, stack_start) = get_info stack_region_base process_pseudo_handle 0 in
    let (r3, stack_size) = get_info stack_region_size process_pseudo_handle 0 in
    if is_err r0
    then aborted
    else (if not (is_ok r1)
        then aborted
        else (if not (is_ok r2)
            then aborted
            else (if not (is_ok r3)
                then aborted
                else allocators (allocator start (u64 (start + size)) 0x1000)
                    (allocator stack_start (u64 (stack_start + stack_size)) 0x1000))))
