-- ===== src/Allocator/Setup.antt =====
-- The two allocators that the initialisation makes.
use hydrosphere.Common.{ℕ, ◌+◌, ◌≡◌, false, true, arith, u64}
use hydrosphere.Svc.{
  Handle, Result, InfoType, address_space_base, address_space_size, stack_region_base,
  stack_region_size, is_ok, is_err, process_pseudo_handle,
}
use hydrosphere.Allocator.{aborted, allocators, allocator, initialize_virtual_memory_allocators}

-- The four questions that the initialisation asks of the kernel.
abbrev pub answer : (InfoType → Handle → ℕ → Result × ℕ) → InfoType → Result × ℕ
answer get_info t = get_info t process_pseudo_handle 0

-- If all four answers are successes, each allocator has the range of its base and size, an unused
-- next address at the start of it and a guard of one page.
pub initialize_ok :
    (get_info : InfoType → Handle → ℕ → Result × ℕ)
    → ((t : InfoType) → is_ok (answer get_info t).0 ≡ true)
    → let value : InfoType → ℕ = λ t. (answer get_info t).1 in
      initialize_virtual_memory_allocators get_info
      ≡ allocators
          (allocator
            (value address_space_base)
            (u64 (value address_space_base + value address_space_size))
            0x1000)
          (allocator
            (value stack_region_base)
            (u64 (value stack_region_base + value stack_region_size))
            0x1000)
unfolding initialize_virtual_memory_allocators is_err
initialize_ok get_info ok = ground (
  arith,
  ok address_space_base,
  ok address_space_size,
  ok stack_region_base,
  ok stack_region_size,
)

-- If any of the four answers is an error, the process aborts.
pub initialize_aborts :
    (get_info : InfoType → Handle → ℕ → Result × ℕ) (t : InfoType)
    → is_ok (answer get_info t).0 ≡ false
    → initialize_virtual_memory_allocators get_info ≡ aborted
unfolding initialize_virtual_memory_allocators is_err
initialize_aborts get_info address_space_base e = ground arith
initialize_aborts get_info address_space_size e = ground arith
initialize_aborts get_info stack_region_base e = ground arith
initialize_aborts get_info stack_region_size e = ground arith
