-- ===== src/Allocator/Repeat.antt =====
-- What libhydrosphere/source/common/os/detail/os_virtualmemory_allocator.cpp reserves twice: between
-- `Reserve` and the `MapMemory` of its caller nothing records the range.
use hydrosphere.Common.{
  ℕ, suc, ◌+◌, ◌*◌, ◌≤◌, ◌<◌, ◌^◌, ◌≡◌, ◌∙◌, ap, u64, some, arith, Bool, true, false, Bool-cases,
  inl, inr, ltb,
}
use hydrosphere.Svc.{MemoryInfo}
use hydrosphere.Allocator.{
  page_size, VirtualMemoryAllocator, allocator, align_up, scan, reserve_locked,
}
use hydrosphere.Allocator.Reserve.{align_up_pages}

module _ (query : ℕ → MemoryInfo) (rounds pages first end : ℕ)
    (room : (first + 1) * page_size < end) (full : end ≤ (first + pages + 2) * page_size)
    (small : (first + pages + 2) * page_size ≤ 2 ^ 63)
    (unused : (query ((first + 1) * page_size)).kind ≡ 0)
    (large : pages * page_size ≤ (query ((first + 1) * page_size)).size) where
  page_lem :
      (n : ℕ)
      → n + 1 ≤ first + pages + 2
      → align_up (u64 (n * page_size + page_size)) page_size ≡ (n + 1) * page_size
  page_lem n le =
      ap (λ t. align_up t page_size) (omega arith) ∙ align_up_pages (n + 1) (omega arith)

  abbrev found : ℕ
  found = (first + 1) * page_size

  -- The allocator with its next search behind the range that it found.
  abbrev once : VirtualMemoryAllocator
  once = record (allocator (first * page_size) end page_size) {
    next_available_address = found + pages * page_size;
  }

  -- A search from the start, whatever the next address is.
  from_start :
      (n next : ℕ) (retried : Bool)
      → scan
          (suc n)
          query
          (record once { next_available_address = next })
          (pages * page_size)
          page_size
          (first * page_size)
          retried
        ≡ some (found, found + pages * page_size)
  unfolding scan
  from_start n next retried = ground (arith, page_lem first (omega arith))

  -- A search from behind the range comes back to the start.
  around :
      scan
        (suc (suc rounds))
        query
        once
        (pages * page_size)
        page_size
        (found + pages * page_size)
        false
      ≡ scan (suc rounds) query once (pages * page_size) page_size (first * page_size) true
  unfolding scan
  around = ground (arith, page_lem (first + 1 + pages) (omega arith))

  first_time :
      reserve_locked
        (suc (suc rounds))
        query
        (pages * page_size)
        page_size
        (allocator (first * page_size) end page_size)
      ≡ some (found, once)
  unfolding reserve_locked
  first_time =
      ground (
        arith,
        align_up_pages pages (omega arith),
        from_start (suc rounds) (first * page_size) false,
      )

  second_time :
      reserve_locked (suc (suc rounds)) query (pages * page_size) page_size once
      ≡ some (found, once)
  unfolding reserve_locked
  second_time = elim (Bool-cases (ltb (found + pages * page_size) end)) [
    | inl inside ↦ ground (
      arith,
      align_up_pages pages (omega arith),
      around,
      from_start rounds (found + pages * page_size) true,
    )
    | inr outside ↦ ground (
      arith,
      align_up_pages pages (omega arith),
      from_start (suc rounds) (first * page_size) false,
    )
  ]

  -- A fresh allocator with a guard of one page, whose range starts at a page, has its second page in unused memory as large as the request of `pages` pages, and ends at most one page behind a reservation there: `Reserve` finds the second page, and as long as the kernel's map is the same, as it is until the caller maps the memory, every further `Reserve` of that size finds the same address again.
  pub reserve_locked-repeats :
      (b : VirtualMemoryAllocator) × (reserve_locked
          (suc (suc rounds))
          query
          (pages * page_size)
          page_size
          (allocator (first * page_size) end page_size)
        ≡ some (found, b))
      × (reserve_locked (suc (suc rounds)) query (pages * page_size) page_size b ≡ some (found, b))
  reserve_locked-repeats = (once, first_time, second_time)
