-- ===== src/Allocator/Reserve.antt =====
-- What `Reserve` returns.
use hydrosphere.Common.{
  ℕ, suc, ◌+◌, ◌*◌, ◌^◌, ◌≤◌, ◌<◌, ◌≡◌, refl, ap, ◌∙◌, ◌⊎◌, inl, inr, false, not, some, arith,
  if◌then◌else◌, Bool-cases, u64,
}
use hydrosphere.Svc.{MemoryInfo}
use hydrosphere.Allocator.{
  VirtualMemoryAllocator, inside_address_range, align_up, scan, reserve_locked, page_size,
  allocator,
}
use hydrosphere.Allocator.Scan.{
  IsAlignment, align_up_lem, Outcome, Fits, IsMap, scan-Outcome, scan_ends,
}

-- The allocator with which the search of `Reserve` begins.
abbrev pub rewound : VirtualMemoryAllocator → VirtualMemoryAllocator
rewound a =
    if not (inside_address_range a.address_space_start a.address_space_end a.next_available_address)
    then record a { next_available_address = a.address_space_start }
    else a

pub rewound-IsMap :
    {query : ℕ → MemoryInfo} {al limit : ℕ} (a : VirtualMemoryAllocator)
    → IsMap query a al limit
    → IsMap query (rewound a) al limit × ((rewound a).next_available_address ≤ limit)
rewound-IsMap a m =
    elim (Bool-cases
      (inside_address_range a.address_space_start a.address_space_end a.next_available_address)) [
        | inl within ↦
            let (low, high, end) =
              m.covers a.next_available_address (ground arith) (ground arith) in
            rw within (m, omega arith)
        | inr beyond ↦ rw beyond (
          record { start_le = m.start_le; room = m.room; below = m.below; covers = m.covers },
          m.start_le,
        )
      ]

-- What stays as it was, and what is known of the address that is returned.
pub record Reserved (query : ℕ → MemoryInfo) (size al : ℕ) (a : VirtualMemoryAllocator) (r : ℕ)
    (b : VirtualMemoryAllocator) : Type 0 where
  pub same_start : b.address_space_start ≡ a.address_space_start
  pub same_end : b.address_space_end ≡ a.address_space_end
  pub same_guard : b.guard_page_size ≡ a.guard_page_size
  pub same_lock : b.critical_section ≡ a.critical_section
  pub outcome : (r ≡ 0) ⊎ Fits query a (align_up size page_size) al r b.next_available_address

Outcome-Reserved :
    (query : ℕ → MemoryInfo) (size al n : ℕ) (a : VirtualMemoryAllocator) (out : ℕ × ℕ)
    → Outcome query (record a { next_available_address = n }) (align_up size page_size) al out
    → Reserved query size al a out.0 (record a { next_available_address = out.1 })
Outcome-Reserved query size al n a (r, next) (inl (zeroed, same)) = record {
  same_start = refl;
  same_end = refl;
  same_guard = refl;
  same_lock = refl;
  outcome = inl zeroed;
}
Outcome-Reserved query size al n a (r, next) (inr f) = record {
  same_start = refl;
  same_end = refl;
  same_guard = refl;
  same_lock = refl;
  outcome = inr (record {
    inside = f.inside;
    aligned = f.aligned;
    unused = f.unused;
    large = f.large;
    onward = f.onward;
  });
}

rewound-Reserved :
    (query : ℕ → MemoryInfo) (size al : ℕ) (a : VirtualMemoryAllocator) (out : ℕ × ℕ)
    → Outcome query (rewound a) (align_up size page_size) al out
    → Reserved query size al a out.0 (record (rewound a) { next_available_address = out.1 })
rewound-Reserved query size al a out o =
    elim (Bool-cases
      (inside_address_range a.address_space_start a.address_space_end a.next_available_address)) [
        | inl within ↦
            rw within
              (Outcome-Reserved query size al a.next_available_address a out (rw within at o))
        | inr beyond ↦
            rw beyond (Outcome-Reserved query size al a.address_space_start a out (rw beyond at o))
      ]

pub reserve_locked-scan :
    (query : ℕ → MemoryInfo) (rounds size al : ℕ) (a : VirtualMemoryAllocator) (out : ℕ × ℕ)
    → scan rounds query
        (rewound a)
        (align_up size page_size)
        al
        (rewound a).next_available_address
        false
      ≡ some out
    → reserve_locked rounds query size al a
      ≡ some (out.0, record (rewound a) { next_available_address = out.1 })
unfolding reserve_locked
reserve_locked-scan query rounds size al a out e = rw (e, reserve_locked)

pub page-IsAlignment : IsAlignment page_size
page-IsAlignment = record { low = 12; high = 52; power = refl; word = refl; positive = omega arith }

-- A multiple of the page size is its own rounding.
pub align_up_pages :
    (n : ℕ) → n * page_size ≤ 2 ^ 63 → align_up (n * page_size) page_size ≡ n * page_size
align_up_pages n small =
    align_up_lem (n * page_size) page_size page-IsAlignment (omega arith) ∙ omega arith

-- On a map of memory, with enough rounds, `Reserve` ends. It keeps the range, the guard size and the
-- lock, and returns 0 or an address in the range that has the alignement and that the kernel reports
-- as unused, in a region that is in all at least as large as the size in whole pages; the next
-- search then begins where that size from the address ends.
pub reserve_locked-Reserved :
    (query : ℕ → MemoryInfo) (rounds size al limit : ℕ) (a : VirtualMemoryAllocator)
    → IsAlignment al
    → al < 2 ^ 64
    → IsMap query a al limit
    → limit + limit + 1 < rounds
    → (r : ℕ) × (b : VirtualMemoryAllocator) × (reserve_locked rounds query size al a ≡ some (r, b))
      × Reserved query size al a r b
reserve_locked-Reserved query rounds size al limit a p small m enough =
    let (m', le) = rewound-IsMap a m in
    let b = rewound a in
    let (out, e) =
      scan_ends query b (align_up size page_size) al limit p small m' rounds
        b.next_available_address false le (omega arith) in
    (
      out.0,
      record b { next_available_address = out.1 },
      reserve_locked-scan query rounds size al a out e,
      rewound-Reserved query size al a out (
          scan-Outcome query b (align_up size page_size) al p small rounds b.next_available_address
            false out e),
    )

-- A fresh allocator with a guard of one page, whose range starts, at a page, with an unused region
-- of exactly the size of the request: `Reserve` returns the second page of the region, so that the
-- reserved range runs a page beyond the end of the region.
pub reserve_locked_overrun :
    (query : ℕ → MemoryInfo) (rounds pages first end : ℕ)
    → 1 < pages
    → (first + pages) * page_size < end
    → end ≤ 2 ^ 63
    → (query (first * page_size + page_size)).kind ≡ 0
    → (query (first * page_size + page_size)).address ≡ first * page_size
    → (query (first * page_size + page_size)).size ≡ pages * page_size
    → (r : ℕ) × (b : VirtualMemoryAllocator) × (reserve_locked
          (suc rounds)
          query
          (pages * page_size)
          page_size
          (allocator (first * page_size) end page_size)
        ≡ some (r, b))
      × (r + pages * page_size ≡ (query r).address + (query r).size + page_size)
unfolding reserve_locked scan
reserve_locked_overrun query rounds pages first end many fits small unused base large =
    let c : align_up (u64 (first * page_size + page_size)) page_size
        ≡ first * page_size + page_size =
      ap (λ t. align_up t page_size) (omega arith)
      ∙ align_up_pages (first + 1) (omega arith)
      ∙ omega arith in
    let s : align_up (pages * page_size) page_size ≡ pages * page_size =
      align_up_pages pages (omega arith) in
    (
      first * page_size + page_size,
      record (allocator (first * page_size) end page_size) {
        next_available_address = u64 (first * page_size + page_size + pages * page_size);
      },
      ground (arith, c, s),
      omega arith,
    )
