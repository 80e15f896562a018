-- ===== src/Allocator/Success.antt =====
-- When `Reserve` finds an address.
use hydrosphere.Common.{
  ℕ, zero, suc, ◌+◌, ◌^◌, ◌≤◌, ◌<◌, ◌≡◌, ◌≢◌, refl, ◌⊎◌, inl, inr, Bool, true, false, not, ◌||◌,
  ◌==◌, ltb, some, arith, Bool-cases, u64,
}
use hydrosphere.Svc.{MemoryInfo}
use hydrosphere.Allocator.{
  VirtualMemoryAllocator, inside_address_range, align_up, scan, reserve_locked, page_size,
}
use hydrosphere.Allocator.Scan.{IsAlignment, align_up-bounds, IsMap, rounds_left}
use hydrosphere.Allocator.Reserve.{rewound, rewound-IsMap, reserve_locked-scan}

-- Unused memory from `lo` to `hi` in the range of the allocator, in regions of the size asked for,
-- with room for a guard and the alignement. No region before it reaches into it.
pub record IsRoom (query : ℕ → MemoryInfo) (a : VirtualMemoryAllocator) (size al lo hi : ℕ)
    : Type 0 where
  pub low : a.address_space_start ≤ lo
  pub high : hi ≤ a.address_space_end
  pub wide : lo + a.guard_page_size + al ≤ hi
  pub unused : (x : ℕ) → lo ≤ x → x < hi → ((query x).kind ≡ 0) × (size ≤ (query x).size)
  pub apart : (x : ℕ) → a.address_space_start ≤ x → x < lo → (query x).address + (query x).size ≤ lo

module _ (query : ℕ → MemoryInfo) (a : VirtualMemoryAllocator) (size al limit lo hi : ℕ)
    (p : IsAlignment al) (small : al < 2 ^ 64) (m : IsMap query a al limit)
    (guarded : 0 < a.guard_page_size) (k : IsRoom query a size al lo hi) where
  -- A search that has not passed the room, or that will start again, finds an address.
  scan_finds :
      (rounds address : ℕ) (retried : Bool)
      → address ≤ limit
      → a.address_space_start ≤ address
      → (address ≤ lo) ⊎ (retried ≡ false)
      → rounds_left limit address retried < rounds
      → (out : ℕ × ℕ) × (scan rounds query a size al address retried ≡ some out) × (out.0 ≢ 0)
  unfolding scan
  scan_finds zero address retried le from ahead enough = absurd (omega arith)
  scan_finds (suc n) address retried le from ahead enough =
      let x = u64 (address + a.guard_page_size) in
      let c = align_up x al in
      let room = m.room in
      let whole : x ≡ address + a.guard_page_size = omega (arith, p.positive) in
      let (up, close) = align_up-bounds x al p (omega arith) small in
      elim (Bool-cases (inside_address_range a.address_space_start a.address_space_end c)) [
        | inl within ↦
            let (low, high, end) = m.covers c (ground arith) (ground arith) in
            let below = m.below in
            let next : u64 ((query c).address + (query c).size)
                ≡ (query c).address + (query c).size =
              omega arith in
            elim (Bool-cases (not ((query c).kind == 0) || ltb (query c).size size)) [
              | inl taken ↦
                  rw (within, taken)
                    (scan_finds n (u64 ((query c).address + (query c).size)) retried (omega arith)
                      (ground arith) (ground (arith, k.wide, k.unused c, k.apart c)) (omega arith))
              | inr free ↦ ((c, u64 (c + size)), rw (within, free), λ z. absurd (omega arith))
            ]
        | inr beyond ↦ elim (Bool-cases retried) [
          | inl again ↦ absurd (ground (arith, k.low, k.high, k.wide))
          | inr first ↦
              rw (beyond, first)
                (scan_finds n a.address_space_start true m.start_le (omega arith) (inl k.low)
                  (ground (arith, m.start_le)))
        ]
      ]

rewound-IsRoom :
    {query : ℕ → MemoryInfo} {size al lo hi : ℕ} (a : VirtualMemoryAllocator)
    → IsRoom query a size al lo hi
    → IsRoom query (rewound a) size al lo hi
      × ((rewound a).guard_page_size ≡ a.guard_page_size)
      × (lo < hi → (rewound a).address_space_start ≤ (rewound a).next_available_address)
rewound-IsRoom a k =
    elim (Bool-cases
      (inside_address_range a.address_space_start a.address_space_end a.next_available_address)) [
        | inl within ↦ rw within (k, refl, λ lt. ground arith)
        | inr beyond ↦ rw beyond (
          record { low = k.low; high = k.high; wide = k.wide; unused = k.unused; apart = k.apart },
          refl,
          λ lt. omega arith,
        )
      ]

-- On a map of memory, with a guard and enough rounds, `Reserve` finds an address whenever the range
-- has room somewhere, wherever its last search ended: unused memory, in regions as large as the size
-- in whole pages, in which a guard and the alignement fit, and into which no region before it reaches.
pub reserve_locked-finds :
    (query : ℕ → MemoryInfo) (rounds size al limit lo hi : ℕ) (a : VirtualMemoryAllocator)
    → IsAlignment al
    → al < 2 ^ 64
    → IsMap query a al limit
    → limit + limit + 1 < rounds
    → 0 < a.guard_page_size
    → IsRoom query a (align_up size page_size) al lo hi
    → (r : ℕ) × (b : VirtualMemoryAllocator) × (reserve_locked rounds query size al a ≡ some (r, b))
      × (r ≢ 0)
reserve_locked-finds query rounds size al limit lo hi a p small m enough guarded k =
    let (m', le) = rewound-IsMap a m in
    let (k', same, from) = rewound-IsRoom a k in
    let b = rewound a in
    let wide = k.wide in
    let (out, e, found) =
      scan_finds query b (align_up size page_size) al limit lo hi p small m' (omega arith) k' rounds
        b.next_available_address false le (from (omega arith)) (inr refl) (omega arith) in
    (
      out.0,
      record b { next_available_address = out.1 },
      reserve_locked-scan query rounds size al a out e,
      found,
    )
