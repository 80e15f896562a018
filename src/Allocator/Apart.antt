-- ===== src/Allocator/Apart.antt =====
-- Two reservations in a row.
use mathlib.Core.Option.{some-injective}
use hydrosphere.Common.{
  ℕ, zero, suc, ◌+◌, ◌^◌, ◌≤◌, ◌<◌, ◌≡◌, refl, sym, ap, ◌⊎◌, inl, inr, Bool, true, false, not, ◌||◌,
  ◌==◌, ltb, some, arith, Bool-cases, u64,
}
use hydrosphere.Svc.{MemoryInfo}
use hydrosphere.Allocator.{
  VirtualMemoryAllocator, inside_address_range, align_up, scan, reserve_locked, page_size,
}
use hydrosphere.Allocator.Scan.{IsAlignment, align_up-bounds, IsMap, scan_ends}
use hydrosphere.Allocator.Reserve.{
  rewound, rewound-IsMap, reserve_locked-scan, reserve_locked-Reserved,
}

-- The outcome of a search that began at the start of the range.
abbrev pub FromStart :
    (query : ℕ → MemoryInfo) → VirtualMemoryAllocator → (size al : ℕ) → ℕ × ℕ → Type 0
FromStart query a size al out =
    (n : ℕ) × (retried : Bool) × (scan n query a size al a.address_space_start retried ≡ some out)

module _ (query : ℕ → MemoryInfo) (a : VirtualMemoryAllocator) (size al limit : ℕ)
    (p : IsAlignment al) (small : al < 2 ^ 64) (m : IsMap query a al limit) where
  -- A search finds nothing, or an address behind a guard, or it starts over.
  scan_ahead :
      (rounds address : ℕ) (retried : Bool) (out : ℕ × ℕ)
      → address ≤ limit
      → scan rounds query a size al address retried ≡ some out
      → (out.0 ≡ 0) ⊎ (address + a.guard_page_size ≤ out.0) ⊎ FromStart query a size al out
  unfolding scan
  scan_ahead zero address retried out le e = cc
  scan_ahead (suc n) address retried out le e =
      let x = u64 (address + a.guard_page_size) in
      let c = align_up x al in
      let room = m.room in
      let whole : x ≡ address + a.guard_page_size = omega (arith, p.positive) in
      let (up, close) = align_up-bounds x al p (omega arith) small in
      elim (Bool-cases (inside_address_range a.address_space_start a.address_space_end c)) [
        | inl within ↦
            let (low, high, end) = m.covers c (ground arith) (ground arith) in
            let below = m.below in
            let next : u64 ((query c).address + (query c).size)
                ≡ (query c).address + (query c).size =
              omega arith in
            elim (Bool-cases (not ((query c).kind == 0) || ltb (query c).size size)) [
              | inl taken ↦
                  elim (scan_ahead n (u64 ((query c).address + (query c).size)) retried out
                    (omega arith) (rw (within, taken) at e)) [
                      | inl nothing ↦ inl nothing
                      | inr (inl ahead) ↦ inr (inl (omega arith))
                      | inr (inr over) ↦ inr (inr over)
                    ]
              | inr free ↦
                  let found : c ≡ out.0 =
                    ap (λ o. o.0) (some-injective _ _ (rw (within, free) at e)) in
                  inr (inl (omega arith))
            ]
        | inr beyond ↦ elim (Bool-cases retried) [
          | inl again ↦ inl (sym (ap (λ o. o.0) (some-injective _ _ (rw (beyond, again) at e))))
          | inr first ↦ inr (inr (n, true, rw (beyond, first) at e))
        ]
      ]

module _ (query : ℕ → MemoryInfo) (rounds al limit : ℕ) (p : IsAlignment al) (small : al < 2 ^ 64)
    (low : limit + limit < 2 ^ 64) (enough : limit + limit + 1 < rounds) where
  search_ahead :
      (s : ℕ) (a : VirtualMemoryAllocator) (out : ℕ × ℕ)
      → IsMap query a al limit
      → scan rounds query (rewound a) s al (rewound a).next_available_address false ≡ some out
      → (out.0 ≡ 0)
        ⊎ (a.next_available_address + a.guard_page_size ≤ out.0)
        ⊎ FromStart query (rewound a) s al out
  search_ahead s a out m e =
      let (m', le) = rewound-IsMap a m in
      elim (Bool-cases
        (inside_address_range a.address_space_start a.address_space_end a.next_available_address)) [
          | inl within ↦
              let same : rewound a ≡ a = rw within refl in
              elim (scan_ahead query (rewound a) s al limit p small m' rounds _ false out le e) [
                | inl nothing ↦ inl nothing
                | inr (inl ahead) ↦ inr (inl (rw same at ahead))
                | inr (inr over) ↦ inr (inr over)
              ]
          | inr beyond ↦
              let again : (rewound a).next_available_address ≡ (rewound a).address_space_start =
                rw beyond refl in
              inr (inr (rounds, false, rw again at e))
        ]

  -- On a map of memory below 2 ^ 63, and with enough rounds, two reservations in a row both end. If both
  -- find an address, the second one is at least a guard behind the end of the first, whose size is in
  -- whole pages, unless the second search begins again at the start of the range.
  pub reserve_locked-apart :
      (size1 size2 : ℕ) (a : VirtualMemoryAllocator)
      → IsMap query a al limit
      → (r1 : ℕ) × (b : VirtualMemoryAllocator) × (r2 : ℕ) × (c : VirtualMemoryAllocator)
        × (reserve_locked rounds query size1 al a ≡ some (r1, b))
        × (reserve_locked rounds query size2 al b ≡ some (r2, c))
        × ((r1 ≡ 0)
            ⊎ (r2 ≡ 0)
            ⊎ (r1 + align_up size1 page_size + a.guard_page_size ≤ r2)
            ⊎ FromStart query
                (rewound b)
                (align_up size2 page_size)
                al
                (r2, c.next_available_address))
  reserve_locked-apart size1 size2 a m =
      let (r1, b, e1, k) = reserve_locked-Reserved query rounds size1 al limit a p small m enough in
      let mb : IsMap query b al limit = record {
        start_le = rw k.same_start m.start_le;
        room = rw k.same_guard m.room;
        below = m.below;
        covers = rw (k.same_start, k.same_end) m.covers;
      } in
      let s = align_up size2 page_size in
      let (m', le) = rewound-IsMap b mb in
      let (out, e) =
        scan_ends query (rewound b) s al limit p small m' rounds (rewound b).next_available_address
          false le (omega arith) in
      (
        r1,
        b,
        out.0,
        record (rewound b) { next_available_address = out.1 },
        e1,
        reserve_locked-scan query rounds size2 al b out e,
        elim k.outcome [
          | inl nothing ↦ inl nothing
          | inr f ↦ elim (search_ahead s b out mb e) [
            | inl nothing ↦ inr (inl nothing)
            | inr (inl ahead) ↦
                let (from, to) = f.inside in
                let (start, over, end) = m.covers r1 from to in
                let large = f.large in inr (inr (inl (omega (arith, f.onward, k.same_guard))))
            | inr (inr over) ↦ inr (inr (inr over))
          ]
        ],
      )
