-- ===== src/Allocator/Scan.antt =====
-- The search of `Reserve`: rounding to an alignment, what a search returns, and that it ends.
use hydrosphere.Common.{
  ℕ, zero, suc, ◌+◌, ◌-◌, ◌*◌, ◌^◌, ◌≤◌, ◌<◌, ◌/◌, ◌≡◌, refl, ◌⊎◌, inl, inr, Bool, true, false,
  Option, none, some, arith, ◌==◌, ltb, if◌then◌else◌, Bool-cases, u64, not, ◌||◌,
}
use hydrosphere.Common.Masks.{bit_and_clear}
use mathlib.Core.Path.{subst}
use native.Mathlib.Nat.{lt-div-mul-add, div-mul-le_self}
use hydrosphere.Svc.{MemoryInfo}
use hydrosphere.Allocator.{VirtualMemoryAllocator, inside_address_range, align_up, scan}

-- A power of two that a 64-bit word can be aligned to.
pub record IsAlignment (al : ℕ) : Type 0 where
  pub low : ℕ
  pub high : ℕ
  pub power : al ≡ 2 ^ low
  pub word : 2 ^ high * 2 ^ low ≡ 2 ^ 64
  pub positive : 0 < al

pub align_up_lem :
    (a al : ℕ) → IsAlignment al → al < 2 ^ 64 → align_up a al ≡ u64 (a + (al - 1)) / al * al
unfolding align_up
align_up_lem a al p small =
    let low : u64 (al + 2 ^ 64 - 1) ≡ al - 1 = omega (arith, p.positive) in
    rw low (bit_and_clear _ (2 ^ 64) al p.high p.low p.power p.word (omega arith))

-- The result is a multiple of the alignment; where no word overflows, the least one from `a` on.
pub align_up-bounds :
    (a al : ℕ)
    → IsAlignment al
    → a + al ≤ 2 ^ 64
    → al < 2 ^ 64
    → (a ≤ align_up a al) × (align_up a al < a + al)
align_up-bounds a al p room small =
    let whole : u64 (a + (al - 1)) ≡ a + (al - 1) = omega (arith, p.positive) in
    let top = lt-div-mul-add {a = a + (al - 1)} {b = al} p.positive in
    let bottom = div-mul-le_self (a + (al - 1)) al in
    rw (align_up_lem a al p small, whole) (omega (arith, p.positive), omega (arith, p.positive))

-- What a search that finds an address `r` has seen of it, and the next address that it leaves.
pub record Fits (query : ℕ → MemoryInfo) (a : VirtualMemoryAllocator) (size al r next : ℕ)
    : Type 0 where
  pub inside : (a.address_space_start ≤ r) × (r < a.address_space_end)
  pub aligned : (q : ℕ) × (r ≡ q * al)
  pub unused : (query r).kind ≡ 0
  pub large : size ≤ (query r).size
  pub onward : next ≡ u64 (r + size)

abbrev pub Outcome :
    (query : ℕ → MemoryInfo) → VirtualMemoryAllocator → (size al : ℕ) → ℕ × ℕ → Type 0
Outcome query a size al (r, next) =
    (r ≡ 0) × (next ≡ a.next_available_address) ⊎ Fits query a size al r next

abbrev IfSome {ℓ κ} : {A : Type ℓ} → (A → Type κ) → Option A → Type κ
IfSome P none = Unit
IfSome P (some x) = P x

-- The two tests of a round.
accepted-Fits :
    (query : ℕ → MemoryInfo) (a : VirtualMemoryAllocator) (size al x : ℕ)
    → IsAlignment al
    → al < 2 ^ 64
    → inside_address_range a.address_space_start a.address_space_end (align_up x al) ≡ true
    → (not ((query (align_up x al)).kind == 0) || ltb (query (align_up x al)).size size) ≡ false
    → Fits query a size al (align_up x al) (u64 (align_up x al + size))
accepted-Fits query a size al x p small within free = record {
  inside = ground arith;
  aligned = (u64 (x + (al - 1)) / al, align_up_lem x al p small);
  unused = ground arith;
  large = ground arith;
  onward = refl;
}

module _ (query : ℕ → MemoryInfo) (a : VirtualMemoryAllocator) (size al : ℕ) (p : IsAlignment al)
    (small : al < 2 ^ 64) where
  scan-IfSome :
      (rounds address : ℕ) (retried : Bool)
      → IfSome (Outcome query a size al) (scan rounds query a size al address retried)
  unfolding scan
  scan-IfSome zero address retried = tt
  scan-IfSome (suc n) address retried =
      let x = u64 (address + a.guard_page_size) in
      let c = align_up x al in
      elim (Bool-cases (inside_address_range a.address_space_start a.address_space_end c)) [
        | inl within ↦ elim (Bool-cases (not ((query c).kind == 0) || ltb (query c).size size)) [
          | inl taken ↦
              rw (within, taken) (scan-IfSome n (u64 ((query c).address + (query c).size)) retried)
          | inr free ↦ rw (within, free) (inr (accepted-Fits query a size al x p small within free))
        ]
        | inr beyond ↦ elim (Bool-cases retried) [
          | inl again ↦ rw (beyond, again) (inl (refl, refl))
          | inr first ↦ rw (beyond, first) (scan-IfSome n a.address_space_start true)
        ]
      ]

  -- Whatever a search returns is 0 with nothing changed, or an address that fits.
  pub scan-Outcome :
      (rounds address : ℕ) (retried : Bool) (out : ℕ × ℕ)
      → scan rounds query a size al address retried ≡ some out
      → Outcome query a size al out
  scan-Outcome rounds address retried out e =
      subst (IfSome (Outcome query a size al)) e (scan-IfSome rounds address retried)

-- The kernel's map of memory: every address of the allocator's range lies in the region that
-- `QueryMemory` reports for it, the regions end by `limit`, and no word overflows up to there.
pub record IsMap (query : ℕ → MemoryInfo) (a : VirtualMemoryAllocator) (al limit : ℕ) : Type 0 where
  pub start_le : a.address_space_start ≤ limit
  pub room : limit + a.guard_page_size + al ≤ 2 ^ 64
  pub below : limit < 2 ^ 64
  pub covers :
      (x : ℕ)
      → a.address_space_start ≤ x
      → x < a.address_space_end
      → ((query x).address ≤ x)
        × (x < (query x).address + (query x).size)
        × ((query x).address + (query x).size ≤ limit)

-- The rounds that are left at most: what is left of this pass, and another pass if this is the first.
abbrev pub rounds_left : (limit address : ℕ) → Bool → ℕ
rounds_left limit address retried = limit - address + (if retried then 0 else limit + 1)

module _ (query : ℕ → MemoryInfo) (a : VirtualMemoryAllocator) (size al limit : ℕ)
    (p : IsAlignment al) (small : al < 2 ^ 64) (m : IsMap query a al limit) where
  -- On such a map a search ends within the rounds that are left.
  pub scan_ends :
      (rounds address : ℕ) (retried : Bool)
      → address ≤ limit
      → rounds_left limit address retried < rounds
      → (out : ℕ × ℕ) × (scan rounds query a size al address retried ≡ some out)
  unfolding scan
  scan_ends zero address retried le enough = absurd (omega arith)
  scan_ends (suc n) address retried le enough =
      let x = u64 (address + a.guard_page_size) in
      let c = align_up x al in
      let room = m.room in
      let whole : x ≡ address + a.guard_page_size = omega (arith, p.positive) in
      let (up, close) = align_up-bounds x al p (omega arith) small in
      elim (Bool-cases (inside_address_range a.address_space_start a.address_space_end c)) [
        | inl within ↦
            let (low, high, end) = m.covers c (ground arith) (ground arith) in
            let below = m.below in
            let next : u64 ((query c).address + (query c).size)
                ≡ (query c).address + (query c).size =
              omega arith in
            elim (Bool-cases (not ((query c).kind == 0) || ltb (query c).size size)) [
              | inl taken ↦
                  rw (within, taken)
                    (scan_ends n (u64 ((query c).address + (query c).size)) retried (omega arith)
                      (omega arith))
              | inr free ↦ ((c, u64 (c + size)), rw (within, free))
            ]
        | inr beyond ↦ elim (Bool-cases retried) [
          | inl again ↦ ((0, a.next_available_address), rw (beyond, again))
          | inr first ↦
              rw (beyond, first)
                (scan_ends n a.address_space_start true m.start_le (ground (arith, m.start_le)))
        ]
      ]
