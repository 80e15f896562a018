-- ===== src/Tests/Memory.antt =====
-- The allocators over a small map.
use hydrosphere.Common.{ℕ, ◌+◌, ◌⊎◌, ◌≤◌, ◌≡◌, ◌≢◌, refl, arith, some, if◌then◌else◌, ltb}
use hydrosphere.Svc.{MemoryInfo}
use hydrosphere.Allocator.{VirtualMemoryAllocator, allocator, align_up, reserve_locked, page_size}
use hydrosphere.Allocator.Apart.{FromStart, reserve_locked-apart}
use hydrosphere.Allocator.Scan.{IsMap, align_up_lem}
use hydrosphere.Allocator.Success.{IsRoom, reserve_locked-finds}
use hydrosphere.Allocator.Reserve.{
  Reserved, rewound, page-IsAlignment, reserve_locked-Reserved, reserve_locked_overrun,
}
use hydrosphere.Allocator.Repeat.{reserve_locked-repeats}

abbrev region : (address size kind : ℕ) → MemoryInfo
region address size kind = record {
  address = address;
  size = size;
  kind = kind;
  attribute = 0;
  permission = 0;
  device_ref_count = 0;
  ipc_ref_count = 0;
}

-- Used below 0x3000, and unused up to 0x6000.
abbrev small_map : ℕ → MemoryInfo
small_map x = if ltb x 0x3000 then region 0 0x3000 1 else region 0x3000 0x3000 0

abbrev small_allocator : VirtualMemoryAllocator
small_allocator = allocator 0x1000 0x5000 0x1000

small_map-IsMap : IsMap small_map small_allocator 0x1000 0x6000
small_map-IsMap = record {
  start_le = omega arith;
  room = omega arith;
  below = omega arith;
  covers = λ x low high. (ground arith, ground arith, ground arith);
}

reserve_locked-Reserved_example :
    (r : ℕ) × (b : VirtualMemoryAllocator) × (reserve_locked 50000 small_map 0x1000 0x1000
        small_allocator
      ≡ some (r, b))
    × Reserved small_map 0x1000 0x1000 small_allocator r b
reserve_locked-Reserved_example =
    reserve_locked-Reserved small_map 50000 0x1000 0x1000 0x6000 small_allocator page-IsAlignment
      (omega arith) small_map-IsMap (omega arith)

-- The allocator's last search ended at the end of its range.
abbrev spent_allocator : VirtualMemoryAllocator
spent_allocator = record small_allocator { next_available_address = 0x5000 }

spent-IsMap : IsMap small_map spent_allocator 0x1000 0x6000
spent-IsMap = record {
  start_le = omega arith;
  room = omega arith;
  below = omega arith;
  covers = small_map-IsMap.covers;
}

spent-IsRoom : IsRoom small_map spent_allocator (align_up 0x800 0x1000) 0x1000 0x3000 0x5000
spent-IsRoom = record {
  low = omega arith;
  high = omega arith;
  wide = omega arith;
  unused = λ x low high. (ground arith, ground (arith, align_up_lem 0x800 0x1000 page-IsAlignment));
  apart = λ x low high. ground arith;
}

reserve_locked-finds_example :
    (r : ℕ) × (b : VirtualMemoryAllocator) × (reserve_locked 50000 small_map 0x800 0x1000
        spent_allocator
      ≡ some (r, b))
    × (r ≢ 0)
reserve_locked-finds_example =
    reserve_locked-finds small_map 50000 0x800 0x1000 0x6000 0x3000 0x5000 spent_allocator
      page-IsAlignment (omega arith) spent-IsMap (omega arith) (omega arith) spent-IsRoom

reserve_locked_overrun_example :
    (r : ℕ) × (b : VirtualMemoryAllocator) × (reserve_locked 8
        (λ x. region 0x1000 0x2000 0)
        0x2000
        0x1000
        small_allocator
      ≡ some (r, b))
    × (r + 0x2000 ≡ 0x1000 + 0x2000 + 0x1000)
reserve_locked_overrun_example =
    reserve_locked_overrun (λ x. region 0x1000 0x2000 0) 7 2 1 0x5000 (omega arith) (omega arith)
      (omega arith) refl refl refl

-- Used below 0x3000, and unused up to 0x10000.
abbrev wide_map : ℕ → MemoryInfo
wide_map x = if ltb x 0x3000 then region 0 0x3000 1 else region 0x3000 0xD000 0

abbrev wide_allocator : VirtualMemoryAllocator
wide_allocator = allocator 0x1000 0xF000 0x1000

wide_map-IsMap : IsMap wide_map wide_allocator 0x1000 0x10000
wide_map-IsMap = record {
  start_le = omega arith;
  room = omega arith;
  below = omega arith;
  covers = λ x low high. (ground arith, ground arith, ground arith);
}

reserve_locked-apart_example :
    (r1 : ℕ) × (b : VirtualMemoryAllocator) × (r2 : ℕ) × (c : VirtualMemoryAllocator)
    × (reserve_locked 200000 wide_map 0x2000 0x1000 wide_allocator ≡ some (r1, b))
    × (reserve_locked 200000 wide_map 0x1800 0x1000 b ≡ some (r2, c))
    × ((r1 ≡ 0)
        ⊎ (r2 ≡ 0)
        ⊎ (r1 + align_up 0x2000 page_size + 0x1000 ≤ r2)
        ⊎ FromStart wide_map
            (rewound b)
            (align_up 0x1800 page_size)
            0x1000
            (r2, c.next_available_address))
reserve_locked-apart_example =
    reserve_locked-apart wide_map 200000 0x1000 0x10000 page-IsAlignment (omega arith) (omega arith)
      (omega arith) 0x2000 0x1800 wide_allocator wide_map-IsMap

-- Four pages, with room for one reservation of two behind the guard.
reserve_locked-repeats_example :
    (b : VirtualMemoryAllocator) × (reserve_locked 8
        (λ x. region 0x1000 0x4000 0)
        0x2000
        0x1000
        (allocator 0x1000 0x5000 0x1000)
      ≡ some (0x2000, b))
    × (reserve_locked 8 (λ x. region 0x1000 0x4000 0) 0x2000 0x1000 b ≡ some (0x2000, b))
reserve_locked-repeats_example =
    reserve_locked-repeats (λ x. region 0x1000 0x4000 0) 6 2 1 0x5000 (omega arith) (omega arith)
      (omega arith) refl (omega arith)
