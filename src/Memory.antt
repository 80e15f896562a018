-- ===== src/Memory.antt =====
-- Byte strings in memory: libhydrosphere/source/common/util/util_string_api.cpp, compiler/memcpy.cpp
-- and `SetThreadName` of os/os_thread_api.cpp. A memory gives the byte at each address; addresses do
-- not wrap.
pub mod Laws
pub mod Name
use hydrosphere.Common.{ℕ, zero, suc, ◌+◌, ◌%◌, Option, none, some, ◌==◌, leb, if◌then◌else◌}

abbrev pub Memory : Type 0
Memory = ℕ → ℕ

abbrev pub store : Memory → ℕ → ℕ → Memory
store m a b c = if c == a then b else m c

-- The loop of `Strlen`; `none` when the rounds are spent before the terminator.
unfoldable pub strlen_from : ℕ → Memory → (s res : ℕ) → Option ℕ
strlen_from zero m s res = none
strlen_from (suc n) m s res =
    let rest = strlen_from n m (s + 1) (res + 1) in if m s == 0 then some res else rest

unfoldable pub strlen : ℕ → Memory → (s : ℕ) → Option ℕ
unfolding strlen_from
strlen n m s = strlen_from n m s 0

-- The loop runs `len` times, from the front.
unfoldable pub memcpy : (dst src len : ℕ) → Memory → Memory
memcpy dst src zero m = m
memcpy dst src (suc len) m = memcpy (dst + 1) (src + 1) len (store m dst (m src))

unfoldable pub memset : (s c n : ℕ) → Memory → Memory
memset s c zero m = m
memset s c (suc n) m = memset (s + 1) c n (store m s (c % 256))

-- THREAD_NAME_SIZE
abbrev pub thread_name_size : ℕ
thread_name_size = 0x20

-- `SetThreadName` on the name at `thread_name`; `none` as for `strlen`.
unfoldable pub set_thread_name : ℕ → (thread_name name : ℕ) → Memory → Option Memory
set_thread_name n thread_name name m = elim (strlen n m name) [
  | none ↦ none
  | some name_length ↦
      if leb thread_name_size name_length
      then some m
      else some (store (memcpy thread_name name name_length m) (thread_name + name_length) 0)
]
