-- ===== src/Memory/Name.antt =====
-- Naming a thread.
use hydrosphere.Common.{
  ℕ, ◌+◌, ◌-◌, ◌<◌, ◌≤◌, ◌≡◌, ◌⊎◌, ap, some, arith, leb, ltb, ◌&&◌, ◌==◌, if◌then◌else◌,
}
use hydrosphere.Memory.{Memory, store, strlen, memcpy, thread_name_size, set_thread_name}
use hydrosphere.Memory.Laws.{IsString, strlen-IsString, memcpy_lem}

name_index : (t name j : ℕ) → name + (t + j - t) ≡ name + j
name_index t name j = omega arith

-- Below THREAD_NAME_SIZE characters, in memory apart from the thread's, the name is copied with its
-- terminator, and no byte outside of the copy changes. `Strlen` of the thread's name is then the
-- number of its characters.
pub set_thread_name-copies :
    (n t name k : ℕ) (m : Memory)
    → IsString m name k
    → k < thread_name_size
    → k < n
    → (t + thread_name_size ≤ name) ⊎ (name + k < t)
    → (m' : Memory) × (set_thread_name n t name m ≡ some m')
      × (strlen n m' t ≡ some k)
      × ((a : ℕ)
          → m' a ≡ (
              if leb t a && ltb a (t + k)
              then m (name + (a - t))
              else (if a == t + k then 0 else m a)))
unfolding set_thread_name
set_thread_name-copies n t name k m str short enough apart =
    let m' : Memory = store (memcpy t name k m) (t + k) 0 in
    let str' : IsString m' t k = record {
      chars = λ j lt z. str.chars j lt (
          ground (arith, memcpy_lem t name k m (t + j) (ground arith), ap m (name_index t name j)));
      end = ground arith;
    } in
    (
      m',
      rw (strlen-IsString n m name k str enough, set_thread_name) (ground arith),
      strlen-IsString n m' t k str' enough,
      λ a. ground (arith, memcpy_lem t name k m a (ground arith)),
    )

-- A name of THREAD_NAME_SIZE or more characters is ignored.
pub set_thread_name-ignores :
    (n t name k : ℕ) (m : Memory)
    → IsString m name k
    → thread_name_size ≤ k
    → k < n
    → set_thread_name n t name m ≡ some m
unfolding set_thread_name
set_thread_name-ignores n t name k m str long enough =
    rw (strlen-IsString n m name k str enough, set_thread_name) (ground arith)
