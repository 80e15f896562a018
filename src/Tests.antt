-- ===== src/Tests.antt =====
-- The theorems on concrete inputs.
mod Lists
mod Locks
mod Sync
mod Events
mod Memory
mod Refusals
mod Creations
mod Lives
mod Accesses
mod Aborts
mod Lifetimes
mod Barriers
mod Mutexes
mod Starts
mod Stubs
mod Stubs32
