-- ===== src/Optional.antt =====
-- The optional value of libhydrosphere/include/hs/util/util_optional.hpp: a flag beside storage that
-- always holds something.
pub mod Storage
use hydrosphere.Common.{Bool, true, false}

pub record Optional {ℓ} (A : Type ℓ) : Type ℓ where
  pub has_value : Bool
  pub value : A

-- `Optional<T>()`: value-initialised, with the zero of `T` in the storage.
abbrev pub no_value {ℓ} : {A : Type ℓ} → A → Optional A
no_value z = record { has_value = false; value = z }

module _ {ℓ} {A : Type ℓ} where
  abbrev pub set_value : A → Optional A → Optional A
  set_value v o = record o { value = v; has_value = true }

  -- The value in the storage, whether it is valid or not.
  abbrev pub get_value : Optional A → A
  get_value o = o.value
