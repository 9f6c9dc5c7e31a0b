-- ===== src/Prelude/Results.antt =====
-- NestJS exceptions as values. A thrown exception carries its HTTP class and its message.
use Prim.Native.String.{String}
use mathlib.Core.Bool.{Bool, true, false}
use mathlib.Core.Path.{◌≡◌, refl}
use mathlib.Core.Logic.{◌⊎◌, inl, inr}
use mathlib.Core.Option.{Option, none, some}
use mathlib.Core.List.{List}

pub data Exception : Type 0 where
  bad_request not_found conflict forbidden internal : String → Exception
  -- Prisma's P2002 with the columns of the violated index.
  unique_violation : List String → Exception
  -- A record that an `update` by its key does not find (P2025), or an error of another service.
  unavailable : String → Exception
  -- The fuel of a loop that may not end ran out: no exception of the source.
  out_of_fuel : Exception

pub data Result {ℓ} (A : Type ℓ) : Type ℓ where
  ok : A → Result A
  err : Exception → Result A

-- `if (!test) throw e`
abbrev pub ensure : Bool → Exception → Result (Unit {0})
ensure true e = ok tt
ensure false e = err e

-- `if (value === null) throw e`
abbrev pub or_throw {ℓ} : {A : Type ℓ} → Option A → Exception → Result A
or_throw none e = err e
or_throw (some a) e = ok a

abbrev pub is_ok {ℓ} : {A : Type ℓ} → Result A → Bool
is_ok (ok a) = true
is_ok (err e) = false

pub Result-cases {ℓ} :
    {A : Type ℓ} (r : Result A) → ((a : A) × (r ≡ ok a)) ⊎ ((e : Exception) × (r ≡ err e))
Result-cases (ok a) = inl (a, refl)
Result-cases (err e) = inr (e, refl)
