-- ===== src/Prelude/Result.antt =====
-- A Go pair `(value, error)`: the error, or the value.
use mathlib.Core.Path.{◌≡◌, refl}
use mathlib.Core.Logic.{◌⊎◌, inl, inr}
use native.Mathlib.Omega.{arith}

pub data Result {ℓ} (E : Type 0) (A : Type ℓ) : Type ℓ where
  ok : A → Result E A
  err : E → Result E A

-- To split on a computed result and keep the equation.
pub Result-cases {ℓ} :
    {E : Type 0} {A : Type ℓ} (r : Result E A) → ((e : E) × (r ≡ err e)) ⊎ ((a : A) × (r ≡ ok a))
Result-cases (ok a) = inr (a, refl)
Result-cases (err e) = inl (e, refl)

-- `if err != nil { return ..., err }`, with the state `W` that the call left
abbrev pub and_then {ℓ} :
    {E A W : Type 0} {B : Type ℓ} → Result E A × W → (A → W → Result E B × W) → Result E B × W
and_then (err e, w) next = (err e, w)
and_then (ok a, w) next = next a w

-- the error of a call, told in other words
abbrev pub on_error {ℓ} : {E F W : Type 0} {A : Type ℓ} → (E → F) → Result E A × W → Result F A × W
on_error f (err e, w) = (err (f e), w)
on_error f (ok a, w) = (ok a, w)

-- What a sequence of two calls that succeeds consists of.
pub and_then_ok {ℓ} :
    {E A W : Type 0} {B : Type ℓ} (r : Result E A × W) (next : A → W → Result E B × W) (b : B)
    (w' : W)
    → and_then r next ≡ (ok b, w')
    → (a : A) × (r ≡ (ok a, r.1)) × (next a r.1 ≡ (ok b, w'))
and_then_ok (err e, w) next b w' h = absurd (ground arith)
and_then_ok (ok a, w) next b w' h = (a, refl, h)
