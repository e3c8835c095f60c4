-- ===== src/Common/Results.antt =====
-- A call that may throw: an `await` of a rejected promise, or a `throw`.
use Prim.Native.String.{String}
use mathlib.Core.Path.{◌≡◌, refl}
use mathlib.Core.Logic.{◌⊎◌, inl, inr}

pub data Result {ℓ} (A : Type ℓ) : Type ℓ where
  ok : A → Result A
  throws : String → Result A

module _ {ℓ κ} {First : Type ℓ} {Next : Type κ} where
  infixl 5 ◌>>=◌
  abbrev pub ◌>>=◌ : Result First → (First → Result Next) → Result Next
  throws message >>= rest = throws message
  ok value >>= rest = rest value

-- `try { return await m; } catch { return d; }`
abbrev pub or_else {ℓ} : {A : Type ℓ} → Result A → A → A
or_else (ok a) d = a
or_else (throws e) d = d

pub Result-cases {ℓ} :
    {A : Type ℓ} (r : Result A) → ((a : A) × (r ≡ ok a)) ⊎ ((e : String) × (r ≡ throws e))
Result-cases (ok a) = inl (a, refl)
Result-cases (throws e) = inr (e, refl)

pub ok-injective {ℓ} : {A : Type ℓ} {a b : A} → ok a ≡ ok b → a ≡ b
ok-injective h = cc

-- Where a chain succeeds, so did its first call, and the rest did from what that call returned.
module _ {ℓ κ} {Next : Type κ} {First : Type ℓ} where
  pub >>=-eq-ok :
      (call : Result First) (rest : First → Result Next) {end : Next}
      → (call >>= rest) ≡ ok end
      → (value : First) × (call ≡ ok value) × (rest value ≡ ok end)
  >>=-eq-ok (throws message) rest h = cc
  >>=-eq-ok (ok value) rest h = (value, refl, h)
