-- ===== src/Base/Results.antt =====
-- Rust's `Result` and the `?` operator, as a monad.
use Prim.Native.Nat.{suc}
use mathlib.Core.Path.{◌≡◌, refl, sym, ap, ◌∙◌}
use mathlib.Core.Logic.{◌⊎◌, inl, inr}
use mathlib.Core.Bool.{Bool, true, false}
use mathlib.Core.Option.{Option, none, some}
use mathlib.Core.List.{List, [], ◌∷◌}
use bindizr.Base.Lists.{length}

pub data Result {ℓ κ} (E : Type κ) (A : Type ℓ) : Type (ℓ ⊔ κ) where
  ok : A → Result E A
  err : E → Result E A

infixl 5 ◌>>=◌ ◌>>◌
abbrev pub ◌>>=◌ {ℓ κ μ} :
    {E : Type μ} {A : Type ℓ} {B : Type κ} → Result E A → (A → Result E B) → Result E B
ok a >>= f = f a
err e >>= f = err e

abbrev pub ◌>>◌ {κ μ} : {E : Type μ} {B : Type κ} → Result E (Unit {0}) → Result E B → Result E B
m >> k = m >>= λ _. k

module _ {ℓ κ} {E : Type κ} {A : Type ℓ} where
  pub Result-cases : (r : Result E A) → ((a : A) × (r ≡ ok a)) ⊎ ((e : E) × (r ≡ err e))
  Result-cases (ok a) = inl (a, refl)
  Result-cases (err e) = inr (e, refl)

  -- `Option::ok_or`
  abbrev pub ok_or : E → Option A → Result E A
  ok_or e none = err e
  ok_or e (some a) = ok a

module _ {κ} {E : Type κ} where
  -- `if test { return Err(e) }`
  abbrev pub fail_if : Bool → E → Result E (Unit {0})
  fail_if true e = err e
  fail_if false e = ok tt

module _ {ℓ κ μ} {E : Type μ} {A : Type ℓ} {B : Type κ} where
  -- Inversion of a successful bind.
  pub bind-eq-ok :
      (m : Result E A) (f : A → Result E B) {b : B}
      → (m >>= f) ≡ ok b
      → (a : A) × (m ≡ ok a) × (f a ≡ ok b)
  bind-eq-ok (ok a) f h = (a, refl, h)
  bind-eq-ok (err e) f h = cc

module _ {ℓ κ μ} {E : Type μ} {A : Type ℓ} {B : Type κ} where
  -- `iter().map(f).collect::<Result<_, _>>()`
  abbrev pub map_result : (A → Result E B) → List A → Result E (List B)
  map_result f [] = ok []
  map_result f (x ∷ xs) = do y ← f x; ys ← map_result f xs; ok (y ∷ ys)

module _ {ℓ κ} {E : Type κ} {A : Type ℓ} where
  pub ok-injective : {a b : A} → ◌≡◌ {A = Result E A} (ok a) (ok b) → a ≡ b
  ok-injective e = cc

module _ {ℓ κ} {E : Type κ} {A : Type ℓ} where
  -- Inversion of a guard that was passed.
  pub fail_if-eq-ok :
      (b : Bool) (e : E) (m : Result E A) {a : A}
      → (fail_if b e >>= λ _. m) ≡ ok a
      → (b ≡ false) × (m ≡ ok a)
  fail_if-eq-ok true e m h = cc
  fail_if-eq-ok false e m h = (refl, h)

module _ {κ} {E : Type κ} where
  pub fail_if-false : (b : Bool) (e : E) → fail_if b e ≡ ok tt → b ≡ false
  fail_if-false true e h = cc
  fail_if-false false e h = refl

module _ {ℓ κ μ} {E : Type μ} {A : Type ℓ} {B : Type κ} where
  pub length-map_result :
      (f : A → Result E B) (xs : List A) (ys : List B)
      → map_result f xs ≡ ok ys
      → length ys ≡ length xs
  length-map_result f [] ys h = sym (ap length (ok-injective h))
  length-map_result f (x ∷ xs) ys h =
      let (y, _, h1) = bind-eq-ok (f x) _ h in
      let (zs, rest, last) = bind-eq-ok (map_result f xs) _ h1 in
      sym (ap length (ok-injective last)) ∙ ap suc (length-map_result f xs zs rest)
