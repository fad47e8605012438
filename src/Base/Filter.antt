-- ===== src/Base/Filter.antt =====
-- Filters of lists, and the lexicographic order.
use Prim.Native.Nat.{◌≤◌}
use mathlib.Core.Path.{◌≡◌, refl, sym, ap, ◌∙◌}
use mathlib.Core.Logic.{inl, inr}
use mathlib.Core.Bool.{Bool, true, false, not, ◌&&◌, ◌||◌}
use mathlib.Core.List.{List, [], ◌∷◌, ◌++◌, map, append-nil}
use native.Mathlib.Omega.{arith}
use bindizr.Base.Tests.{Bool-cases}
use bindizr.Base.Lists.{length, any, filter, All, All-imp}

module _ {ℓ} {A : Type ℓ} where
  pub filter-append :
      (p : A → Bool) (xs ys : List A) → filter p (xs ++ ys) ≡ filter p xs ++ filter p ys
  filter-append p [] ys = refl
  filter-append p (x ∷ xs) ys = elim (Bool-cases (p x)) [
    | inl t ↦ rw (t, filter) (ap (λ r. x ∷ r) (filter-append p xs ys))
    | inr f ↦ rw (f, filter) (filter-append p xs ys)
  ]

  pub filter-filter :
      (p q : A → Bool) (xs : List A) → filter p (filter q xs) ≡ filter q (filter p xs)
  filter-filter p q [] = refl
  filter-filter p q (x ∷ xs) =
      let ih = filter-filter p q xs in
      elim (Bool-cases (p x)) [
        | inl t ↦ elim (Bool-cases (q x)) [
          | inl u ↦ rw (t, u, filter) (rw t (ap (λ r. x ∷ r) ih))
          | inr v ↦ rw (t, v, filter) ih
        ]
        | inr f ↦ elim (Bool-cases (q x)) [
          | inl u ↦ rw (f, u, filter) (rw f ih)
          | inr v ↦ rw (f, v, filter) ih
        ]
      ]

module _ {ℓ} {A : Type ℓ} (smaller : A → A → Bool) where
  -- The derived `Ord` of vectors: lexicographic, a prefix first.
  abbrev pub list_ltb : List A → List A → Bool
  list_ltb [] [] = false
  list_ltb [] (y ∷ ys) = true
  list_ltb (x ∷ xs) [] = false
  list_ltb (x ∷ xs) (y ∷ ys) = smaller x y || not (smaller y x) && list_ltb xs ys

module _ {ℓ} {A : Type ℓ} (p : A → Bool) where
  pub filter-cons_true : (x : A) (xs : List A) → p x ≡ true → filter p (x ∷ xs) ≡ x ∷ filter p xs
  filter-cons_true x xs t = rw (t, filter) refl

  pub filter-cons_false : (x : A) (xs : List A) → p x ≡ false → filter p (x ∷ xs) ≡ filter p xs
  filter-cons_false x xs f = rw (f, filter) refl

  pub filter-cons_cong :
      (x : A) (xs ys : List A) → filter p xs ≡ filter p ys → filter p (x ∷ xs) ≡ filter p (x ∷ ys)
  filter-cons_cong x xs ys e = elim (Bool-cases (p x)) [
    | inl t ↦ filter-cons_true x xs t ∙ ap (λ l. x ∷ l) e ∙ sym (filter-cons_true x ys t)
    | inr f ↦ filter-cons_false x xs f ∙ e ∙ sym (filter-cons_false x ys f)
  ]

  pub length-filter_cons : (x : A) (xs : List A) → length (filter p xs) ≤ length (filter p (x ∷ xs))
  length-filter_cons x xs = elim (Bool-cases (p x)) [
    | inl t ↦ omega (arith, ap length (filter-cons_true x xs t))
    | inr f ↦ omega (arith, ap length (filter-cons_false x xs f))
  ]

  -- Where at most one of a list passes, two neighbours may change places.
  pub filter-swap :
      (x y : A) (xs : List A)
      → length (filter p (x ∷ y ∷ xs)) ≤ 1
      → filter p (y ∷ x ∷ xs) ≡ filter p (x ∷ y ∷ xs)
  filter-swap x y xs short = elim (Bool-cases (p x)) [
    | inl t ↦ elim (Bool-cases (p y)) [
      | inl u ↦ absurd (
          omega (
            arith,
            short,
            ap length (filter-cons_true x (y ∷ xs) t),
            ap length (filter-cons_true y xs u),
          ))
      | inr v ↦
          filter-cons_false y (x ∷ xs) v
          ∙ filter-cons_true x xs t
          ∙ sym (filter-cons_true x (y ∷ xs) t ∙ ap (λ l. x ∷ l) (filter-cons_false y xs v))
    ]
    | inr f ↦
        filter-cons_cong y (x ∷ xs) xs (filter-cons_false x xs f)
        ∙ sym (filter-cons_false x (y ∷ xs) f)
  ]

module _ {ℓ} {A : Type ℓ} where
  -- Each element of a list is one that a search of the list finds.
  pub any_self : (xs : List A) → All (λ x. (p : A → Bool) → p x ≡ true → any p xs ≡ true) xs
  any_self [] = tt
  any_self (x ∷ xs) = (
    λ p t. rw (t, any) refl,
    All-imp (λ y. (p : A → Bool) → p y ≡ true → any p xs ≡ true)
        (λ y. (p : A → Bool) → p y ≡ true → any p (x ∷ xs) ≡ true)
        (λ y h p t. let later = h p t in ground arith) xs (any_self xs),
  )

  pub filter-ext :
      (p q : A → Bool) (xs : List A) → All (λ x. p x ≡ q x) xs → filter p xs ≡ filter q xs
  filter-ext p q [] h = refl
  filter-ext p q (x ∷ xs) h = elim (Bool-cases (q x)) [
    | inl t ↦
        filter-cons_true p x xs (h.0 ∙ t)
        ∙ ap (λ l. x ∷ l) (filter-ext p q xs h.1)
        ∙ sym (filter-cons_true q x xs t)
    | inr f ↦
        filter-cons_false p x xs (h.0 ∙ f)
        ∙ filter-ext p q xs h.1
        ∙ sym (filter-cons_false q x xs f)
  ]

  -- A list from its end.
  abbrev pub backwards : List A → List A
  backwards [] = []
  backwards (x ∷ xs) = backwards xs ++ x ∷ []

  pub filter-backwards :
      (p : A → Bool) (xs : List A) → filter p (backwards xs) ≡ backwards (filter p xs)
  filter-backwards p [] = refl
  filter-backwards p (x ∷ xs) =
      filter-append p (backwards xs) (x ∷ [])
      ∙ ap (λ l. l ++ filter p (x ∷ [])) (filter-backwards p xs)
      ∙ elim (Bool-cases (p x)) [
        | inl t ↦
            ap (λ l. backwards (filter p xs) ++ l) (filter-cons_true p x [] t)
            ∙ sym (ap backwards (filter-cons_true p x xs t))
        | inr f ↦
            ap (λ l. backwards (filter p xs) ++ l) (filter-cons_false p x [] f)
            ∙ append-nil (backwards (filter p xs))
            ∙ sym (ap backwards (filter-cons_false p x xs f))
      ]

module _ {ℓ κ} {A : Type ℓ} {B : Type κ} (f : A → B) where
  pub filter-map_nil :
      (p : B → Bool) (q : A → Bool) (xs : List A)
      → filter p (map f xs) ≡ []
      → filter p (map f (filter q xs)) ≡ []
  filter-map_nil p q [] h = refl
  filter-map_nil p q (x ∷ xs) h = elim (Bool-cases (p (f x))) [
    | inl t ↦ cc (filter-cons_true p (f x) (map f xs) t, h)
    | inr v ↦
        let ih = filter-map_nil p q xs (sym (filter-cons_false p (f x) (map f xs) v) ∙ h) in
        elim (Bool-cases (q x)) [
          | inl t ↦
              ap (λ l. filter p (map f l)) (filter-cons_true q x xs t)
              ∙ filter-cons_false p (f x) (map f (filter q xs)) v
              ∙ ih
          | inr w ↦ ap (λ l. filter p (map f l)) (filter-cons_false q x xs w) ∙ ih
        ]
  ]
