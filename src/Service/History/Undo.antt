-- ===== src/Service/History/Undo.antt =====
-- The undo loop and the sort, seen through the rows of one match key at a time.
use bindizr.Base.{
  ◌≤◌, Bool, true, false, List, [], ◌∷◌, ◌++◌, append-nil, nat_eq, ◌==◌, eq_of_beq, eq_refl, any,
  filter, filter-append, filter-cons_false, filter-cons_cong, filter-swap, length-filter_cons,
  length, ◌≡◌, ◌≢◌, refl, sym, ap, subst, ◌∙◌, Bool-cases, inl, inr, arith,
}
use bindizr.Record.Value.{IpText}
use bindizr.Service.History.{
  ReconstructedRecord, MatchKey, key_eq, key_of, has_key, pop, comes_before, insert_sorted,
  sort_records,
}

pub pop_last {ℓ} : {A : Type ℓ} → List A → List A
pop_last [] = []
pop_last (x ∷ []) = []
pop_last (x ∷ y ∷ ys) = x ∷ pop_last (y ∷ ys)

pop_last-cons {ℓ} :
    {A : Type ℓ} (x : A) (ys : List A) → ys ≢ [] → pop_last (x ∷ ys) ≡ x ∷ pop_last ys
unfolding pop_last
pop_last-cons x [] ne = absurd (ne refl)
pop_last-cons x (y ∷ ys) ne = refl

pop_last-concat {ℓ} : {A : Type ℓ} (xs : List A) (x : A) → pop_last (xs ++ x ∷ []) ≡ xs
unfolding pop_last
pop_last-concat [] x = refl
pop_last-concat (y ∷ []) x = refl
pop_last-concat (y ∷ z ∷ xs) x = ap (λ r. y ∷ r) (pop_last-concat (z ∷ xs) x)

any-filter_nil {ℓ} : {A : Type ℓ} (p : A → Bool) (xs : List A) → any p xs ≡ false → filter p xs ≡ []
any-filter_nil p [] h = refl
any-filter_nil p (x ∷ xs) h = elim (Bool-cases (p x)) [
  | inl t ↦ cc (rw (t, any) at h)
  | inr f ↦ rw (f, filter) (any-filter_nil p xs (rw (f, any) at h))
]

any-filter-ne-nil {ℓ} :
    {A : Type ℓ} (p : A → Bool) (xs : List A) → any p xs ≡ true → filter p xs ≢ []
any-filter-ne-nil p [] h = cc
any-filter-ne-nil p (x ∷ xs) h = elim (Bool-cases (p x)) [
  | inl t ↦ rw (t, filter) (λ e. cc)
  | inr f ↦ rw (f, filter) (any-filter-ne-nil p xs (rw (f, any) at h))
]

module _ (ip : IpText) where
  -- The rows with one match key.
  abbrev pub bucket : MatchKey → List ReconstructedRecord → List ReconstructedRecord
  bucket k rs = filter (has_key ip k) rs

  -- Two lists of rows that agree on every match key.
  abbrev pub SameRows : List ReconstructedRecord → List ReconstructedRecord → Type 0
  SameRows rs ss = (k : MatchKey) → bucket k rs ≡ bucket k ss

  -- No match key stands for two rows.
  abbrev pub HasDistinctKeys : List ReconstructedRecord → Type 0
  HasDistinctKeys rs = (k : MatchKey) → length (bucket k rs) ≤ 1

  pub bucket-pop :
      (k : MatchKey) (rs : List ReconstructedRecord)
      → bucket k (pop ip k rs) ≡ pop_last (bucket k rs)
  unfolding pop pop_last
  bucket-pop k [] = refl
  bucket-pop k (r ∷ rs) =
      let ih = bucket-pop k rs in
      elim (Bool-cases (any (has_key ip k) rs)) [
        | inl more ↦ elim (Bool-cases (has_key ip k r)) [
          | inl t ↦
              rw (more, t, filter)
                (ap (λ s. r ∷ s) ih
                  ∙ sym (pop_last-cons r (bucket k rs) (any-filter-ne-nil (has_key ip k) rs more)))
          | inr f ↦ rw (more, f, filter) ih
        ]
        | inr last ↦
            let none_left = any-filter_nil (has_key ip k) rs last in
            elim (Bool-cases (has_key ip k r)) [
              | inl t ↦ rw (last, t, filter) (none_left ∙ rw none_left refl)
              | inr f ↦
                  let empty : bucket k (r ∷ rs) ≡ [] =
                    filter-cons_false (has_key ip k) r rs f ∙ none_left in
                  rw (last, f) (empty ∙ sym (ap pop_last empty))
            ]
      ]

  pub bucket-pop_other :
      (k j : MatchKey) (rs : List ReconstructedRecord)
      → j ≢ k
      → bucket k (pop ip j rs) ≡ bucket k rs
  unfolding pop
  bucket-pop_other k j [] ne = refl
  bucket-pop_other k j (r ∷ rs) ne =
      let ih = bucket-pop_other k j rs ne in
      elim (Bool-cases (any (has_key ip j) rs)) [
        | inl more ↦ elim (Bool-cases (has_key ip k r)) [
          | inl t ↦ rw (more, t, filter) (ap (λ s. r ∷ s) ih)
          | inr f ↦ rw (more, f, filter) ih
        ]
        | inr last ↦ elim (Bool-cases (has_key ip j r)) [
          | inl t ↦ elim (Bool-cases (has_key ip k r)) [
            | inl u ↦ absurd (ne (sym (eq_of_beq (key_of ip r) j t) ∙ eq_of_beq (key_of ip r) k u))
            | inr f ↦ rw (last, t, f, filter) refl
          ]
          | inr f ↦ rw (last, f, filter) refl
        ]
      ]

  -- Popping the key of the last row undoes its insertion.
  pub pop-SameRows :
      (state rs : List ReconstructedRecord) (r : ReconstructedRecord)
      → SameRows state (rs ++ r ∷ [])
      → SameRows (pop ip (key_of ip r) state) rs
  pop-SameRows state rs r h k = elim (Bool-cases (has_key ip k r)) [
    | inl t ↦
        let same = eq_of_beq (key_of ip r) k t in
        rw same (
          bucket-pop k state
          ∙ ap pop_last (h k ∙ filter-append (has_key ip k) rs (r ∷ []) ∙ rw (t, filter) refl)
          ∙ pop_last-concat (bucket k rs) r)
    | inr f ↦
        bucket-pop_other k (key_of ip r) state
          (λ e. cc (subst (λ j. (j == k) ≡ false) e f, eq_refl k))
        ∙ h k
        ∙ filter-append (has_key ip k) rs (r ∷ [])
        ∙ rw (f, filter) (append-nil (bucket k rs))
  ]

  bucket-insert_sorted :
      (k : MatchKey) (r : ReconstructedRecord) (rs : List ReconstructedRecord)
      → length (bucket k (r ∷ rs)) ≤ 1
      → bucket k (insert_sorted r rs) ≡ bucket k (r ∷ rs)
  unfolding insert_sorted
  bucket-insert_sorted k r [] short = refl
  bucket-insert_sorted k r (s ∷ ss) short = elim (Bool-cases (comes_before s r)) [
    | inr after ↦ rw after refl
    | inl before ↦
        let p = has_key ip k in
        let swapped = filter-swap p r s ss short in
        let short' : length (bucket k (r ∷ ss)) ≤ 1 =
          omega (arith, short, length-filter_cons p s (r ∷ ss), ap length swapped) in
        rw before (
          filter-cons_cong p s (insert_sorted r ss) (r ∷ ss) (bucket-insert_sorted k r ss short')
          ∙ swapped)
  ]

  -- Sorting moves no row to another key.
  pub sort_records-SameRows :
      (rs : List ReconstructedRecord) → HasDistinctKeys rs → SameRows (sort_records rs) rs
  unfolding sort_records
  sort_records-SameRows [] h k = refl
  sort_records-SameRows (r ∷ rs) h k =
      let p = has_key ip k in
      let tail : HasDistinctKeys rs =
        λ j. omega (arith, h j, length-filter_cons (has_key ip j) r rs) in
      let same = filter-cons_cong p r (sort_records rs) rs (sort_records-SameRows rs tail k) in
      bucket-insert_sorted k r (sort_records rs) (omega (arith, h k, ap length same)) ∙ same
