-- ===== src/Text/Split.antt =====
-- `str::split` at one character, `[str]::join` and `split_whitespace`.
use bindizr.Base.{
  ℕ, List, [], ◌∷◌, ◌++◌, nat_eq, ◌==◌, if◌then◌else◌, All, All-append, ◌≡◌, ◌≢◌, refl, arith,
}
use bindizr.Text.{Str}

abbrev pub push_first : ℕ → List Str → List Str
push_first c [] = (c ∷ []) ∷ []
push_first c (p ∷ ps) = (c ∷ p) ∷ ps

-- `split(sep)`: at least one part, which may be empty.
unfoldable pub split : ℕ → Str → List Str
split sep [] = [] ∷ []
split sep (c ∷ s) = let rest = split sep s in if c == sep then [] ∷ rest else push_first c rest

-- `join(sep)`
unfoldable pub join : Str → List Str → Str
join sep [] = []
join sep (p ∷ []) = p
join sep (p ∷ q ∷ ps) = p ++ (sep ++ join sep (q ∷ ps))

module _ (sep : ℕ) where
  abbrev pub LacksChar : Str → Type 0
  LacksChar = All (λ c. c ≢ sep)

  pub split-ne-nil : (s : Str) → split sep s ≢ []
  unfolding split
  split-ne-nil [] h = cc
  split-ne-nil (c ∷ s) h = ground (arith, split-ne-nil s)

  push_first-join :
      (c : ℕ) (ps : List Str) → join (sep ∷ []) (push_first c ps) ≡ c ∷ join (sep ∷ []) ps
  unfolding join
  push_first-join c [] = refl
  push_first-join c (p ∷ []) = refl
  push_first-join c (p ∷ q ∷ ps) = refl

  join-cons :
      (p : Str) (ps : List Str)
      → ps ≢ []
      → join (sep ∷ []) (p ∷ ps) ≡ p ++ (sep ∷ join (sep ∷ []) ps)
  unfolding join
  join-cons p [] h = absurd (h refl)
  join-cons p (q ∷ ps) h = refl

  -- Joining the parts of a split gives the text back.
  pub join-split : (s : Str) → join (sep ∷ []) (split sep s) ≡ s
  unfolding split
  join-split [] = unfold join in refl
  join-split (c ∷ s) = ground (
    arith,
    join-split s,
    push_first-join c (split sep s),
    join-cons [] (split sep s) (split-ne-nil s),
  )

  split-LacksChar : (p : Str) → LacksChar p → split sep p ≡ p ∷ []
  unfolding split
  split-LacksChar [] h = refl
  split-LacksChar (c ∷ p) h = ground (arith, split-LacksChar p h.1)

  split-append : (p s : Str) → LacksChar p → split sep (p ++ (sep ∷ s)) ≡ p ∷ split sep s
  unfolding split
  split-append [] s h = ground arith
  split-append (c ∷ p) s h = ground (arith, split-append p s h.1)

  -- Splitting a join of parts that hold no separator gives the parts back.
  pub split-join :
      (ps : List Str) → ps ≢ [] → All LacksChar ps → split sep (join (sep ∷ []) ps) ≡ ps
  unfolding join
  split-join [] ne h = absurd (ne refl)
  split-join (p ∷ []) ne h = split-LacksChar p h.0
  split-join (p ∷ q ∷ ps) ne h =
      rw (split-append p (join (sep ∷ []) (q ∷ ps)) h.0, split-join (q ∷ ps) (λ e. cc) h.1)

  push_first-LacksChar :
      (c : ℕ) (ps : List Str) → c ≢ sep → All LacksChar ps → All LacksChar (push_first c ps)
  push_first-LacksChar c [] ne h = ((ne, tt), tt)
  push_first-LacksChar c (p ∷ ps) ne h = ((ne, h.0), h.1)

  -- No part of a split holds the separator.
  pub LacksChar-split : (s : Str) → All LacksChar (split sep s)
  unfolding split
  LacksChar-split [] = (tt, tt)
  LacksChar-split (c ∷ s) = ground (arith, LacksChar-split s, push_first-LacksChar c (split sep s))

module _ {ℓ} (Q : ℕ → Type ℓ) where
  pub All-join : (sep : Str) (ps : List Str) → All Q sep → All (All Q) ps → All Q (join sep ps)
  unfolding join
  All-join sep [] hs h = tt
  All-join sep (p ∷ []) hs h = h.0
  All-join sep (p ∷ q ∷ ps) hs h =
      All-append Q p (sep ++ join sep (q ∷ ps)) h.0
        (All-append Q sep (join sep (q ∷ ps)) hs (All-join sep (q ∷ ps) hs h.1))
