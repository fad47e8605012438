-- ===== src/Text/Trim.antt =====
-- `str::trim`, `trim_end_matches`, `strip_prefix` and `strip_suffix`.
use bindizr.Base.{
  ℕ, ◌≤◌, Bool, false, [], ◌∷◌, ◌++◌, Option, none, some, nat_eq, ◌==◌, if◌then◌else◌, All,
  append-ne-nil, ◌≡◌, ◌≢◌, refl, arith,
}
use bindizr.Text.{Str, is_whitespace, byte_len}

module _ (p : ℕ → Bool) where
  unfoldable pub trim_start_by : Str → Str
  trim_start_by [] = []
  trim_start_by (c ∷ s) = if p c then trim_start_by s else c ∷ s

  -- `c` in front of a text that has been trimmed at its end
  abbrev keep : ℕ → Str → Str
  keep c [] = if p c then [] else c ∷ []
  keep c (d ∷ s) = c ∷ d ∷ s

  unfoldable pub trim_end_by : Str → Str
  trim_end_by [] = []
  trim_end_by (c ∷ s) = keep c (trim_end_by s)

  abbrev pub Lacks : Str → Type 0
  Lacks = All (λ c. p c ≡ false)

  pub trim_start_by-Lacks : (s : Str) → Lacks s → trim_start_by s ≡ s
  unfolding trim_start_by
  trim_start_by-Lacks [] h = refl
  trim_start_by-Lacks (c ∷ s) h = ground arith

  pub trim_end_by-Lacks : (s : Str) → Lacks s → trim_end_by s ≡ s
  unfolding trim_end_by
  trim_end_by-Lacks [] h = refl
  trim_end_by-Lacks (c ∷ []) h = ground arith
  trim_end_by-Lacks (c ∷ d ∷ s) h = ground (arith, trim_end_by-Lacks (d ∷ s) h.1)

  -- The last character decides: a text that ends in a character to keep is not shortened.
  pub trim_end_by-concat : (s : Str) (c : ℕ) → p c ≡ false → trim_end_by (s ++ c ∷ []) ≡ s ++ c ∷ []
  unfolding trim_end_by
  trim_end_by-concat [] c h = ground arith
  trim_end_by-concat (d ∷ []) c h = ground arith
  trim_end_by-concat (d ∷ e ∷ s) c h = ground (arith, trim_end_by-concat (e ∷ s) c h)

  keep-ne-nil : (c : ℕ) (s : Str) → s ≢ [] → keep c s ≡ c ∷ s
  keep-ne-nil c [] h = absurd (h refl)
  keep-ne-nil c (d ∷ s) h = refl

  keep-tail : (c d : ℕ) (t s : Str) → keep c t ≡ c ∷ d ∷ s → t ≡ d ∷ s
  keep-tail c d [] s h = ground arith
  keep-tail c d (e ∷ t) s h = cc

  -- What is kept at the end keeps all in front of it.
  pub trim_end_by-append : (s t : Str) → t ≢ [] → trim_end_by t ≡ t → trim_end_by (s ++ t) ≡ s ++ t
  unfolding trim_end_by
  trim_end_by-append [] t ne h = h
  trim_end_by-append (c ∷ s) t ne h =
      rw (trim_end_by-append s t ne h) (keep-ne-nil c (s ++ t) (append-ne-nil s t ne))

  pub byte_len-trim_end_by : (s : Str) → byte_len (trim_end_by s) ≤ byte_len s
  unfolding trim_end_by
  byte_len-trim_end_by [] = omega arith
  byte_len-trim_end_by (c ∷ s) = ground (arith, byte_len-trim_end_by s)

-- `str::trim`
unfoldable pub trim : Str → Str
trim s = trim_end_by is_whitespace (trim_start_by is_whitespace s)

abbrev pub is_dot : ℕ → Bool
is_dot c = c == b'.'

-- `trim_end_matches('.')`
abbrev pub trim_end_dots : Str → Str
trim_end_dots = trim_end_by is_dot

pub trim-Lacks : (s : Str) → Lacks is_whitespace s → trim s ≡ s
unfolding trim
trim-Lacks s h = rw (trim_start_by-Lacks is_whitespace s h) (trim_end_by-Lacks is_whitespace s h)

-- `strip_suffix(c)`
unfoldable pub strip_suffix : ℕ → Str → Option Str
strip_suffix c [] = none
strip_suffix c (d ∷ []) = if d == c then some [] else none
strip_suffix c (d ∷ e ∷ s) = elim (strip_suffix c (e ∷ s)) [ none ↦ none | some t ↦ some (d ∷ t) ]

-- `strip_prefix(p)`
unfoldable pub strip_prefix : Str → Str → Option Str
strip_prefix [] s = some s
strip_prefix (c ∷ p) [] = none
strip_prefix (c ∷ p) (d ∷ s) = if c == d then strip_prefix p s else none

pub strip_prefix-append : (p s : Str) → strip_prefix p (p ++ s) ≡ some s
unfolding strip_prefix
strip_prefix-append [] s = refl
strip_prefix-append (c ∷ p) s = ground (arith, strip_prefix-append p s)

pub append-strip_prefix : (p s t : Str) → strip_prefix p s ≡ some t → s ≡ p ++ t
unfolding strip_prefix
append-strip_prefix [] s t h = ground arith
append-strip_prefix (c ∷ p) [] t h = cc
append-strip_prefix (c ∷ p) (d ∷ s) t h = ground (arith, append-strip_prefix p s t)

-- A text that ends in another character has no such suffix.
pub strip_suffix-trim_end_by :
    (c : ℕ) (s : Str) → trim_end_by (λ d. d == c) s ≡ s → strip_suffix c s ≡ none
unfolding strip_suffix trim_end_by
strip_suffix-trim_end_by c [] h = refl
strip_suffix-trim_end_by c (d ∷ []) h = ground arith
strip_suffix-trim_end_by c (d ∷ e ∷ s) h =
    let q = λ (d : ℕ). d == c in
    rw (strip_suffix-trim_end_by c (e ∷ s) (keep-tail q d e (trim_end_by q (e ∷ s)) s h))
