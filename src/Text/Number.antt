-- ===== src/Text/Number.antt =====
-- `str::parse` into an unsigned type and `to_string` of a number.
use bindizr.Base.{
  ℕ, zero, suc, ◌+◌, ◌-◌, ◌*◌, ◌/◌, ◌%◌, ◌≤◌, ◌<◌, false, [], ◌∷◌, ◌++◌, Option, none, some, ltb,
  nat_eq, ◌==◌, if◌then◌else◌, Bool-cases, inl, inr, ◌≡◌, ap, arith, is_empty,
}
use bindizr.Text.{Str, to_digit}

-- The digits behind `value`; an overflow of `max` is an error at once.
unfoldable pub scan : ℕ → Str → ℕ → Option ℕ
scan max [] value = some value
scan max (c ∷ s) value = elim (to_digit c) [
  | none ↦ none
  | some d ↦ let v = value * 10 + d in if ltb max v then none else scan max s v
]

-- `parse::<u16>()` and `parse::<u32>()`, at the type's greatest value: one `+`, then digits.
unfoldable pub parse_unsigned : ℕ → Str → Option ℕ
unfolding scan
parse_unsigned max [] = none
parse_unsigned max (c ∷ s) =
    if c == b'+' then (if is_empty s then none else scan max s 0) else scan max (c ∷ s) 0

-- The decimal digits of a number; a number below the fuel is written whole.
digits : ℕ → ℕ → Str
digits zero n = []
digits (suc fuel) n =
    let front = digits fuel (n / 10) in
    if ltb n 10 then (b'0' + n) ∷ [] else front ++ (b'0' + n % 10) ∷ []

-- `to_string`
unfoldable pub to_string : ℕ → Str
unfolding digits
to_string n = digits (suc n) n

scan-append :
    (max : ℕ) (s t : Str) (v w : ℕ) → scan max s v ≡ some w → scan max (s ++ t) v ≡ scan max t w
unfolding scan
scan-append max [] t v w h = ground arith
scan-append max (c ∷ s) t v w h = ground (arith, scan-append max s t (v * 10 + (c - b'0')) w)

scan_last : (max n : ℕ) → n ≤ max → scan max ((b'0' + n % 10) ∷ []) (n / 10) ≡ some n
unfolding scan
scan_last max n fits = ground arith

scan-digits : (max fuel n : ℕ) → n < fuel → n ≤ max → scan max (digits fuel n) 0 ≡ some n
unfolding digits
scan-digits max zero n h fits = absurd (omega arith)
scan-digits max (suc fuel) n h fits = elim (Bool-cases (ltb n 10)) [
  | inl small ↦ rw small (unfold scan in ground arith)
  | inr large ↦
      rw
        (
          large,
          scan-append max (digits fuel (n / 10)) ((b'0' + n % 10) ∷ []) 0 (n / 10)
              (scan-digits max fuel (n / 10) (ground arith) (omega arith)),
        )
        (scan_last max n fits)
]

-- A text whose first character is a digit, not a sign.
data StartsInDigit (s : Str) : Type 0 where
  with_digit : (d : ℕ) (r : Str) → s ≡ d ∷ r → (d == b'+') ≡ false → StartsInDigit s

StartsInDigit-append : {s : Str} (t : Str) → StartsInDigit s → StartsInDigit (s ++ t)
StartsInDigit-append t (with_digit d r e f) = with_digit d (r ++ t) (ap (λ u. u ++ t) e) f

digits-StartsInDigit : (fuel n : ℕ) → StartsInDigit (digits (suc fuel) n)
unfolding digits
digits-StartsInDigit zero n = elim (Bool-cases (ltb n 10)) [
  | inl small ↦ with_digit (b'0' + n) [] (ground arith) (ground arith)
  | inr large ↦ with_digit (b'0' + n % 10) [] (ground arith) (ground arith)
]
digits-StartsInDigit (suc fuel) n = elim (Bool-cases (ltb n 10)) [
  | inl small ↦ with_digit (b'0' + n) [] (ground arith) (ground arith)
  | inr large ↦
      rw large (StartsInDigit-append ((b'0' + n % 10) ∷ []) (digits-StartsInDigit fuel (n / 10)))
]

parse-scan : (max : ℕ) (s : Str) → StartsInDigit s → parse_unsigned max s ≡ scan max s 0
unfolding parse_unsigned
parse-scan max s (with_digit d r e f) = rw (e, f)

-- A number that fits the type is read back from its decimal form.
pub parse_unsigned-to_string : (max n : ℕ) → n ≤ max → parse_unsigned max (to_string n) ≡ some n
unfolding to_string
parse_unsigned-to_string max n fits =
    rw (parse-scan max (digits (suc n) n) (digits-StartsInDigit n n))
      (scan-digits max (suc n) n (omega arith) fits)
