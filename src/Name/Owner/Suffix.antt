-- ===== src/Name/Owner/Suffix.antt =====
-- `is_label_suffix` and `strip_zone_suffix` against their meaning: a list of labels in front.
use bindizr.Base.{
  drop-append, take-append, take-append-drop, ◌-◌, true, List, ◌++◌, length, take, length-append,
  some, ◌≡◌, list_eq, nat_eq, eq_refl, eq_of_beq, sym, ap, ◌∙◌, arith, and-true, leb, Bool-cases,
  inl, inr,
}
use bindizr.Text.{Str}
use bindizr.Name.Owner.{is_label_suffix, strip_zone_suffix}

front_length : (o z : List Str) → length (o ++ z) - length z ≡ length o
front_length o z = omega (arith, length-append o z)

-- Labels in front of a suffix are recognised.
pub is_label_suffix-append : (o z : List Str) → is_label_suffix (o ++ z) z ≡ true
unfolding is_label_suffix
is_label_suffix-append o z =
    rw (front_length o z, drop-append o z) (ground (arith, length-append o z, eq_refl z))

-- Where the test passes the name is some labels in front of the suffix.
pub is_label_suffix_sound :
    (n z : List Str) → is_label_suffix n z ≡ true → take (length n - length z) n ++ z ≡ n
unfolding is_label_suffix
is_label_suffix_sound n z h =
    let (_, same) = and-true (leb (length z) (length n)) _ h in
    ap (λ r. take (length n - length z) n ++ r) (sym (eq_of_beq _ z same))
    ∙ take-append-drop (length n - length z) n

-- Stripping the zone gives the labels in front of it.
pub strip_zone_suffix-append : (o z : List Str) → strip_zone_suffix (o ++ z) z ≡ some o
unfolding strip_zone_suffix
strip_zone_suffix-append o z =
    rw (is_label_suffix-append o z, front_length o z) (ap some (take-append o z))

pub strip_zone_suffix_sound :
    (n z : List Str) {o : List Str} → strip_zone_suffix n z ≡ some o → o ++ z ≡ n
unfolding strip_zone_suffix
strip_zone_suffix_sound n z {o} h = elim (Bool-cases (is_label_suffix n z)) [
  | inl t ↦ ground (arith, is_label_suffix_sound n z)
  | inr f ↦ ground arith
]
