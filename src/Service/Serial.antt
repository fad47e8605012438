-- ===== src/Service/Serial.antt =====
-- serial.rs: SOA serials, a counter that stops at `i32::MAX`.
use bindizr.Base.{
  ℕ, suc, ◌+◌, ◌-◌, ◌^◌, ◌≤◌, Option, none, some, ℤ, pos, negsuc, int_eq, int_ltb, int_suc, ◌==◌,
  if◌then◌else◌, ok, err, ◌≡◌, arith,
}
use bindizr.Service.Error.{Service, zone_conflict, invalid_zone}

abbrev pub i32_max : ℕ
i32_max = 2 ^ 31 - 1

abbrev pub reserved_serial_headroom : ℕ
reserved_serial_headroom = 10_000_000

abbrev pub max_initial_serial : ℕ
max_initial_serial = i32_max - reserved_serial_headroom

-- `None` is a new zone.
unfoldable pub generate_serial : Option ℤ → Service ℤ
generate_serial none = ok (pos 1)
generate_serial (some serial) =
    if serial == pos i32_max then err zone_conflict else ok (int_suc serial)

unfoldable pub validate_initial_serial : ℤ → Service ℤ
validate_initial_serial serial =
    if int_ltb serial (pos 1)
    then err invalid_zone
    else if int_ltb (pos max_initial_serial) serial
    then err invalid_zone
    else ok serial

-- The serials of a run of `n` mutations.
pub advance : ℕ → ℤ → Service ℤ
advance ℕ.zero s = ok s
advance (suc n) s = elim (generate_serial (some s)) [ ok t ↦ advance n t | err e ↦ err e ]

advance-pos : (n s : ℕ) → s + n ≤ i32_max → advance n (pos s) ≡ ok (pos (s + n))
unfolding advance generate_serial
advance-pos ℕ.zero s h = ground arith
advance-pos (suc n) s h = ground (arith, advance-pos n (s + 1))

-- From a starting serial that `validate_initial_serial` accepts, a run of at most ten million
-- mutations never fails, and each adds one.
pub advance-validate_initial_serial :
    (serial s : ℤ) (n : ℕ)
    → validate_initial_serial serial ≡ ok s
    → n ≤ reserved_serial_headroom
    → (k : ℕ) × (s ≡ pos k) × (advance n s ≡ ok (pos (k + n)))
unfolding validate_initial_serial
advance-validate_initial_serial (pos k) s n h fits =
    (k, ground arith, ground (arith, advance-pos n k))
advance-validate_initial_serial (negsuc k) s n h fits = cc
