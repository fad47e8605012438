-- ===== src/Text.antt =====
-- What the crates use of Rust's `str`, `char` and `String`. A `str` is the list of its characters,
-- a `char` is its code point, and a byte string is a list of numbers below 256.
pub mod Utf8
pub mod Trim
pub mod Split
pub mod Number
pub mod Words
use Prim.Native.Char.{code}
use Prim.Native.String.{String}
use bindizr.Base.{
  ℕ, zero, suc, ◌+◌, ◌-◌, ◌*◌, ◌<◌, Bool, true, false, not, ◌&&◌, ◌||◌, List, [], ◌∷◌, ◌++◌, map,
  Option, none, some, ltb, leb, ◌==◌, nat_eq, if◌then◌else◌, All, length, ◌≡◌, refl, arith,
}

abbrev pub Str : Type 0
Str = List ℕ

abbrev pub Bytes : Type 0
Bytes = List ℕ

-- The characters of a literal.
abbrev pub codes : String → Str
codes String.[] = []
codes (String.◌∷◌ c s) = code c ∷ codes s

-- A `char` is a Unicode scalar value: no surrogate, at most 0x10FFFF.
unfoldable pub is_scalar : ℕ → Bool
is_scalar c = ltb c 0xD800 || leb 0xE000 c && leb c 0x10FFFF

abbrev pub IsScalar : ℕ → Type 0
IsScalar c = is_scalar c ≡ true

-- `char::is_ascii_control`
abbrev pub is_ascii_control : ℕ → Bool
is_ascii_control c = ltb c 32 || c == 127

-- `char::is_whitespace`: the code points with Unicode's White_Space property.
unfoldable pub is_whitespace : ℕ → Bool
is_whitespace c =
    leb 9 c && leb c 13
    || c == 32
    || c == 0x85
    || c == 0xA0
    || c == 0x1680
    || leb 0x2000 c && leb c 0x200A
    || c == 0x2028
    || c == 0x2029
    || c == 0x202F
    || c == 0x205F
    || c == 0x3000

-- `char::is_ascii_digit`
abbrev pub is_ascii_digit : ℕ → Bool
is_ascii_digit c = leb b'0' c && leb c b'9'

-- `char::is_ascii_alphanumeric`
unfoldable pub is_ascii_alphanumeric : ℕ → Bool
is_ascii_alphanumeric c = is_ascii_digit c || leb b'A' c && leb c b'Z' || leb b'a' c && leb c b'z'

-- `char::to_digit(10)`
abbrev pub to_digit : ℕ → Option ℕ
to_digit c = if is_ascii_digit c then some (c - b'0') else none

-- `char::to_ascii_lowercase` and `str::to_ascii_lowercase`
unfoldable pub lower : ℕ → ℕ
lower c = if leb b'A' c && leb c b'Z' then c + 32 else c

abbrev pub to_ascii_lowercase : Str → Str
to_ascii_lowercase = map lower

-- `char::len_utf8`
unfoldable pub len_utf8 : ℕ → ℕ
len_utf8 c = if ltb c 0x80 then 1 else if ltb c 0x800 then 2 else if ltb c 0x10000 then 3 else 4

-- `str::len`: the length in bytes.
abbrev pub byte_len : Str → ℕ
byte_len [] = 0
byte_len (c ∷ s) = len_utf8 c + byte_len s

pub byte_len-append : (s t : Str) → byte_len (s ++ t) ≡ byte_len s + byte_len t
byte_len-append [] t = omega arith
byte_len-append (c ∷ s) t = omega (arith, byte_len-append s t)

pub lower_idem : (c : ℕ) → lower (lower c) ≡ lower c
unfolding lower
lower_idem c = ground arith

pub map-lower_idem : (s : Str) → map lower (map lower s) ≡ map lower s
map-lower_idem [] = refl
map-lower_idem (c ∷ s) = ground (arith, lower_idem c, map-lower_idem s)

pub len_utf8-lower : (c : ℕ) → len_utf8 (lower c) ≡ len_utf8 c
unfolding lower len_utf8
len_utf8-lower c = ground arith

pub byte_len-lower : (s : Str) → byte_len (map lower s) ≡ byte_len s
byte_len-lower [] = refl
byte_len-lower (c ∷ s) = ground (arith, len_utf8-lower c, byte_len-lower s)
