-- ===== src/Record/Kind.antt =====
-- `RecordType` of model/record/mod.rs. Unicode upper-casing is a parameter of `from_str`.
use bindizr.Base.{
  ℕ, Bool, true, [], ◌∷◌, Option, none, some, nat_eq, PartialEq, ◌==◌, nat_beq, nat_beq_iff,
  list_eq, if◌then◌else◌, any, ◌≡◌, ◌↔◌, refl, ap,
}
use bindizr.Text.{Str, codes}

pub data RecordType : Type 0 where
  a aaaa cname mx txt ns soa srv ptr : RecordType

abbrev pub rank : RecordType → ℕ
rank a = 0
rank aaaa = 1
rank cname = 2
rank mx = 3
rank txt = 4
rank ns = 5
rank soa = 6
rank srv = 7
rank ptr = 8

abbrev pub type_beq : RecordType → RecordType → Bool
type_beq s t = nat_beq (rank s) (rank t)

abbrev unrank : ℕ → Option RecordType
unrank n =
    if n == 0
    then some a
    else if n == 1
    then some aaaa
    else if n == 2
    then some cname
    else if n == 3
    then some mx
    else if n == 4
    then some txt
    else if n == 5
    then some ns
    else if n == 6
    then some soa
    else if n == 7
    then some srv
    else some ptr

unrank-rank : (t : RecordType) → unrank (rank t) ≡ some t
unrank-rank a = refl
unrank-rank _ = refl

rank-injective : (s t : RecordType) → rank s ≡ rank t → s ≡ t
rank-injective s t e = cc (unrank-rank s, unrank-rank t, ap unrank e)

pub type_beq_iff : (s t : RecordType) → (type_beq s t ≡ true) ↔ (s ≡ t)
type_beq_iff s t = (
  λ h. rank-injective s t ((nat_beq_iff (rank s) (rank t)).0 h),
  λ e. (nat_beq_iff (rank s) (rank t)).1 (ap rank e),
)

-- The derived `PartialEq`.
instance abbrev pub type_eq : PartialEq RecordType
type_eq = record { same = type_beq; decides = type_beq_iff }

unfoldable pub as_str : RecordType → Str
as_str a = codes "A"
as_str aaaa = codes "AAAA"
as_str cname = codes "CNAME"
as_str mx = codes "MX"
as_str txt = codes "TXT"
as_str ns = codes "NS"
as_str soa = codes "SOA"
as_str srv = codes "SRV"
as_str ptr = codes "PTR"

-- The match of `FromStr`, on the upper-cased text.
unfoldable pub of_upper : Str → Option RecordType
of_upper s =
    if s == codes "A"
    then some a
    else if s == codes "AAAA"
    then some aaaa
    else if s == codes "CNAME"
    then some cname
    else if s == codes "MX"
    then some mx
    else if s == codes "TXT"
    then some txt
    else if s == codes "NS"
    then some ns
    else if s == codes "SOA"
    then some soa
    else if s == codes "SRV"
    then some srv
    else if s == codes "PTR"
    then some ptr
    else none

-- `str::to_uppercase`, whose Unicode tables are not part of the repository. A mnemonic is in upper
-- case already.
pub record Uppercase : Type 0 where
  pub to_uppercase : Str → Str
  pub keeps_mnemonics : (t : RecordType) → to_uppercase (as_str t) ≡ as_str t

unfoldable pub from_str : Uppercase → Str → Option RecordType
unfolding of_upper
from_str u s = of_upper (u.to_uppercase s)

pub of_upper-as_str : (t : RecordType) → of_upper (as_str t) ≡ some t
unfolding of_upper as_str
of_upper-as_str a = refl
of_upper-as_str _ = refl

-- Each type's mnemonic is read back as the type, with any upper case that leaves mnemonics alone.
pub from_str-as_str : (u : Uppercase) (t : RecordType) → from_str u (as_str t) ≡ some t
unfolding from_str
from_str-as_str u t = rw (u.keeps_mnemonics t) (of_upper-as_str t)

-- Types whose value is, or ends in, a domain name.
unfoldable pub is_name_like : RecordType → Bool
is_name_like t = any (λ s. s == t) (cname ∷ ns ∷ ptr ∷ mx ∷ srv ∷ [])
