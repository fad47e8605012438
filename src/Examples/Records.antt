-- ===== src/Examples/Records.antt =====
-- Record values, and the stand-ins for the code outside the repository.
use bindizr.Base.{true, false, List, [], ◌∷◌, none, some, ◌≡◌, refl, arith}
use bindizr.Text.{Str, Bytes, codes}
use bindizr.Text.Utf8.{encode}
use bindizr.Text.Trim.{trim_end_dots}
use bindizr.Record.Kind.{Uppercase, mx, as_str, from_str, from_str-as_str}
use bindizr.Record.Value.{IpText}
use bindizr.Record.Txt.{Base64, from_string, is_valid_txt_rdata, chunks}
use bindizr.Record.Txt.Chunks.{AreShort, joined, chunks-from_string, chunks-is_valid_txt_rdata}
use bindizr.Record.Mailbox.{from_email, to_email, to_email-from_email}

-- An upper case that changes nothing, addresses that are their own text, and a transparent encoding.
abbrev pub same_case : Uppercase
same_case = record { to_uppercase = λ s. s; keeps_mnemonics = λ t. refl }

abbrev pub any_address : IpText
any_address = record { ipv4 = λ s. some s; ipv6 = λ s. some s }

abbrev pub transparent : Base64
transparent = record {
  encode_text = λ bs. bs;
  decode_text = λ s. some s;
  decode-encode = λ bs. refl;
}

from_str-as_str_example : from_str same_case (as_str mx) ≡ some mx
from_str-as_str_example = from_str-as_str same_case mx

chunks-from_string_example :
    (cs : List Bytes) × (chunks (from_string (codes "v=spf1 -all")) ≡ some cs)
    × AreShort cs
    × (joined cs ≡ encode (codes "v=spf1 -all"))
chunks-from_string_example = chunks-from_string (codes "v=spf1 -all")

chunks-is_valid_txt_rdata_example :
    (is_valid_txt_rdata (2 ∷ 97 ∷ []) ≡ true → (cs : List Bytes) × (chunks (2 ∷ 97 ∷ []) ≡ some cs))
    × (is_valid_txt_rdata (2 ∷ 97 ∷ []) ≡ false → chunks (2 ∷ 97 ∷ []) ≡ none)
chunks-is_valid_txt_rdata_example = chunks-is_valid_txt_rdata (2 ∷ 97 ∷ [])

truncated : is_valid_txt_rdata (2 ∷ 97 ∷ []) ≡ false
unfolding is_valid_txt_rdata
truncated = refl

domain-trimmed : trim_end_dots (codes "example.com") ≡ codes "example.com"
unfolding bindizr.Text.Trim.trim_end_by
domain-trimmed = refl

to_email-from_email_example :
    (m : Str) × (from_email (codes "john.doe@example.com") ≡ some m)
    × (to_email m ≡ some (codes "john.doe@example.com"))
to_email-from_email_example =
    to_email-from_email (codes "john.doe") (codes "example.com") (λ e. cc) (λ e. cc) (ground arith)
      (ground arith) domain-trimmed
