-- ===== src/Record/Txt/Chunks.antt =====
-- The octets of a TXT value against the character-strings that they spell.
use bindizr.Base.{
  ℕ, zero, suc, ◌+◌, ◌%◌, ◌≤◌, true, false, List, [], ◌∷◌, ◌++◌, append-nil, append_assoc, none,
  some, All, All-append, ltb, length, length-append, take, drop, take-append, drop-append, ◌≡◌,
  refl, sym, ap, subst, ◌∙◌, arith, Bool-cases, inl, inr,
}
use bindizr.Text.{Str, Bytes, len_utf8}
use bindizr.Text.Utf8.{encode, encode_char}
use bindizr.Text.Utf8.RoundTrip.{length-encode_char}
use bindizr.Record.Txt.{
  charstr, push_chars, from_string, is_valid_from, is_valid_txt_rdata, chunks_from, chunks,
}

-- The octets of some character-strings.
pub strings : List Bytes → Bytes
strings [] = []
strings (c ∷ cs) = charstr c ++ strings cs

pub strings-append : (cs ds : List Bytes) → strings (cs ++ ds) ≡ strings cs ++ strings ds
unfolding strings
strings-append [] ds = refl
strings-append (c ∷ cs) ds =
    rw (strings-append cs ds) (sym (append_assoc (charstr c) (strings cs) (strings ds)))

abbrev pub AreShort : List Bytes → Type 0
AreShort = All (λ c. length c ≤ 255)

fits_mod : (c : Bytes) → length c ≤ 255 → length c % 256 ≡ length c
fits_mod c h = omega arith

chunks_from-strings :
    (fuel : ℕ) (cs : List Bytes)
    → AreShort cs
    → length (strings cs) ≤ fuel
    → chunks_from fuel (strings cs) ≡ some cs
unfolding chunks_from strings
chunks_from-strings zero [] h fits = refl
chunks_from-strings zero (c ∷ cs) h fits = absurd (omega arith)
chunks_from-strings (suc fuel) [] h fits = refl
chunks_from-strings (suc fuel) (c ∷ cs) h fits =
    let ih = chunks_from-strings fuel cs h.1 (omega (arith, length-append c (strings cs))) in
    let room : ltb (length (c ++ strings cs)) (length c) ≡ false =
      ground (arith, length-append c (strings cs)) in
    rw (fits_mod c h.0, room, drop-append c (strings cs))
      (rw (ih, chunks_from) (rw (fits_mod c h.0, take-append c (strings cs))))

-- The slices of a value give back its character-strings: none is out of range.
pub chunks-strings : (cs : List Bytes) → AreShort cs → chunks (strings cs) ≡ some cs
unfolding chunks
chunks-strings cs h = chunks_from-strings (length (strings cs)) cs h (omega arith)

-- Where `is_valid_txt_rdata` accepts, no slice panics; where it refuses, one does.
chunks_from-is_valid_from :
    (fuel : ℕ) (rdata : Bytes)
    → (is_valid_from fuel rdata ≡ true → (cs : List Bytes) × (chunks_from fuel rdata ≡ some cs))
      × (is_valid_from fuel rdata ≡ false → chunks_from fuel rdata ≡ none)
unfolding is_valid_from chunks_from
chunks_from-is_valid_from zero rdata = (λ _. ([], refl), λ e. cc)
chunks_from-is_valid_from (suc fuel) [] = (λ _. ([], refl), λ e. cc)
chunks_from-is_valid_from (suc fuel) (n ∷ rest) =
    let (sound, complete) = chunks_from-is_valid_from fuel (drop n rest) in
    elim (Bool-cases (ltb (length rest) n)) [
      | inl out ↦ (λ e. cc (rw out at e), λ e. rw out)
      | inr inside ↦ (
        λ e. let (cs, taken) = sound (rw inside at e) in (take n rest ∷ cs, rw (inside, taken)),
        λ e. rw (inside, complete (rw inside at e)),
      )
    ]

-- `is_valid_txt_rdata` decides exactly whether the slices of `to_content` and `to_presentation`
-- are in range.
pub chunks-is_valid_txt_rdata :
    (rdata : Bytes)
    → (is_valid_txt_rdata rdata ≡ true → (cs : List Bytes) × (chunks rdata ≡ some cs))
      × (is_valid_txt_rdata rdata ≡ false → chunks rdata ≡ none)
unfolding is_valid_txt_rdata chunks
chunks-is_valid_txt_rdata rdata = chunks_from-is_valid_from (length rdata) rdata

pub joined : List Bytes → Bytes
joined [] = []
joined (c ∷ cs) = c ++ joined cs

joined-concat : (cs : List Bytes) (c : Bytes) → joined (cs ++ c ∷ []) ≡ joined cs ++ c
unfolding joined
joined-concat [] c = append-nil c
joined-concat (d ∷ cs) c = rw (joined-concat cs c) (sym (append_assoc d (joined cs) c))

-- What an rdata spells: character-strings that are short and join to a text.
abbrev pub Spells : Bytes → Bytes → Type 0
Spells rdata text = (cs : List Bytes) × (rdata ≡ strings cs) × AreShort cs × (joined cs ≡ text)

concat-Spells :
    (rdata text chunk : Bytes)
    → length chunk ≤ 255
    → Spells rdata text
    → Spells (rdata ++ charstr chunk) (text ++ chunk)
unfolding strings
concat-Spells rdata text chunk short (cs, spelled, all_short, same) = (
  cs ++ chunk ∷ [],
  rw (strings-append cs (chunk ∷ []), append-nil (charstr chunk))
      (ap (λ r. r ++ charstr chunk) spelled),
  All-append (λ c. length c ≤ 255) cs (chunk ∷ []) all_short (short, tt),
  joined-concat cs chunk ∙ ap (λ r. r ++ chunk) same,
)

len_utf8-short : (c : ℕ) → len_utf8 c ≤ 4
unfolding len_utf8
len_utf8-short c = ground arith

push_chars-Spells :
    (value : Str) (rdata chunk text : Bytes)
    → length chunk ≤ 255
    → Spells rdata text
    → Spells (push_chars value rdata chunk) (text ++ (chunk ++ encode value))
unfolding push_chars encode
push_chars-Spells [] rdata chunk text short h =
    rw (append-nil chunk) (concat-Spells rdata text chunk short h)
push_chars-Spells (c ∷ s) rdata chunk text short h =
    let size = length-encode_char c in
    elim (Bool-cases (ltb 255 (length chunk + len_utf8 c))) [
      | inl full ↦ rw full (
          subst (Spells (push_chars s (rdata ++ charstr chunk) (encode_char c)))
            (append_assoc text chunk (encode_char c ++ encode s))
            (push_chars-Spells s (rdata ++ charstr chunk) (encode_char c) (text ++ chunk)
              (omega (arith, len_utf8-short c)) (concat-Spells rdata text chunk short h)))
      | inr fits ↦ rw fits (
          subst (λ t. Spells (push_chars s rdata (chunk ++ encode_char c)) (text ++ t))
            (append_assoc chunk (encode_char c) (encode s))
            (push_chars-Spells s rdata (chunk ++ encode_char c) text
              (ground (arith, length-append chunk (encode_char c))) h))
    ]

-- A text of any length is spelled in character-strings of at most 255 octets: the slices of its
-- rdata are all in range, and they join to its UTF-8 encoding.
pub chunks-from_string :
    (value : Str)
    → (cs : List Bytes) × (chunks (from_string value) ≡ some cs)
      × AreShort cs
      × (joined cs ≡ encode value)
unfolding from_string strings joined
chunks-from_string value =
    let (cs, spelled, short, same) =
      push_chars-Spells value [] [] [] (omega arith) ([], refl, tt, refl) in
    (cs, ap chunks spelled ∙ chunks-strings cs short, short, same)
