-- ===== src/Name/Decode/RoundTrip.antt =====
-- The decoder on what `join_labels` renders, with or without a trailing dot.
use bindizr.Base.{
  ◌≤◌, true, false, List, [], ◌∷◌, ◌++◌, append-nil, append_assoc, All, ok, ◌≡◌, ◌≢◌, refl, ap,
  arith, length-append,
}
use bindizr.Text.{Str, Bytes, codes}
use bindizr.Text.Split.{join}
use bindizr.Text.Utf8.{encode_char, encode, from_utf8}
use bindizr.Text.Utf8.RoundTrip.{from_utf8-encode}
use bindizr.Name.Label.{
  escaped_in_label, escape_chars, escape_label, escape_label-eq-escape_chars, join_labels,
  IsOwnerLabel, classify_owner_label_complete, classify_wire_len, wire_len,
}
use bindizr.Name.Decode.{
  Reader, outside, finish_label, read_char, finish, decode_from, decode_name_labels,
  classify_labels, last_is_empty, pop, check_labels,
}

abbrev between : List Str → Bytes → Reader
between labels label = record { escape = outside; labels = labels; label = label }

finish_label-encode : (l : Str) → IsOwnerLabel l → finish_label (encode l) ≡ ok l
unfolding finish_label
finish_label-encode l h = rw (from_utf8-encode l h.scalars, finish_label) (ap ok h.lowercase)

decode_from-escape_chars :
    (s rest : Str) (labels : List Str) (label : Bytes)
    → decode_from (between labels label) (escape_chars s ++ rest)
      ≡ decode_from (between labels (label ++ encode s)) rest
unfolding escape_chars encode decode_from read_char escaped_in_label
decode_from-escape_chars [] rest labels label = rw append-nil
decode_from-escape_chars (c ∷ s) rest labels label = ground (
  arith,
  decode_from-escape_chars s rest labels (label ++ encode_char c),
  append_assoc label (encode_char c) (encode s),
)

-- A rendered label and the dot behind it.
decode_from-label :
    (l rest : Str) (labels : List Str)
    → IsOwnerLabel l
    → decode_from (between labels []) (escape_label l ++ (b'.' ∷ rest))
      ≡ decode_from (between (labels ++ l ∷ []) []) rest
decode_from-label l rest labels h =
    rw (escape_label-eq-escape_chars l, decode_from-escape_chars l (b'.' ∷ rest) labels [])
      (unfold decode_from read_char in rw (finish_label-encode l h))

decode_from_last :
    (l : Str) (labels : List Str)
    → IsOwnerLabel l
    → decode_from (between labels []) (escape_label l) ≡ ok (labels ++ l ∷ [])
decode_from_last l labels h =
    rw
      (
        ← append-nil (escape_label l),
        escape_label-eq-escape_chars l,
        decode_from-escape_chars l [] labels [],
      )
      (unfold decode_from finish in rw (finish_label-encode l h))

pub join_labels-cons :
    (l m : Str) (ls : List Str)
    → join_labels (l ∷ m ∷ ls) ≡ escape_label l ++ (b'.' ∷ join_labels (m ∷ ls))
unfolding join_labels join
join_labels-cons l m ls = refl

pub join_labels_one : (l : Str) → join_labels (l ∷ []) ≡ escape_label l
unfolding join_labels join
join_labels_one l = refl

pub decode_from-join_labels :
    (l : Str) (ls done : List Str)
    → All IsOwnerLabel (l ∷ ls)
    → decode_from (between done []) (join_labels (l ∷ ls)) ≡ ok (done ++ l ∷ ls)
decode_from-join_labels l [] done h = rw join_labels_one (decode_from_last l done h.0)
decode_from-join_labels l (m ∷ ls) done h =
    rw
      (
        join_labels-cons,
        decode_from-label l (join_labels (m ∷ ls)) done h.0,
        decode_from-join_labels m ls (done ++ l ∷ []) h.1,
      )
      (ap ok (append_assoc done (l ∷ []) (m ∷ ls)))

-- Labels, a dot, and whatever follows.
pub decode_from-join_labels_dot :
    (l rest : Str) (ls done : List Str)
    → All IsOwnerLabel (l ∷ ls)
    → decode_from (between done []) (join_labels (l ∷ ls) ++ (b'.' ∷ rest))
      ≡ decode_from (between (done ++ l ∷ ls) []) rest
decode_from-join_labels_dot l rest [] done h =
    rw join_labels_one (decode_from-label l rest done h.0)
decode_from-join_labels_dot l rest (m ∷ ls) done h = rw (
  join_labels-cons,
  append_assoc (escape_label l) (b'.' ∷ join_labels (m ∷ ls)) (b'.' ∷ rest),
  decode_from-label l (join_labels (m ∷ ls) ++ (b'.' ∷ rest)) done h.0,
  decode_from-join_labels_dot m rest ls (done ++ l ∷ []) h.1,
  append_assoc done (l ∷ []) (m ∷ ls),
)

classify_labels_complete : (ls : List Str) → All IsOwnerLabel ls → classify_labels ls ≡ ok tt
unfolding classify_labels
classify_labels_complete [] h = refl
classify_labels_complete (l ∷ ls) h =
    rw (classify_owner_label_complete l h.0) (classify_labels_complete ls h.1)

classify_wire_len_complete :
    (ls : List Str) → wire_len ls [] ≤ 255 → classify_wire_len ls [] ≡ ok tt
unfolding classify_wire_len
classify_wire_len_complete ls h = ground arith

last_is_empty-IsOwnerLabel : (ls : List Str) → All IsOwnerLabel ls → last_is_empty ls ≡ false
last_is_empty-IsOwnerLabel [] h = refl
last_is_empty-IsOwnerLabel ([] ∷ []) h = absurd (h.0.nonempty refl)
last_is_empty-IsOwnerLabel ((c ∷ l) ∷ []) h = refl
last_is_empty-IsOwnerLabel (l ∷ m ∷ ls) h = last_is_empty-IsOwnerLabel (m ∷ ls) h.1

last_is_empty-concat : (ls : List Str) → last_is_empty (ls ++ [] ∷ []) ≡ true
last_is_empty-concat [] = refl
last_is_empty-concat (l ∷ []) = refl
last_is_empty-concat (l ∷ m ∷ ls) = last_is_empty-concat (m ∷ ls)

pop-concat : (ls : List Str) (l : Str) → pop (ls ++ l ∷ []) ≡ ls
pop-concat [] l = refl
pop-concat (k ∷ []) l = refl
pop-concat (k ∷ m ∷ ls) l = ap (λ r. k ∷ r) (pop-concat (m ∷ ls) l)

pub check_labels-relative :
    (ls : List Str) → All IsOwnerLabel ls → wire_len ls [] ≤ 255 → check_labels ls ≡ ok (ls, false)
unfolding check_labels
check_labels-relative ls h fits = ground (
  arith,
  last_is_empty-IsOwnerLabel ls h,
  classify_labels_complete ls h,
  classify_wire_len_complete ls fits,
)

pub check_labels-absolute :
    (l : Str) (ls : List Str)
    → All IsOwnerLabel (l ∷ ls)
    → wire_len (l ∷ ls) [] ≤ 255
    → check_labels ((l ∷ ls) ++ [] ∷ []) ≡ ok (l ∷ ls, true)
unfolding check_labels
check_labels-absolute l ls h fits = ground (
  arith,
  length-append (l ∷ ls) ([] ∷ []),
  last_is_empty-concat (l ∷ ls),
  pop-concat (l ∷ ls) [],
  classify_labels_complete (l ∷ ls) h,
  classify_wire_len_complete (l ∷ ls) fits,
)

-- A list of accepted labels, not empty and of at most 255 octets on the wire, is rendered to a text
-- that `decode_name_labels` reads back, as a relative name.
pub decode_name_labels-join_labels :
    (ls : List Str)
    → ls ≢ []
    → All IsOwnerLabel ls
    → wire_len ls [] ≤ 255
    → decode_name_labels (join_labels ls) ≡ ok (ls, false)
decode_name_labels-join_labels [] ne h fits = absurd (ne refl)
decode_name_labels-join_labels (l ∷ ls) ne h fits =
    unfold decode_name_labels in
    rw (decode_from-join_labels l ls [] h) (check_labels-relative (l ∷ ls) h fits)

-- The same with a trailing dot, as an absolute name.
pub decode_name_labels-join_labels_dot :
    (ls : List Str)
    → ls ≢ []
    → All IsOwnerLabel ls
    → wire_len ls [] ≤ 255
    → decode_name_labels (join_labels ls ++ codes ".") ≡ ok (ls, true)
unfolding from_utf8
decode_name_labels-join_labels_dot [] ne h fits = absurd (ne refl)
decode_name_labels-join_labels_dot (l ∷ ls) ne h fits =
    unfold decode_name_labels in
    rw (decode_from-join_labels_dot l [] ls [] h) (check_labels-absolute l ls h fits)
