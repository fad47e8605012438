-- ===== src/Dns/Ixfr/Journal.antt =====
-- What an incremental transfer sends, against the journal between the two serials.
use bindizr.Base.{
  ℕ, ◌≤◌, Bool, false, List, [], ◌∷◌, ◌++◌, map, append-nil, nat_eq, list_eq, eq_of_beq, beq_of_ne,
  ne_of_beq, filter, filter-append, filter-cons_true, filter-cons_false, Option, ok, ok_or,
  bind-eq-ok, ok-injective, Bool-cases, inl, inr, ◌≡◌, ◌≢◌, refl, sym, ap, subst, ◌∙◌, pos, int_ltb,
  int_ltb_asym, arith,
}
use bindizr.Text.{Str}
use bindizr.Service.Store.{ZoneChange, ZoneSnapshot, op_add, op_del}
use bindizr.Service.History.{insert_by_serial, order_by_serial}
use bindizr.Dns.Wire.{protocol_error}
use bindizr.Dns.Ixfr.{Answer, soa, row, is_op, changes_at, section, stream_sections}
use bindizr.Dns.Ixfr.Sections.{
  Ascending, serial_pos, gather, serials_of, serials_of-cons, serials_of-nil,
}

abbrev pub Rising : List ZoneChange → Type 0
Rising [] = Unit
Rising (c ∷ cs) = elim cs [ [] ↦ Unit | d ∷ ds ↦ int_ltb d.serial c.serial ≡ false ] × Rising cs

insert_by_serial-Rising :
    (c : ZoneChange) (cs : List ZoneChange) → Rising cs → Rising (insert_by_serial c cs)
unfolding insert_by_serial
insert_by_serial-Rising c [] h = (tt, tt)
insert_by_serial-Rising c (d ∷ []) h = elim (Bool-cases (int_ltb d.serial c.serial)) [
  | inl t ↦ rw t (int_ltb_asym d.serial c.serial t, (tt, tt))
  | inr f ↦ rw f (f, h)
]
insert_by_serial-Rising c (d ∷ e ∷ es) h =
    let ih = insert_by_serial-Rising c (e ∷ es) h.1 in
    elim (Bool-cases (int_ltb d.serial c.serial)) [
      | inr f ↦ rw f (f, h)
      | inl t ↦ elim (Bool-cases (int_ltb e.serial c.serial)) [
        | inl s ↦ rw (t, s) (h.0, rw s at ih)
        | inr g ↦ rw (t, g) (int_ltb_asym d.serial c.serial t, rw g at ih)
      ]
    ]

pub order_by_serial-Rising : (cs : List ZoneChange) → Rising (order_by_serial cs)
unfolding order_by_serial
order_by_serial-Rising [] = tt
order_by_serial-Rising (c ∷ cs) =
    insert_by_serial-Rising c (order_by_serial cs) (order_by_serial-Rising cs)

Rising-Ascending :
    (n : ℕ) (c : ZoneChange) (cs : List ZoneChange) (ns : List ℕ)
    → c.serial ≡ pos n
    → serials_of cs ≡ ok ns
    → Rising (c ∷ cs)
    → Ascending n ns
Rising-Ascending n c [] ns e h up = subst (Ascending n) (sym (serials_of-nil ns h)) tt
Rising-Ascending n c (d ∷ ds) ns e h up =
    let (m, ms, f, g, same) = serials_of-cons d ds ns h in
    let at_d = serial_pos d.serial m f in
    let order : int_ltb (pos m) (pos n) ≡ false =
      subst (λ s. int_ltb s (pos n) ≡ false) at_d
        (subst (λ s. int_ltb d.serial s ≡ false) e up.0) in
    let le : n ≤ m = ground arith in
    subst (Ascending n) (sym same) (le, Rising-Ascending m d ds ms at_d g up.1)

pub ordered-Ascending :
    (cs : List ZoneChange) (ns : List ℕ) → Rising cs → serials_of cs ≡ ok ns → Ascending 0 ns
ordered-Ascending [] ns up h = subst (Ascending 0) (sym (serials_of-nil ns h)) tt
ordered-Ascending (c ∷ cs) ns up h =
    let (m, ms, f, g, same) = serials_of-cons c cs ns h in
    subst (Ascending 0) (sym same)
      (omega arith, Rising-Ascending m c cs ms (serial_pos c.serial m f) g up)

-- The changes among the answers.
abbrev pub rows : List Answer → List ZoneChange
rows [] = []
rows (soa s ∷ xs) = rows xs
rows (row c ∷ xs) = c ∷ rows xs

pub rows-append : (xs bs : List Answer) → rows (xs ++ bs) ≡ rows xs ++ rows bs
rows-append [] bs = refl
rows-append (soa s ∷ xs) bs = rows-append xs bs
rows-append (row c ∷ xs) bs = ap (λ l. c ∷ l) (rows-append xs bs)

rows-map : (cs : List ZoneChange) → rows (map row cs) ≡ cs
rows-map [] = refl
rows-map (c ∷ cs) = ap (λ l. c ∷ l) (rows-map cs)

rows-section :
    (s t : ZoneSnapshot) (cs : List ZoneChange)
    → rows (section s t cs) ≡ filter (is_op op_del) cs ++ filter (is_op op_add) cs
rows-section s t cs =
    rows-append (map row (filter (is_op op_del) cs)) (soa t ∷ map row (filter (is_op op_add) cs))
    ∙ ap (λ l. l ++ rows (map row (filter (is_op op_add) cs))) (rows-map (filter (is_op op_del) cs))
    ∙ ap (λ l. filter (is_op op_del) cs ++ l) (rows-map (filter (is_op op_add) cs))

filter_twice : (p : ZoneChange → Bool) (cs : List ZoneChange) → filter p (filter p cs) ≡ filter p cs
filter_twice p [] = refl
filter_twice p (c ∷ cs) = elim (Bool-cases (p c)) [
  | inl t ↦
      ap (filter p) (filter-cons_true p c cs t)
      ∙ filter-cons_true p c (filter p cs) t
      ∙ ap (λ l. c ∷ l) (filter_twice p cs)
      ∙ sym (filter-cons_true p c cs t)
  | inr f ↦
      ap (filter p) (filter-cons_false p c cs f)
      ∙ filter_twice p cs
      ∙ sym (filter-cons_false p c cs f)
]

filter_apart :
    (a b : Str) (cs : List ZoneChange) → a ≢ b → filter (is_op a) (filter (is_op b) cs) ≡ []
filter_apart a b [] ne = refl
filter_apart a b (c ∷ cs) ne = elim (Bool-cases (is_op b c)) [
  | inl t ↦
      let miss : is_op a c ≡ false =
        beq_of_ne c.operation a (λ e. ne (sym e ∙ eq_of_beq c.operation b t)) in
      ap (filter (is_op a)) (filter-cons_true (is_op b) c cs t)
      ∙ filter-cons_false (is_op a) c (filter (is_op b) cs) miss
      ∙ filter_apart a b cs ne
  | inr f ↦ ap (filter (is_op a)) (filter-cons_false (is_op b) c cs f) ∙ filter_apart a b cs ne
]

-- Both sections keep what is of their kind.
abbrev pub Kept : (ZoneChange → Bool) → Type 0
Kept p =
    (cs : List ZoneChange)
    → filter p (filter (is_op op_del) cs ++ filter (is_op op_add) cs) ≡ filter p cs

del-ne-add : op_del ≢ op_add
del-ne-add = ne_of_beq op_del op_add refl

pub Kept-del : Kept (is_op op_del)
Kept-del cs =
    let p = is_op op_del in
    filter-append p (filter p cs) (filter (is_op op_add) cs)
    ∙ ap (λ l. filter p (filter p cs) ++ l) (filter_apart op_del op_add cs del-ne-add)
    ∙ append-nil (filter p (filter p cs))
    ∙ filter_twice p cs

pub Kept-add : Kept (is_op op_add)
Kept-add cs =
    let p = is_op op_add in
    filter-append p (filter (is_op op_del) cs) (filter p cs)
    ∙ ap (λ l. l ++ filter p (filter p cs))
        (filter_apart op_add op_del cs (λ e. del-ne-add (sym e)))
    ∙ filter_twice p cs

pub stream_sections-rows :
    (p : ZoneChange → Bool) (snapshots : ℕ → Option ZoneSnapshot) (cs : List ZoneChange)
    (previous : ℕ) (ns : List ℕ) (answers : List Answer)
    → Kept p
    → stream_sections snapshots cs previous ns ≡ ok answers
    → filter p (rows answers) ≡ filter p (gather cs ns)
unfolding stream_sections
stream_sections-rows p snapshots cs previous [] answers kept h =
    ap (λ l. filter p (rows l)) (sym (ok-injective h))
stream_sections-rows p snapshots cs previous (n ∷ ns) answers kept h =
    let (s, _, h1) = bind-eq-ok (ok_or protocol_error (snapshots previous)) _ h in
    let (t, _, h2) = bind-eq-ok (ok_or protocol_error (snapshots n)) _ h1 in
    let (rest, later, last) = bind-eq-ok (stream_sections snapshots cs n ns) _ h2 in
    let here = changes_at n cs in
    ap (λ l. filter p (rows l)) (sym (ok-injective last))
    ∙ ap (filter p) (rows-append (section s t here) rest)
    ∙ filter-append p (rows (section s t here)) (rows rest)
    ∙ ap (λ l. filter p l ++ filter p (rows rest)) (rows-section s t here)
    ∙ ap (λ l. l ++ filter p (rows rest)) (kept here)
    ∙ ap (λ l. filter p here ++ l) (stream_sections-rows p snapshots cs n ns rest kept later)
    ∙ sym (filter-append p here (gather cs ns))
