-- ===== src/Service/History/Past.antt =====
-- Past serials across an update: the journal behind a transaction still rebuilds every earlier state.
use bindizr.Base.{
  ◌+◌, false, List, [], ◌∷◌, ◌++◌, nat_eq, list_eq, ◌==◌, eq_of_beq, eq_refl, filter-append, length,
  length-append, All, All-imp, Option-cases, ◌≡◌, ◌≢◌, refl, sym, ap, subst, ◌∙◌, ℤ, int_eq,
  int_ltb, int_ltb_irrefl, Bool-cases, inl, inr, arith,
}
use bindizr.Text.{codes}
use bindizr.Record.Kind.{Uppercase, RecordType, from_str}
use bindizr.Record.Value.{IpText}
use bindizr.Service.Store.{ZoneChange, op_add, op_del}
use bindizr.Service.History.{
  ReconstructedRecord, MatchKey, key_eq, has_key, match_key, pop, insert_by_serial, order_by_serial,
  undo_typed, undo, undo_all, comes_before, insert_sorted, sort_records,
}
use bindizr.Service.History.Undo.{
  bucket, SameRows, HasDistinctKeys, pop_last, bucket-pop, bucket-pop_other, sort_records-SameRows,
}

-- Changes of one serial are in order; behind older ones they stay there.
insert_by_serial-append :
    (c : ZoneChange) (xs ys : List ZoneChange)
    → All (λ (y : ZoneChange). int_ltb y.serial c.serial ≡ false) ys
    → insert_by_serial c (xs ++ ys) ≡ insert_by_serial c xs ++ ys
unfolding insert_by_serial
insert_by_serial-append c [] [] h = refl
insert_by_serial-append c [] (y ∷ ys) h = rw (h.0) refl
insert_by_serial-append c (x ∷ xs) ys h = elim (Bool-cases (int_ltb x.serial c.serial)) [
  | inl t ↦ rw t (ap (λ l. x ∷ l) (insert_by_serial-append c xs ys h))
  | inr f ↦ rw f refl
]

order_by_serial-same :
    (serial : ℤ) (ys : List ZoneChange)
    → All (λ (y : ZoneChange). y.serial ≡ serial) ys
    → order_by_serial ys ≡ ys
unfolding order_by_serial insert_by_serial
order_by_serial-same serial [] h = refl
order_by_serial-same serial (y ∷ ys) h =
    let not_after : All (λ (x : ZoneChange). int_ltb x.serial y.serial ≡ false) ys =
      All-imp (λ (x : ZoneChange). x.serial ≡ serial)
        (λ (x : ZoneChange). int_ltb x.serial y.serial ≡ false)
        (λ x e. subst (λ s. int_ltb s y.serial ≡ false) (h.0 ∙ sym e) (int_ltb_irrefl y.serial)) ys
        h.1 in
    ap (insert_by_serial y) (order_by_serial-same serial ys h.1)
    ∙ insert_by_serial-append y [] ys not_after

pub order_by_serial-append :
    (serial : ℤ) (xs ys : List ZoneChange)
    → All (λ (x : ZoneChange). int_ltb serial x.serial ≡ false) xs
    → All (λ (y : ZoneChange). y.serial ≡ serial) ys
    → order_by_serial (xs ++ ys) ≡ order_by_serial xs ++ ys
unfolding order_by_serial
order_by_serial-append serial [] ys h k = order_by_serial-same serial ys k
order_by_serial-append serial (x ∷ xs) ys h k =
    ap (insert_by_serial x) (order_by_serial-append serial xs ys h.1 k)
    ∙ insert_by_serial-append x (order_by_serial xs) ys (
        All-imp (λ (y : ZoneChange). y.serial ≡ serial)
          (λ (y : ZoneChange). int_ltb y.serial x.serial ≡ false)
          (λ y e. subst (λ s. int_ltb s x.serial ≡ false) (sym e) h.0) ys k)

module _ (ip : IpText) (u : Uppercase) where
  pop-cong :
      (j : MatchKey) (s t : List ReconstructedRecord)
      → SameRows ip s t
      → SameRows ip (pop ip j s) (pop ip j t)
  pop-cong j s t h k = elim (Bool-cases (j == k)) [
    | inl e ↦
        let same = eq_of_beq j k e in
        rw same (bucket-pop ip k s ∙ ap pop_last (h k) ∙ sym (bucket-pop ip k t))
    | inr f ↦
        let apart : j ≢ k = λ e. cc (subst (λ i. (i == k) ≡ false) e f, eq_refl k) in
        bucket-pop_other ip k j s apart ∙ h k ∙ sym (bucket-pop_other ip k j t apart)
  ]

  add-cong :
      (r : ReconstructedRecord) (s t : List ReconstructedRecord)
      → SameRows ip s t
      → SameRows ip (s ++ r ∷ []) (t ++ r ∷ [])
  add-cong r s t h k =
      filter-append (has_key ip k) s (r ∷ [])
      ∙ ap (λ l. l ++ bucket ip k (r ∷ [])) (h k)
      ∙ sym (filter-append (has_key ip k) t (r ∷ []))

  undo_typed-cong :
      (kind : RecordType) (c : ZoneChange) (s t : List ReconstructedRecord)
      → SameRows ip s t
      → SameRows ip (undo_typed ip kind c s) (undo_typed ip kind c t)
  unfolding undo_typed
  undo_typed-cong kind c s t h = elim (Bool-cases (c.operation == op_add)) [
    | inl added ↦
        rw added (pop-cong (match_key ip c.record_name kind c.record_value c.record_priority) s t h)
    | inr other ↦ elim (Bool-cases (c.operation == op_del)) [
      | inl deleted ↦ rw (other, deleted) (add-cong _ s t h)
      | inr unknown ↦ rw (other, unknown) h
    ]
  ]

  undo-cong :
      (c : ZoneChange) (s t : List ReconstructedRecord)
      → SameRows ip s t
      → SameRows ip (undo ip u c s) (undo ip u c t)
  unfolding undo
  undo-cong c s t h = elim (Bool-cases (c.record_type == codes "SOA")) [
    | inl is_soa ↦ rw is_soa h
    | inr other ↦ elim (Option-cases (from_str u c.record_type)) [
      | inl unknown ↦ rw (other, unknown) h
      | inr (kind, known) ↦ rw (other, known) (undo_typed-cong kind c s t h)
    ]
  ]

  pub undo_all-cong :
      (cs : List ZoneChange) (s t : List ReconstructedRecord)
      → SameRows ip s t
      → SameRows ip (undo_all ip u cs s) (undo_all ip u cs t)
  unfolding undo_all
  undo_all-cong [] s t h = h
  undo_all-cong (c ∷ cs) s t h =
      undo-cong c (undo_all ip u cs s) (undo_all ip u cs t) (undo_all-cong cs s t h)

module _ (ip : IpText) where
  length-bucket_cons :
      (k : MatchKey) (r : ReconstructedRecord) (rs : List ReconstructedRecord)
      → length (bucket ip k (r ∷ rs)) ≡ length (bucket ip k (r ∷ [])) + length (bucket ip k rs)
  length-bucket_cons k r rs =
      ap length (filter-append (has_key ip k) (r ∷ []) rs)
      ∙ length-append (bucket ip k (r ∷ [])) (bucket ip k rs)

  length-insert_sorted :
      (k : MatchKey) (r : ReconstructedRecord) (rs : List ReconstructedRecord)
      → length (bucket ip k (insert_sorted r rs)) ≡ length (bucket ip k (r ∷ rs))
  unfolding insert_sorted
  length-insert_sorted k r [] = refl
  length-insert_sorted k r (s ∷ ss) = elim (Bool-cases (comes_before s r)) [
    | inr after ↦ rw after refl
    | inl before ↦ rw before (
        omega (
          arith,
          length-insert_sorted k r ss,
          length-bucket_cons k s (insert_sorted r ss),
          length-bucket_cons k r ss,
          length-bucket_cons k r (s ∷ ss),
          length-bucket_cons k s ss,
        ))
  ]

  length-sort_records :
      (k : MatchKey) (rs : List ReconstructedRecord)
      → length (bucket ip k (sort_records rs)) ≡ length (bucket ip k rs)
  unfolding sort_records
  length-sort_records k [] = refl
  length-sort_records k (r ∷ rs) =
      length-insert_sorted k r (sort_records rs)
      ∙ omega (
        arith,
        length-sort_records k rs,
        length-bucket_cons k r (sort_records rs),
        length-bucket_cons k r rs,
      )

  -- Sorting agrees on lists that agree, where no key of the sorted one stands twice.
  pub sort_records-cong :
      (s t : List ReconstructedRecord)
      → HasDistinctKeys ip (sort_records t)
      → SameRows ip s t
      → SameRows ip (sort_records s) (sort_records t)
  sort_records-cong s t distinct h =
      let distinct_t : HasDistinctKeys ip t =
        λ k. omega (arith, distinct k, length-sort_records k t) in
      let distinct_s : HasDistinctKeys ip s = λ k. omega (arith, distinct_t k, ap length (h k)) in
      λ k.
        sort_records-SameRows ip s distinct_s k
        ∙ h k
        ∙ sym (sort_records-SameRows ip t distinct_t k)
