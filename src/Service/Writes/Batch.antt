-- ===== src/Service/Writes/Batch.antt =====
-- A batch of creations over the rules of a zone.
use bindizr.Base.{
  if◌then◌else◌, ◌>>=◌, Bool, true, false, ◌||◌, List, [], ◌∷◌, ◌++◌, append-nil, append_assoc,
  nat_eq, list_eq, ◌==◌, eq_of_beq, any, filter, filter-append, filter-cons_true, filter-cons_false,
  All, All-imp, none, some, ok, bind-eq-ok, ok-injective, Result-cases, Bool-cases, inl, inr, ◌≡◌,
  refl, sym, ap, subst, ◌∙◌, ℕ, suc, ℤ, pos, int_eq,
}
use bindizr.Text.{Str}
use bindizr.Name.Zone.{ZoneName}
use bindizr.Name.Owner.{OwnerName, owner_eq}
use bindizr.Record.Value.{IpText}
use bindizr.Record.Model.{Record, Zone}
use bindizr.Service.Serial.{generate_serial}
use bindizr.Service.Validation.{validate_add}
use bindizr.Service.Validation.Rules.{IsConsistent}
use bindizr.Service.Validation.Invariant.{validate_add-IsConsistent}
use bindizr.Service.Authorization.{Caller, RecordWrite, authorize_record_writes}
use bindizr.Service.Store.{Db, in_zone, records_of, with_id, with_ids, insert_records_with_changes}
use bindizr.Service.DynamicUpdate.Apply.{advance_serial}
use bindizr.Service.Writes.{
  PreparedRecord, normalize_record_owner_name, get_by_name, ttl_or, Written, written, candidate,
  write_of,
}
use bindizr.Service.Writes.Bulk.{writes_of, records_named_in, validate_batch, bulk_in_tx}
use bindizr.Service.Writes.Consistency.{with_ids-IsConsistent, advance_serial-rows}

-- The batch's rows, as the loop meets them.
abbrev rows_named : OwnerName → List Record → List Record
rows_named owner rs = filter (λ r. r.name == owner) rs

-- Two lists that hold the same rows of every name in the batch.
abbrev Agree : ZoneName → List PreparedRecord → List Record → List Record → Type 0
Agree zone ps known rs =
    All
      (λ (p : PreparedRecord).
        (owner : OwnerName)
        → normalize_record_owner_name p.owner_name zone ≡ ok owner
        → rows_named owner known ≡ rows_named owner rs)
      ps

module _ (ip : IpText) where
  validate_batch-IsConsistent :
      (zone : Zone) (known rs : List Record) (ps : List PreparedRecord) (rows : List Record)
      → Agree zone.name ps known rs
      → validate_batch ip zone known ps ≡ ok rows
      → IsConsistent ip rs
      → IsConsistent ip (rs ++ rows) × All (λ (r : Record). r.zone_id ≡ zone.id) rows
  unfolding validate_batch
  validate_batch-IsConsistent zone known rs [] rows agree h sound =
      let nothing = ok-injective h in
      subst
        (λ (l : List Record).
          IsConsistent ip (rs ++ l) × All (λ (r : Record). r.zone_id ≡ zone.id) l)
        nothing (subst (IsConsistent ip) (sym (append-nil rs)) sound, tt)
  validate_batch-IsConsistent zone known rs (p ∷ ps) rows agree h sound =
      let (owner, parsed, h1) =
        bind-eq-ok (normalize_record_owner_name p.owner_name zone.name) _ h in
      let ttl = ttl_or p.ttl zone.ttl in
      let r = candidate zone owner p.record_type p.value ttl p.priority in
      let verdict =
        λ (l : List Record). validate_add ip l owner p.record_type p.value ttl p.priority none in
      let (_, valid, h2) = bind-eq-ok (verdict (rows_named owner known)) _ h1 in
      let (rest, later, last) = bind-eq-ok (validate_batch ip zone (known ++ r ∷ []) ps) _ h2 in
      let grown =
        validate_add-IsConsistent ip rs r sound
          (subst (λ l. verdict l ≡ ok tt) (agree.0 owner parsed) valid) in
      let agree' : Agree zone.name ps (known ++ r ∷ []) (rs ++ r ∷ []) =
        All-imp _ _
          (λ q a o e.
            filter-append (λ x. x.name == o) known (r ∷ [])
            ∙ ap (λ l. l ++ rows_named o (r ∷ [])) (a o e)
            ∙ sym (filter-append (λ x. x.name == o) rs (r ∷ [])))
          ps agree.1 in
      let (sound', placed) =
        validate_batch-IsConsistent zone (known ++ r ∷ []) (rs ++ r ∷ []) ps rest agree' later
          grown in
      subst
        (λ (l : List Record).
          IsConsistent ip (rs ++ l) × All (λ (x : Record). x.zone_id ≡ zone.id) l)
        (ok-injective last)
        (subst (IsConsistent ip) (append_assoc rs (r ∷ []) rest) sound', (refl, placed))

-- A filter behind a wider one.
filter-narrow :
    (p q : Record → Bool) (xs : List Record)
    → ((x : Record) → p x ≡ true → q x ≡ true)
    → filter p (filter q xs) ≡ filter p xs
filter-narrow p q [] h = refl
filter-narrow p q (x ∷ xs) h = elim (Bool-cases (q x)) [
  | inl t ↦ ap (filter p) (filter-cons_true q x xs t) ∙ elim (Bool-cases (p x)) [
    | inl s ↦
        filter-cons_true p x (filter q xs) s
        ∙ ap (λ l. x ∷ l) (filter-narrow p q xs h)
        ∙ sym (filter-cons_true p x xs s)
    | inr f ↦
        filter-cons_false p x (filter q xs) f
        ∙ filter-narrow p q xs h
        ∙ sym (filter-cons_false p x xs f)
  ]
  | inr v ↦ elim (Bool-cases (p x)) [
    | inl s ↦ cc (h x s, v)
    | inr f ↦
        ap (filter p) (filter-cons_false q x xs v)
        ∙ filter-narrow p q xs h
        ∙ sym (filter-cons_false p x xs f)
  ]
]

-- The writes list every owner that the batch names.
abbrev IsListed : ZoneName → List RecordWrite → PreparedRecord → Type 0
IsListed zone ws p =
    (owner : OwnerName)
    → normalize_record_owner_name p.owner_name zone ≡ ok owner
    → any (λ (w : RecordWrite). w.relative_name == owner) ws ≡ true

writes_of-IsListed :
    (zone : ZoneName) (ps : List PreparedRecord) → All (IsListed zone (writes_of zone ps)) ps
unfolding writes_of
writes_of-IsListed zone [] = tt
writes_of-IsListed zone (p ∷ ps) =
    let rest = writes_of zone ps in
    let ih = writes_of-IsListed zone ps in
    elim (Result-cases (normalize_record_owner_name p.owner_name zone)) [
      | inl (name, parsed) ↦
          let ws = write_of name p.record_type ∷ rest in
          let listed : All (IsListed zone ws) (p ∷ ps) = (
            λ owner e.
                let same = ok-injective (sym parsed ∙ e) in
                rw ((owner_eq.decides name owner).1 same) refl,
            All-imp (IsListed zone rest) (IsListed zone ws)
                (λ q h owner e. or_true (name == owner) (h owner e)) ps ih,
          ) in
          let here : writes_of zone (p ∷ ps) ≡ ws = rw (parsed, writes_of) refl in
          subst (λ l. All (IsListed zone l) (p ∷ ps)) (sym here) listed
      | inr (x, failed) ↦
          let here : writes_of zone (p ∷ ps) ≡ rest = rw (failed, writes_of) refl in
          let listed : All (IsListed zone rest) (p ∷ ps) = (λ owner e. cc (sym failed ∙ e), ih) in
          subst (λ l. All (IsListed zone l) (p ∷ ps)) (sym here) listed
    ]
  where
    or_true : (b : Bool) {c : Bool} → c ≡ true → (b || c) ≡ true
    or_true true h = refl
    or_true false h = h

with_ids-in_zone :
    (id : ℤ) (n : ℕ) (rows : List Record)
    → All (λ (r : Record). r.zone_id ≡ id) rows
    → filter (in_zone id) (with_ids n rows) ≡ with_ids n rows
unfolding with_ids
with_ids-in_zone id n [] h = refl
with_ids-in_zone id n (r ∷ rows) h =
    filter-cons_true (in_zone id) (with_id (pos n) r) (with_ids (suc n) rows)
      ((int_eq.decides r.zone_id id).1 h.0)
    ∙ ap (λ l. with_id (pos n) r ∷ l) (with_ids-in_zone id (suc n) rows h.1)

records_of-insert_all :
    (db : Db) (id serial : ℤ) (rows : List Record)
    → All (λ (r : Record). r.zone_id ≡ id) rows
    → records_of id (insert_records_with_changes db id serial rows)
      ≡ records_of id db ++ with_ids db.next_id rows
unfolding insert_records_with_changes with_ids
records_of-insert_all db id serial [] h = sym (append-nil (records_of id db))
records_of-insert_all db id serial (r ∷ rows) h =
    filter-append (in_zone id) db.records (with_ids db.next_id (r ∷ rows))
    ∙ ap (λ l. records_of id db ++ l) (with_ids-in_zone id db.next_id (r ∷ rows) h)

module _ (ip : IpText) where
  -- The end of the transaction: nothing on a dry run, and else the insert and the serial.
  bulk_landed :
      (dry_run : Bool) (db : Db) (zone : Zone) (serial : ℤ) (rows : List Record)
      (w : Written (List Record))
      → (if dry_run then ok (written rows db) else do
        after ← advance_serial (insert_records_with_changes db zone.id serial rows) zone serial
        ok (written (with_ids db.next_id rows) after))
        ≡ ok w
      → IsConsistent ip (records_of zone.id db)
      → IsConsistent ip (records_of zone.id (insert_records_with_changes db zone.id serial rows))
      → IsConsistent ip (records_of zone.id w.db)
  bulk_landed true db zone serial rows w h sound grown =
      subst (λ (v : Written (List Record)). IsConsistent ip (records_of zone.id v.db))
        (ok-injective h) sound
  bulk_landed false db zone serial rows w h sound grown =
      let inserted = insert_records_with_changes db zone.id serial rows in
      let (after, advanced, last) = bind-eq-ok (advance_serial inserted zone serial) _ h in
      subst (λ (v : Written (List Record)). IsConsistent ip (records_of zone.id v.db))
        (ok-injective last)
        (advance_serial-rows (IsConsistent ip) inserted zone serial after zone.id advanced grown)

  pub bulk_in_tx-IsConsistent :
      (caller : Caller) (name : Str) (dry_run : Bool) (ps : List PreparedRecord) (db : Db)
      (zone : Zone) (w : Written (List Record))
      → get_by_name db name ≡ ok zone
      → bulk_in_tx ip caller name dry_run ps db ≡ ok w
      → IsConsistent ip (records_of zone.id db)
      → IsConsistent ip (records_of zone.id w.db)
  unfolding bulk_in_tx
  bulk_in_tx-IsConsistent caller name dry_run ps db zone w found h sound =
      let writes = writes_of zone.name ps in
      let here = records_of zone.id db in
      let known = records_named_in zone.id writes db in
      let (_, _, h1) =
        bind-eq-ok (authorize_record_writes db caller zone writes) _ (rw found at h) in
      let (serial, _, h2) = bind-eq-ok (generate_serial (some zone.serial)) _ h1 in
      let (rows, valid, h3) = bind-eq-ok (validate_batch ip zone known ps) _ h2 in
      let agree : Agree zone.name ps known here =
        All-imp (IsListed zone.name writes) _
          (λ p listed owner e.
            filter-narrow (λ r. r.name == owner)
              (λ r. any (λ (w : RecordWrite). w.relative_name == r.name) writes) here
              (λ r t.
                subst
                  (λ (o : OwnerName). any (λ (w : RecordWrite). w.relative_name == o) writes ≡ true)
                  (sym (eq_of_beq r.name owner t)) (listed owner e)))
          ps (writes_of-IsListed zone.name ps) in
      let (grown, placed) =
        validate_batch-IsConsistent ip zone known here ps rows agree valid sound in
      bulk_landed dry_run db zone serial rows w h3 sound (
        subst (IsConsistent ip) (sym (records_of-insert_all db zone.id serial rows placed))
          (with_ids-IsConsistent ip db.next_id here rows grown))
