-- ===== src/Service/Writes/Effect.antt =====
-- What a batch of creations does to the rows.
use bindizr.Base.{
  Bool, true, false, List, [], ◌∷◌, ◌++◌, append-nil, length, nat_eq, list_eq, ◌==◌, if◌then◌else◌,
  filter, is_empty, none, some, ok, err, bind-eq-ok, ok-injective, map_result, length-map_result,
  Bool-cases, Result-cases, inl, inr, ◌⊎◌, ◌≡◌, refl, sym, ap, ◌∙◌, ℕ, suc, ℤ, int_eq, ◌>>=◌,
}
use bindizr.Text.{Str}
use bindizr.Name.Owner.{owner_eq}
use bindizr.Record.Kind.{Uppercase}
use bindizr.Record.Value.{IpText}
use bindizr.Record.Txt.{Base64}
use bindizr.Record.Model.{Record, Zone}
use bindizr.Service.Error.{ErrorCode, Service, invalid_input, internal}
use bindizr.Service.Serial.{generate_serial}
use bindizr.Service.Validation.{validate_add}
use bindizr.Service.Authorization.{Caller, authorize_record_writes}
use bindizr.Service.Store.{Db, with_ids, insert_records_with_changes}
use bindizr.Service.DynamicUpdate.Apply.{advance_serial}
use bindizr.Service.DynamicUpdate.Apply.Outcome.{advance_serial-eq-ok}
use bindizr.Service.Writes.{
  PreparedRecord, normalize_record_owner_name, get_by_name, ttl_or, Written, written, finish_tx,
  candidate,
}
use bindizr.Service.Writes.Update.{RecordItem}
use bindizr.Service.Writes.Bulk.{
  writes_of, records_named_in, validate_batch, bulk_in_tx, prepare_item, create_bulk,
}

-- A transaction that fails, or whose commit is refused, leaves the tables as they were.
pub finish_tx-cases {ℓ} :
    {A : Type ℓ} (commits : Bool) (db : Db) (m : Service (Written A))
    → ((e : ErrorCode) × (finish_tx commits db m ≡ (err e, db)))
      ⊎ ((w : Written A) × (m ≡ ok w) × (finish_tx commits db m ≡ (ok w.value, w.db)))
unfolding finish_tx
finish_tx-cases commits db (err e) = inl (e, refl)
finish_tx-cases true db (ok w) = inr (w, refl, refl)
finish_tx-cases false db (ok w) = inl (internal, refl)

insert_records :
    (db : Db) (zone_id serial : ℤ) (rows : List Record)
    → (insert_records_with_changes db zone_id serial rows).records
      ≡ db.records ++ with_ids db.next_id rows
unfolding insert_records_with_changes with_ids
insert_records db zone_id serial [] = sym (append-nil db.records)
insert_records db zone_id serial (r ∷ rows) = refl

length-with_ids : (n : ℕ) (rows : List Record) → length (with_ids n rows) ≡ length rows
unfolding with_ids
length-with_ids n [] = refl
length-with_ids n (r ∷ rows) = ap suc (length-with_ids (suc n) rows)

length-validate_batch :
    (ip : IpText) (zone : Zone) (known : List Record) (ps : List PreparedRecord)
    (rows : List Record)
    → validate_batch ip zone known ps ≡ ok rows
    → length rows ≡ length ps
unfolding validate_batch
length-validate_batch ip zone known [] rows h = sym (ap length (ok-injective h))
length-validate_batch ip zone known (p ∷ ps) rows h =
    let (owner, _, h1) = bind-eq-ok (normalize_record_owner_name p.owner_name zone.name) _ h in
    let ttl = ttl_or p.ttl zone.ttl in
    let r = candidate zone owner p.record_type p.value ttl p.priority in
    let (_, _, h2) =
      bind-eq-ok
        (validate_add ip (filter (λ x. x.name == owner) known) owner p.record_type p.value ttl
          p.priority none)
        _ h1 in
    let (rest, later, last) = bind-eq-ok (validate_batch ip zone (known ++ r ∷ []) ps) _ h2 in
    sym (ap length (ok-injective last))
    ∙ ap suc (length-validate_batch ip zone (known ++ r ∷ []) ps rest later)

-- The whole batch is in the tables, or is shown and the tables are as they were.
abbrev pub Landed : Bool → Db → List Record → Db → Type 0
Landed true db rows after = after ≡ db
Landed false db rows after = after.records ≡ db.records ++ rows

bulk_in_tx-Landed :
    (ip : IpText) (caller : Caller) (name : Str) (dry_run : Bool) (ps : List PreparedRecord)
    (db : Db) (w : Written (List Record))
    → bulk_in_tx ip caller name dry_run ps db ≡ ok w
    → (length w.value ≡ length ps) × Landed dry_run db w.value w.db
unfolding bulk_in_tx
bulk_in_tx-Landed ip caller name dry_run ps db w h =
    let (zone, _, h0) = bind-eq-ok (get_by_name db name) _ h in
    let writes = writes_of zone.name ps in
    let known = records_named_in zone.id writes db in
    let (_, _, h1) = bind-eq-ok (authorize_record_writes db caller zone writes) _ h0 in
    let (serial, _, h2) = bind-eq-ok (generate_serial (some zone.serial)) _ h1 in
    let (rows, valid, h3) = bind-eq-ok (validate_batch ip zone known ps) _ h2 in
    landed dry_run zone serial rows (length-validate_batch ip zone known ps rows valid) h3
  where
    landed :
        (dry_run : Bool) (zone : Zone) (serial : ℤ) (rows : List Record)
        → length rows ≡ length ps
        → (if dry_run then ok (written rows db) else do
          after ← advance_serial (insert_records_with_changes db zone.id serial rows) zone serial
          ok (written (with_ids db.next_id rows) after))
          ≡ ok w
        → (length w.value ≡ length ps) × Landed dry_run db w.value w.db
    landed true zone serial rows same h3 =
        let e = ok-injective h3 in
        (
          sym (ap (λ (v : Written (List Record)). length v.value) e) ∙ same,
          sym (ap (λ (v : Written (List Record)). v.db) e),
        )
    landed false zone serial rows same h3 =
        let inserted = insert_records_with_changes db zone.id serial rows in
        let (after, advanced, last) = bind-eq-ok (advance_serial inserted zone serial) _ h3 in
        let (_, _, records, _, _, _) = advance_serial-eq-ok inserted zone serial after advanced in
        let e = ok-injective last in
        (
          sym (ap (λ (v : Written (List Record)). length v.value) e)
              ∙ length-with_ids db.next_id rows
              ∙ same,
          sym (ap (λ (v : Written (List Record)). v.db.records) e)
              ∙ records
              ∙ insert_records db zone.id serial rows
              ∙ ap (λ l. db.records ++ l) (ap (λ (v : Written (List Record)). v.value) e),
        )

module _ (ip : IpText) (b64 : Base64) (u : Uppercase) where
  -- A batch either fails and leaves the tables as they were, or it answers with one row for each item;
  -- then these rows stand at the end of the records table, which is otherwise as it was, or, on a dry
  -- run, all tables are as they were.
  pub create_bulk-all_or_none :
      (commits : Bool) (caller : Caller) (name : Str) (items : List RecordItem) (dry_run : Bool)
      (db : Db)
      → ((e : ErrorCode) × (create_bulk ip b64 u commits caller name items dry_run db
            ≡ (err e, db)))
        ⊎ ((rows : List Record) × (after : Db) × (create_bulk ip b64 u commits caller name items
                dry_run db
              ≡ (ok rows, after))
            × (length rows ≡ length items)
            × Landed dry_run db rows after)
  unfolding create_bulk
  create_bulk-all_or_none commits caller name items dry_run db =
      elim (Bool-cases (is_empty items)) [
        | inl t ↦ inl (invalid_input, rw t refl)
        | inr f ↦ elim (Result-cases (map_result (prepare_item ip b64 u) items)) [
          | inr (x, e) ↦ inl (x, rw (f, e) refl)
          | inl (ps, e) ↦
              elim (finish_tx-cases commits db (bulk_in_tx ip caller name dry_run ps db)) [
                | inl (x, failed) ↦ inl (x, rw (f, e) failed)
                | inr (w, ran, done) ↦
                    let (same, landed) = bulk_in_tx-Landed ip caller name dry_run ps db w ran in
                    inr (
                      w.value,
                      w.db,
                      rw (f, e) done,
                      same ∙ length-map_result (prepare_item ip b64 u) items ps e,
                      landed,
                    )
              ]
        ]
      ]
