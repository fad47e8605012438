-- ===== src/Service/Writes/RoundTrip.antt =====
-- A creation and its deletion.
use bindizr.Base.{
  Bool, true, not, [], ◌∷◌, ◌++◌, append-nil, nat_eq, list_eq, ◌==◌, eq_refl, beq_of_ne, filter,
  filter-append, filter-cons_false, All, All-imp, none, some, ok, bind-eq-ok, ok-injective,
  Option-cases, Result-cases, inl, inr, ◌≡◌, ◌≢◌, refl, sym, ap, ◌∙◌, ℕ, ◌<◌, ℤ, pos, int_eq, arith,
}
use bindizr.Text.{Str}
use bindizr.Name.Owner.{owner_eq}
use bindizr.Record.Kind.{Uppercase}
use bindizr.Record.Value.{IpText}
use bindizr.Record.Txt.{Base64}
use bindizr.Record.Model.{Record}
use bindizr.Service.Error.{Service}
use bindizr.Service.Serial.{generate_serial}
use bindizr.Service.Validation.{validate_add, validate_delete_constraints}
use bindizr.Service.Authorization.{Caller, authorize_record_writes}
use bindizr.Service.Store.{
  Db, records_named, with_ids, insert_records_with_changes, delete_records_with_changes,
}
use bindizr.Service.DynamicUpdate.Apply.{advance_serial}
use bindizr.Service.DynamicUpdate.Apply.Outcome.{advance_serial-eq-ok}
use bindizr.Service.DynamicUpdate.Apply.Isolation.{IsGiven, HasKeys, filter-All_true}
use bindizr.Service.Writes.{
  PreparedRecord, normalize_record_owner_name, get_by_name, record_with_id, ttl_or, Written,
  DeletedRecord, CreateRecordRequest, candidate, write_of, create_in_tx, create, locate,
  delete_in_tx, done, delete_by_id,
}
use bindizr.Service.Writes.Outcome.{
  prepared, create-prepared, create-refused, delete_by_id-found, delete_by_id-missing,
}
use bindizr.Service.Writes.Locked.{locate-eq-ok}
use bindizr.Service.Writes.Effect.{finish_tx-cases}
use bindizr.Service.Writes.Deletion.{record_with_id-id, has_id-one}

pos_apart : (n k : ℕ) → k < n → pos k ≢ pos n
pos_apart n k lt e = let same : k ≡ n = cc e in absurd (omega (arith, lt, same))

create_in_tx-inserted :
    (ip : IpText) (caller : Caller) (name : Str) (p : PreparedRecord) (db : Db) (w : Written Record)
    → create_in_tx ip caller name p db ≡ ok w
    → (w.value.id ≡ pos db.next_id) × (w.db.records ≡ db.records ++ w.value ∷ [])
unfolding create_in_tx with_ids insert_records_with_changes
create_in_tx-inserted ip caller name p db w h =
    let (zone, _, h0) = bind-eq-ok (get_by_name db name) _ h in
    let (owner, _, h1) = bind-eq-ok (normalize_record_owner_name p.owner_name zone.name) _ h0 in
    let (_, _, h2) =
      bind-eq-ok (authorize_record_writes db caller zone (write_of owner p.record_type ∷ [])) _
        h1 in
    let ttl = ttl_or p.ttl zone.ttl in
    let rows = candidate zone owner p.record_type p.value ttl p.priority ∷ [] in
    let (_, _, h3) =
      bind-eq-ok
        (validate_add ip (records_named zone.id owner db) owner p.record_type p.value ttl p.priority
          none)
        _ h2 in
    let (serial, _, h4) = bind-eq-ok (generate_serial (some zone.serial)) _ h3 in
    let inserted = insert_records_with_changes db zone.id serial rows in
    let (after, advanced, last) = bind-eq-ok (advance_serial inserted zone serial) _ h4 in
    let (_, _, records, _, _, _) = advance_serial-eq-ok inserted zone serial after advanced in
    let e = ok-injective last in
    (
      sym (ap (λ (v : Written Record). v.value.id) e),
      sym (ap (λ (v : Written Record). v.db.records) e)
          ∙ records
          ∙ ap (λ (v : Written Record). db.records ++ v.value ∷ []) e,
    )

delete_in_tx-taken :
    (caller : Caller) (zone_id record_id : ℤ) (db : Db) (w : Written DeletedRecord)
    → delete_in_tx caller zone_id record_id db ≡ ok w
    → (w.db.records ≡ filter (λ r. not (r.id == record_id)) db.records)
unfolding delete_in_tx delete_records_with_changes
delete_in_tx-taken caller zone_id record_id db w h =
    let ((zone, existing), located, h1) = bind-eq-ok (locate caller zone_id record_id db) _ h in
    let (_, held, _) = locate-eq-ok caller zone_id record_id db zone existing located in
    let (_, _, h2) =
      bind-eq-ok
        (authorize_record_writes db caller zone (write_of existing.name existing.record_type ∷ []))
        _ h1 in
    let (serial, _, h3) = bind-eq-ok (generate_serial (some zone.serial)) _ h2 in
    let (_, _, h4) = bind-eq-ok (validate_delete_constraints zone (existing ∷ [])) _ h3 in
    let deleted = delete_records_with_changes db zone.id serial (existing ∷ []) in
    let (after, advanced, last) = bind-eq-ok (advance_serial deleted zone serial) _ h4 in
    let (_, _, records, _, _, _) = advance_serial-eq-ok deleted zone serial after advanced in
    let same_id = record_with_id-id record_id db.records existing held in
    sym (ap (λ (v : Written DeletedRecord). v.db.records) (ok-injective last))
    ∙ records
    ∙ ap (λ p. filter p db.records) (λ i r. has_id-one record_id existing r same_id i)

-- What a creation that succeeds inserted.
create-inserted :
    (ip : IpText) (b64 : Base64) (u : Uppercase) (commits : Bool) (caller : Caller)
    (r : CreateRecordRequest) (db : Db) (row : Record)
    → (create ip b64 u commits caller r db).0 ≡ ok row
    → (row.id ≡ pos db.next_id)
      × ((create ip b64 u commits caller r db).1.records ≡ db.records ++ row ∷ [])
create-inserted ip b64 u commits caller r db row h =
    elim (Result-cases (prepared ip b64 u commits caller r)) [
      | inr (x, e) ↦ cc (
          sym (
            ap (λ (o : Service Record × Db). o.0) (create-refused ip b64 u commits caller r db x e))
          ∙ h)
      | inl (p, e) ↦
          let run = create-prepared ip b64 u commits caller r db p e in
          elim (finish_tx-cases commits db (create_in_tx ip caller r.zone_name p db)) [
            | inl (x, failed) ↦ cc (sym (ap (λ (o : Service Record × Db). o.0) (run ∙ failed)) ∙ h)
            | inr (w, ran, done) ↦
                let same : w.value ≡ row =
                  ok-injective (sym (ap (λ (o : Service Record × Db). o.0) (run ∙ done)) ∙ h) in
                let (id, records) = created p w ran in
                (
                  sym (ap (λ (x : Record). x.id) same) ∙ id,
                  ap (λ (o : Service Record × Db). o.1.records) (run ∙ done)
                      ∙ records
                      ∙ ap (λ x. db.records ++ x ∷ []) same,
                )
          ]
    ]
  where
    created :
        (p : PreparedRecord) (w : Written Record)
        → create_in_tx ip caller r.zone_name p db ≡ ok w
        → (w.value.id ≡ pos db.next_id) × (w.db.records ≡ db.records ++ w.value ∷ [])
    created p w ran = create_in_tx-inserted ip caller r.zone_name p db w ran

abbrev answered : Service DeletedRecord × Db → Service (Unit {0}) × Db
answered o = (done o.0, o.1)

-- What a deletion that succeeds leaves.
delete_by_id-taken :
    (commits : Bool) (caller : Caller) (record_id : ℤ) (seen db : Db)
    → (delete_by_id commits caller record_id seen db).0 ≡ ok tt
    → (delete_by_id commits caller record_id seen db).1.records
      ≡ filter (λ r. not (r.id == record_id)) db.records
delete_by_id-taken commits caller record_id seen db h =
    elim (Option-cases (record_with_id record_id seen.records)) [
      | inl e ↦ cc (
          sym (
            ap (λ (o : Service (Unit {0}) × Db). o.0)
              (delete_by_id-missing commits caller record_id seen db e))
          ∙ h)
      | inr (r, e) ↦
          let run = delete_by_id-found commits caller record_id seen db r e in
          elim (finish_tx-cases commits db (delete_in_tx caller r.zone_id record_id db)) [
            | inl (x, failed) ↦
                cc (sym (ap (λ (o : Service (Unit {0}) × Db). o.0) (run ∙ ap answered failed)) ∙ h)
            | inr (w, ran, ended) ↦
                ap (λ (o : Service (Unit {0}) × Db). o.1.records) (run ∙ ap answered ended)
                ∙ delete_in_tx-taken caller r.zone_id record_id db w ran
          ]
    ]

-- A record that was created and is then deleted by the id that it got leaves the records table as
-- it was, whoever deletes it and whatever the deletion had seen before.
pub delete_by_id-create :
    (ip : IpText) (b64 : Base64) (u : Uppercase) (commits : Bool) (creator deleter : Caller)
    (r : CreateRecordRequest) (db seen : Db) (row : Record)
    → HasKeys db
    → (create ip b64 u commits creator r db).0 ≡ ok row
    → (delete_by_id commits deleter row.id seen (create ip b64 u commits creator r db).1).0 ≡ ok tt
    → (delete_by_id commits deleter row.id seen (create ip b64 u commits creator r db).1).1.records
      ≡ db.records
delete_by_id-create ip b64 u commits creator deleter r db seen row keys made deleted =
    let mid = (create ip b64 u commits creator r db).1 in
    let (id, inserted) = create-inserted ip b64 u commits creator r db row made in
    let p = λ (s : Record). not (s.id == row.id) in
    let kept : All (λ s. p s ≡ true) db.records =
      All-imp (IsGiven db.next_id) (λ s. p s ≡ true)
        (λ s g.
          let apart = beq_of_ne s.id row.id (λ e. below db.next_id g (e ∙ id)) in rw apart refl)
        db.records keys.given in
    delete_by_id-taken commits deleter row.id seen mid deleted
    ∙ ap (filter p) inserted
    ∙ filter-append p db.records (row ∷ [])
    ∙ ap (λ l. l ++ filter p (row ∷ [])) (filter-All_true p db.records kept)
    ∙ ap (λ l. db.records ++ l) (filter-cons_false p row [] (rw (eq_refl row.id) refl))
    ∙ append-nil db.records
  where
    below : {x : ℤ} (n : ℕ) → (k : ℕ) × (x ≡ pos k) × (k < n) → x ≢ pos n
    below n (k, e, lt) f = pos_apart n k lt (sym e ∙ f)
