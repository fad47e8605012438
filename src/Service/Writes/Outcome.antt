-- ===== src/Service/Writes/Outcome.antt =====
-- The record service's writes as a whole, on every way that they end.
use bindizr.Base.{
  Bool, false, List, nat_eq, list_eq, ◌==◌, is_empty, none, some, ok, err, map_result, Bool-cases,
  Option-cases, Result-cases, inl, inr, ◌≡◌, refl, sym, subst, ◌∙◌, ℤ, int_eq,
}
use bindizr.Text.{Str}
use bindizr.Name.Owner.{owner_eq}
use bindizr.Record.Kind.{Uppercase}
use bindizr.Record.Value.{IpText}
use bindizr.Record.Txt.{Base64}
use bindizr.Record.Model.{Record, Zone}
use bindizr.Service.Error.{ErrorCode, Service, record_not_found}
use bindizr.Service.Validation.Rules.{IsConsistent}
use bindizr.Service.Authorization.{Caller, zone_visible}
use bindizr.Service.Store.{Db, records_of}
use bindizr.Service.DynamicUpdate.Apply.Isolation.{HasKeys}
use bindizr.Service.Writes.{
  PreparedRecord, prepare_record, get_by_name, record_with_id, zone_with_id, finish_tx,
  CreateRecordRequest, create_in_tx, create, locate, delete_in_tx, done, delete_by_id,
}
use bindizr.Service.Writes.Update.{Resolve, RecordItem, update_in_tx, update_locked}
use bindizr.Service.Writes.Bulk.{bulk_in_tx, prepare_item, create_bulk}
use bindizr.Service.Writes.Consistency.{finish_tx-keeps, create_in_tx-IsConsistent}
use bindizr.Service.Writes.Batch.{bulk_in_tx-IsConsistent}
use bindizr.Service.Writes.Locked.{update_in_tx-IsConsistent}

module _ (ip : IpText) (b64 : Base64) (u : Uppercase) (commits : Bool) (caller : Caller) where
  abbrev pub prepared : CreateRecordRequest → Service PreparedRecord
  prepared r = prepare_record ip b64 u r.name r.record_type r.value r.ttl r.priority

  pub create-prepared :
      (r : CreateRecordRequest) (db : Db) (p : PreparedRecord)
      → prepared r ≡ ok p
      → create ip b64 u commits caller r db
        ≡ finish_tx commits db (create_in_tx ip caller r.zone_name p db)
  unfolding create
  create-prepared r db p e = rw (e, create) refl

  pub create-refused :
      (r : CreateRecordRequest) (db : Db) (e : ErrorCode)
      → prepared r ≡ err e
      → create ip b64 u commits caller r db ≡ (err e, db)
  unfolding create
  create-refused r db x e = rw (e, create) refl

module _ (commits : Bool) (caller : Caller) (record_id : ℤ) (seen db : Db) where
  pub delete_by_id-found :
      (r : Record)
      → record_with_id record_id seen.records ≡ some r
      → delete_by_id commits caller record_id seen db ≡ (
        done (finish_tx commits db (delete_in_tx caller r.zone_id record_id db)).0,
        (finish_tx commits db (delete_in_tx caller r.zone_id record_id db)).1,
      )
  unfolding delete_by_id
  delete_by_id-found r e = rw (e, delete_by_id) refl

  pub delete_by_id-missing :
      record_with_id record_id seen.records ≡ none
      → delete_by_id commits caller record_id seen db ≡ (err record_not_found, db)
  unfolding delete_by_id
  delete_by_id-missing e = rw (e, delete_by_id) refl

  pub update_locked-found :
      (ip : IpText) (resolve : Resolve) (r : Record)
      → record_with_id record_id seen.records ≡ some r
      → update_locked ip commits caller resolve record_id seen db
        ≡ finish_tx commits db (update_in_tx ip caller resolve r.zone_id record_id db)
  unfolding update_locked
  update_locked-found ip resolve r e = rw (e, update_locked) refl

  pub update_locked-missing :
      (ip : IpText) (resolve : Resolve)
      → record_with_id record_id seen.records ≡ none
      → update_locked ip commits caller resolve record_id seen db ≡ (err record_not_found, db)
  unfolding update_locked
  update_locked-missing ip resolve e = rw (e, update_locked) refl

-- What the rows of a zone keep, through an equation of outcomes.
rows_after :
    {A : Type 0} (P : List Record → Type 0) (id : ℤ) {x y : A × Db}
    → x ≡ y
    → P (records_of id y.1)
    → P (records_of id x.1)
rows_after {A} P id e h = subst (λ (o : A × Db). P (records_of id o.1)) (sym e) h

module _ (ip : IpText) (b64 : Base64) (u : Uppercase) where
  -- A creation, whether or not it succeeds, leaves a consistent zone consistent.
  pub create-IsConsistent :
      (commits : Bool) (caller : Caller) (r : CreateRecordRequest) (db : Db) (zone : Zone)
      → get_by_name db r.zone_name ≡ ok zone
      → IsConsistent ip (records_of zone.id db)
      → IsConsistent ip (records_of zone.id (create ip b64 u commits caller r db).1)
  create-IsConsistent commits caller r db zone found sound =
      elim (Result-cases (prepare_record ip b64 u r.name r.record_type r.value r.ttl r.priority)) [
        | inl (p, e) ↦
            rows_after (IsConsistent ip) zone.id (create-prepared ip b64 u commits caller r db p e)
              (finish_tx-keeps (λ d. IsConsistent ip (records_of zone.id d)) commits db
                (create_in_tx ip caller r.zone_name p db) sound
                (λ w h. create_in_tx-IsConsistent ip caller r.zone_name p db zone w found h sound))
        | inr (x, e) ↦
            rows_after (IsConsistent ip) zone.id (create-refused ip b64 u commits caller r db x e)
              sound
      ]

  -- A batch, whether or not it succeeds, leaves a consistent zone consistent: its records keep the
  -- rules against those of the zone and against one another.
  pub create_bulk-IsConsistent :
      (commits : Bool) (caller : Caller) (name : Str) (items : List RecordItem) (dry_run : Bool)
      (db : Db) (zone : Zone)
      → get_by_name db name ≡ ok zone
      → IsConsistent ip (records_of zone.id db)
      → IsConsistent ip
          (records_of zone.id (create_bulk ip b64 u commits caller name items dry_run db).1)
  unfolding create_bulk
  create_bulk-IsConsistent commits caller name items dry_run db zone found sound =
      elim (Bool-cases (is_empty items)) [
        | inl t ↦ rw t sound
        | inr f ↦ elim (Result-cases (map_result (prepare_item ip b64 u) items)) [
          | inl (ps, e) ↦
              rw (f, e)
                (finish_tx-keeps (λ d. IsConsistent ip (records_of zone.id d)) commits db
                  (bulk_in_tx ip caller name dry_run ps db) sound
                  (λ w h.
                    bulk_in_tx-IsConsistent ip caller name dry_run ps db zone w found h sound))
          | inr (x, e) ↦ rw (f, e) sound
        ]
      ]

-- Where each id stands for one row, an update of a record, full or in part, whether or not it
-- succeeds, leaves the zone that the record was seen in consistent if it was.
pub update_locked-IsConsistent :
    (ip : IpText) (commits : Bool) (caller : Caller) (resolve : Resolve) (record_id : ℤ)
    (seen db : Db) (r : Record) (zone : Zone)
    → record_with_id record_id seen.records ≡ some r
    → zone_with_id r.zone_id db.zones ≡ some zone
    → HasKeys db
    → IsConsistent ip (records_of zone.id db)
    → IsConsistent ip
        (records_of zone.id (update_locked ip commits caller resolve record_id seen db).1)
update_locked-IsConsistent ip commits caller resolve record_id seen db r zone there found keys
      sound =
    rows_after (IsConsistent ip) zone.id
      (update_locked-found commits caller record_id seen db ip resolve r there)
      (finish_tx-keeps (λ d. IsConsistent ip (records_of zone.id d)) commits db
        (update_in_tx ip caller resolve r.zone_id record_id db) sound
        (λ w h.
          update_in_tx-IsConsistent ip caller resolve r.zone_id record_id db zone w found h keys
            sound))

locate-hidden :
    (caller : Caller) (zone_id record_id : ℤ) (db : Db) (zone : Zone)
    → zone_with_id zone_id db.zones ≡ some zone
    → zone_visible caller zone.id ≡ false
    → locate caller zone_id record_id db ≡ err record_not_found
unfolding locate
locate-hidden caller zone_id record_id db zone found hidden =
    elim (Option-cases (record_with_id record_id db.records)) [
      | inl e ↦ rw (found, e) refl
      | inr (r, e) ↦ elim (Bool-cases (r.zone_id == zone.id)) [
        | inl t ↦ rw (found, e, t, hidden) refl
        | inr f ↦ rw (found, e, f) refl
      ]
    ]

-- To a caller who may not see the zone of a record, a deletion and an update of it end as those of
-- a record that does not exist, and change nothing.
pub locked_writes-hidden :
    (ip : IpText) (commits : Bool) (caller : Caller) (resolve : Resolve) (record_id : ℤ)
    (seen db : Db) (zone : Zone)
    → ((r : Record)
        → record_with_id record_id seen.records ≡ some r
        → zone_with_id r.zone_id db.zones ≡ some zone)
    → zone_visible caller zone.id ≡ false
    → (delete_by_id commits caller record_id seen db ≡ (err record_not_found, db))
      × (update_locked ip commits caller resolve record_id seen db ≡ (err record_not_found, db))
unfolding delete_in_tx update_in_tx finish_tx
locked_writes-hidden ip commits caller resolve record_id seen db zone found hidden =
    elim (Option-cases (record_with_id record_id seen.records)) [
      | inl e ↦ (
        delete_by_id-missing commits caller record_id seen db e,
        update_locked-missing commits caller record_id seen db ip resolve e,
      )
      | inr (r, e) ↦
          let none_there = locate-hidden caller r.zone_id record_id db zone (found r e) hidden in
          (
            delete_by_id-found commits caller record_id seen db r e
                ∙ rw (none_there, delete_in_tx, finish_tx) refl,
            update_locked-found commits caller record_id seen db ip resolve r e
                ∙ rw (none_there, update_in_tx, finish_tx) refl,
          )
    ]
