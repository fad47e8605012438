-- ===== src/Service/Writes/Granted.antt =====
-- The leave that an update of a record needs.
use bindizr.Base.{
  Bool, List, [], ◌∷◌, some, ok, bind-eq-ok, ok-injective, Option-cases, inl, inr, All, ◌≡◌, sym,
  ap, subst, ◌∙◌, ℤ,
}
use bindizr.Record.Value.{IpText}
use bindizr.Record.Model.{Record, Zone}
use bindizr.Service.Error.{Service}
use bindizr.Service.Serial.{generate_serial}
use bindizr.Service.Validation.{validate_update}
use bindizr.Service.Authorization.{token, authorize_record_writes}
use bindizr.Service.Authorization.Laws.{IsGranted, authorize_record_writes_iff}
use bindizr.Service.Store.{ZonePolicy, Db, policies_of, records_named}
use bindizr.Service.DynamicUpdate.Apply.{advance_serial}
use bindizr.Service.Writes.{Written, record_with_id, locate, write_of}
use bindizr.Service.Writes.Update.{
  Resolve, candidate_updated, update_record_with_changes, update_in_tx, update_locked,
}
use bindizr.Service.Writes.Effect.{finish_tx-cases}
use bindizr.Service.Writes.Locked.{locate-eq-ok}
use bindizr.Service.Writes.Outcome.{update_locked-found, update_locked-missing}

-- The record that an update replaced, in a zone where the token holds policies that cover what the
-- record was and what it has become.
pub record MayUpdate (id : ℤ) (db : Db) (record_id : ℤ) (row : Record) : Type 0 where
  pub existing : Record
  pub zone : Zone
  pub held : record_with_id record_id db.records ≡ some existing
  pub placed : existing.zone_id ≡ zone.id
  pub granted :
      All
        (IsGranted (policies_of zone.id id db.token_policies))
        (write_of existing.name existing.record_type ∷ write_of row.name row.record_type ∷ [])

module _ (ip : IpText) (id : ℤ) (grants : List ZonePolicy) (resolve : Resolve) (record_id : ℤ)
    (db : Db) where
  update_in_tx-MayUpdate :
      (zone_id : ℤ) (w : Written Record)
      → update_in_tx ip (token id grants) resolve zone_id record_id db ≡ ok w
      → MayUpdate id db record_id w.value
  unfolding update_in_tx
  update_in_tx-MayUpdate zone_id w h =
      let caller = token id grants in
      let ((zone, existing), located, h1) = bind-eq-ok (locate caller zone_id record_id db) _ h in
      let (_, held, placed) = locate-eq-ok caller zone_id record_id db zone existing located in
      let (resolved, _, h2) = bind-eq-ok (resolve zone existing) _ h1 in
      let updated = candidate_updated zone existing resolved in
      let writes =
        write_of existing.name existing.record_type
        ∷ write_of resolved.owner_name resolved.record_type
        ∷ [] in
      let (_, allowed, h3) = bind-eq-ok (authorize_record_writes db caller zone writes) _ h2 in
      let (_, _, h4) =
        bind-eq-ok
          (validate_update ip zone (records_named zone.id resolved.owner_name db) existing updated)
          _ h3 in
      let (serial, _, h5) = bind-eq-ok (generate_serial (some zone.serial)) _ h4 in
      let changed = update_record_with_changes db zone.id serial existing updated in
      let (after, _, last) = bind-eq-ok (advance_serial changed zone serial) _ h5 in
      let (_, granted) = (authorize_record_writes_iff db id grants zone writes).0 allowed in
      subst (λ (v : Written Record). MayUpdate id db record_id v.value) (ok-injective last)
        (record {
          existing = existing;
          zone = zone;
          held = held;
          placed = placed;
          granted = granted;
        })

  -- An update that succeeds for a token replaced a record of a zone for which the token holds, in the
  -- tables of the transaction, a policy that covers the name and type that the record had and one
  -- that covers those that it got.
  pub update_locked-MayUpdate :
      (commits : Bool) (seen : Db) (row : Record)
      → (update_locked ip commits (token id grants) resolve record_id seen db).0 ≡ ok row
      → MayUpdate id db record_id row
  update_locked-MayUpdate commits seen row h =
      let caller = token id grants in
      elim (Option-cases (record_with_id record_id seen.records)) [
        | inl e ↦ cc (
            sym (
              ap (λ (o : Service Record × Db). o.0)
                (update_locked-missing commits caller record_id seen db ip resolve e))
            ∙ h)
        | inr (r, e) ↦
            let run = update_locked-found commits caller record_id seen db ip resolve r e in
            elim (finish_tx-cases commits db
              (update_in_tx ip caller resolve r.zone_id record_id db)) [
                | inl (x, failed) ↦
                    cc (sym (ap (λ (o : Service Record × Db). o.0) (run ∙ failed)) ∙ h)
                | inr (w, ran, done) ↦
                    let same : w.value ≡ row =
                      ok-injective (sym (ap (λ (o : Service Record × Db). o.0) (run ∙ done)) ∙ h) in
                    subst (MayUpdate id db record_id) same (update_in_tx-MayUpdate r.zone_id w ran)
              ]
      ]
