-- ===== src/Service/Writes/Locked.antt =====
-- The locked update, from the record that it finds to the rules of its zone.
use bindizr.Base.{
  Bool, true, false, not, List, [], ◌∷◌, nat_eq, list_eq, ◌==◌, eq_of_beq, beq_of_ne, ne_of_beq,
  filter, filter-All, All, All-imp, All-filter, Option, none, some, ok, ok_or, bind-eq-ok,
  ok-injective, fail_if-eq-ok, Bool-cases, inl, inr, ◌≡◌, refl, sym, ap, subst, ◌∙◌, ℤ, int_eq,
}
use bindizr.Name.Owner.{owner_eq}
use bindizr.Record.Kind.{soa, type_eq}
use bindizr.Record.Value.{IpText}
use bindizr.Record.Model.{Record, Zone}
use bindizr.Service.Error.{ErrorCode, invalid_input, record_not_found, zone_not_found}
use bindizr.Service.Serial.{generate_serial}
use bindizr.Service.Validation.{shares_name, validate_add, validate_update}
use bindizr.Service.Validation.Rules.{Coexist, IsConsistent}
use bindizr.Service.Validation.Sound.{validate_add_sound}
use bindizr.Service.Authorization.{Caller, authorize_record_writes}
use bindizr.Service.Store.{Db, in_zone, records_of, records_named}
use bindizr.Service.DynamicUpdate.Apply.{advance_serial}
use bindizr.Service.DynamicUpdate.Apply.Isolation.{IsIdOf, HasKeys}
use bindizr.Service.Writes.{Written, locate, write_of, record_with_id, zone_with_id}
use bindizr.Service.Writes.Update.{
  Resolve, candidate_updated, replace_row, update_record_with_changes, update_in_tx,
}
use bindizr.Service.Writes.Consistency.{advance_serial-rows}
use bindizr.Service.Writes.Replacement.{FitsBeside, replaced-IsConsistent}

record_with_id-found {κ} :
    (P : Record → Type κ) (id : ℤ) (rs : List Record) (r : Record)
    → record_with_id id rs ≡ some r
    → All P rs
    → P r
record_with_id-found P id [] r h k = cc
record_with_id-found P id (s ∷ rs) r h k = elim (Bool-cases (s.id == id)) [
  | inl t ↦ let same : s ≡ r = cc (rw t at h) in subst P same k.0
  | inr f ↦ record_with_id-found P id rs r (rw f at h) k.1
]

ok_or-eq-ok {ℓ} :
    {A : Type ℓ} (e : ErrorCode) (o : Option A) {a : A} → ok_or e o ≡ ok a → o ≡ some a
ok_or-eq-ok e none h = cc
ok_or-eq-ok e (some b) h = ap some (ok-injective h)

not-false : (b : Bool) → not b ≡ false → b ≡ true
not-false true h = refl
not-false false h = cc

-- What a write has in hand once it has found its record.
pub locate-eq-ok :
    (caller : Caller) (zone_id record_id : ℤ) (db : Db) (zone : Zone) (existing : Record)
    → locate caller zone_id record_id db ≡ ok (zone, existing)
    → (zone_with_id zone_id db.zones ≡ some zone)
      × (record_with_id record_id db.records ≡ some existing)
      × (existing.zone_id ≡ zone.id)
unfolding locate
locate-eq-ok caller zone_id record_id db zone existing h =
    let (z, found, h1) = bind-eq-ok (ok_or zone_not_found (zone_with_id zone_id db.zones)) _ h in
    let (r, held, h2) =
      bind-eq-ok (ok_or record_not_found (record_with_id record_id db.records)) _ h1 in
    let (placed, h3) = fail_if-eq-ok (not (r.zone_id == z.id)) record_not_found _ h2 in
    let (_, h4) = fail_if-eq-ok _ record_not_found _ h3 in
    let pair = ok-injective h4 in
    let same_zone : z ≡ zone = ap (λ (p : Zone × Record). p.0) pair in
    let same_row : r ≡ existing = ap (λ (p : Zone × Record). p.1) pair in
    (
      ok_or-eq-ok zone_not_found (zone_with_id zone_id db.zones) found ∙ ap some same_zone,
      ok_or-eq-ok record_not_found (record_with_id record_id db.records) held ∙ ap some same_row,
      sym (ap (λ (x : Record). x.zone_id) same_row)
          ∙ eq_of_beq r.zone_id z.id (not-false _ placed)
          ∙ ap (λ (x : Zone). x.id) same_zone,
    )

module _ (ip : IpText) where
  -- The zone's rows behind a replacement.
  replace_row-in_zone :
      (id : ℤ) (updated : Record) (rs : List Record)
      → updated.zone_id ≡ id
      → All (λ r. r.id ≡ updated.id → r.zone_id ≡ id) rs
      → filter (in_zone id) (replace_row updated rs) ≡ replace_row updated (filter (in_zone id) rs)
  replace_row-in_zone id updated [] z h = refl
  replace_row-in_zone id updated (r ∷ rs) z h =
      let ih = replace_row-in_zone id updated rs z h.1 in
      elim (Bool-cases (r.id == updated.id)) [
        | inl same ↦
            let here = (int_eq.decides r.zone_id id).1 (h.0 (eq_of_beq r.id updated.id same)) in
            let there = (int_eq.decides updated.zone_id id).1 z in
            rw (same, here, there, filter) (rw same (ap (λ l. updated ∷ l) ih))
        | inr apart ↦ elim (Bool-cases (in_zone id r)) [
          | inl t ↦ rw (apart, t, filter) (rw apart (ap (λ l. r ∷ l) ih))
          | inr f ↦ rw (apart, f, filter) ih
        ]
      ]

  pub update_in_tx-IsConsistent :
      (caller : Caller) (resolve : Resolve) (zone_id record_id : ℤ) (db : Db) (zone : Zone)
      (w : Written Record)
      → zone_with_id zone_id db.zones ≡ some zone
      → update_in_tx ip caller resolve zone_id record_id db ≡ ok w
      → HasKeys db
      → IsConsistent ip (records_of zone.id db)
      → IsConsistent ip (records_of zone.id w.db)
  unfolding update_in_tx update_record_with_changes validate_update
  update_in_tx-IsConsistent caller resolve zone_id record_id db zone w found h keys sound =
      let ((z, existing), located, h1) = bind-eq-ok (locate caller zone_id record_id db) _ h in
      let (found', held, placed) = locate-eq-ok caller zone_id record_id db z existing located in
      let same_zone : z ≡ zone = cc (sym found' ∙ found) in
      let (resolved, _, h2) = bind-eq-ok (resolve z existing) _ h1 in
      let updated = candidate_updated z existing resolved in
      let (_, _, h3) =
        bind-eq-ok
          (authorize_record_writes db caller z (
            write_of existing.name existing.record_type
            ∷ write_of resolved.owner_name resolved.record_type
            ∷ []))
          _ h2 in
      let named = records_named z.id resolved.owner_name db in
      let (_, valid, h4) = bind-eq-ok (validate_update ip z named existing updated) _ h3 in
      let (serial, _, h5) = bind-eq-ok (generate_serial (some z.serial)) _ h4 in
      let changed = update_record_with_changes db z.id serial existing updated in
      let (after, advanced, last) = bind-eq-ok (advance_serial changed z serial) _ h5 in
      let (_, admitted) = fail_if-eq-ok (updated.record_type == soa) invalid_input _ valid in
      let (_, added, _) =
        bind-eq-ok
          (validate_add ip named updated.name updated.record_type updated.value updated.ttl
            updated.priority (some existing.id))
          _ admitted in
      let fits = validate_add_sound ip named updated (some existing.id) added in
      let here = records_of z.id db in
      let beside : All (FitsBeside ip updated fits.admissible) here =
        All-imp
          (λ s.
            (s.name == updated.name) ≡ true
            → shares_name updated.name (some existing.id) s ≡ true
            → Coexist ip s updated)
          (FitsBeside ip updated fits.admissible)
          (λ s k apart e.
            let name : (s.name == updated.name) ≡ true =
              (owner_eq.decides s.name updated.name).1 e in
            let other : (existing.id == s.id) ≡ false =
              beq_of_ne existing.id s.id (λ f. ne_of_beq s.id existing.id apart (sym f)) in
            k name (rw (name, other) refl))
          here
          (filter-All
            (λ s. shares_name updated.name (some existing.id) s ≡ true → Coexist ip s updated)
            (λ s. s.name == updated.name) here fits.coexists) in
      let ids : All (λ r. All (IsIdOf r) here) here =
        part z.id (λ r. All (IsIdOf r) here) db.records
          (All-imp (λ r. All (IsIdOf r) db.records) (λ r. All (IsIdOf r) here)
            (λ r k. part z.id (IsIdOf r) db.records k) db.records keys.unique) in
      let same_ids : All (λ r. r.id ≡ updated.id → r.zone_id ≡ z.id) db.records =
        All-imp (IsIdOf existing) (λ r. r.id ≡ updated.id → r.zone_id ≡ z.id)
          (λ r k e. sym (ap (λ (x : Record). x.zone_id) (k (sym e))) ∙ placed) db.records
          (record_with_id-found (λ r. All (IsIdOf r) db.records) record_id db.records existing held
            keys.unique) in
      let sound' : IsConsistent ip here =
        subst (λ (x : Zone). IsConsistent ip (records_of x.id db)) (sym same_zone) sound in
      let replaced : IsConsistent ip (records_of z.id changed) =
        subst (IsConsistent ip) (sym (replace_row-in_zone z.id updated db.records refl same_ids))
          (replaced-IsConsistent ip updated fits.admissible here sound' ids beside) in
      subst (λ (v : Written Record). IsConsistent ip (records_of zone.id v.db)) (ok-injective last)
        (subst (λ (x : Zone). IsConsistent ip (records_of x.id after)) same_zone
          (advance_serial-rows (IsConsistent ip) changed z serial after z.id advanced replaced))
    where
      part :
          (id : ℤ) (P : Record → Type 0) (rs : List Record)
          → All P rs
          → All P (filter (in_zone id) rs)
      part id P rs h =
          All-filter P (in_zone id) rs
            (All-imp P (λ r. in_zone id r ≡ true → P r) (λ r p _. p) rs h)
