-- ===== src/Service/Writes/Deletion.antt =====
-- What a deletion by id takes out of the tables.
use bindizr.Base.{
  true, false, not, List, [], ◌∷◌, ◌++◌, nat_eq, list_eq, ◌==◌, eq_of_beq, beq_of_ne, ne_of_beq,
  filter, some, Bool-cases, inl, inr, ◌≡◌, ◌≢◌, refl, sym, ap, ◌∙◌, ℤ, int_eq, int_suc,
}
use bindizr.Name.Owner.{owner_eq}
use bindizr.Record.Kind.{soa, type_eq}
use bindizr.Record.Model.{Record, Zone, is_primary_ns}
use bindizr.Service.Authorization.Laws.{IsGranted}
use bindizr.Service.Store.{Db, policies_of, op_del, change_of, set_serial, has_id}
use bindizr.Service.Writes.{record_with_id, write_of}

-- The tables behind the deletion of a record by a token.
pub record Deleted (id : ℤ) (db : Db) (record_id : ℤ) (after : Db) : Type 0 where
  pub existing : Record
  pub zone : Zone
  pub held : record_with_id record_id db.records ≡ some existing
  pub placed : existing.zone_id ≡ zone.id
  pub granted :
      IsGranted
        (policies_of zone.id id db.token_policies)
        (write_of existing.name existing.record_type)
  pub not_soa : existing.record_type ≢ soa
  pub not_primary_ns : is_primary_ns zone existing.record_type existing.name existing.value ≡ false
  pub left : after.records ≡ filter (λ r. not (r.id == record_id)) db.records
  pub journaled :
      after.changes ≡ db.changes ++ change_of zone.id (int_suc zone.serial) op_del existing ∷ []
  pub advanced : after.zones ≡ set_serial zone.id (int_suc zone.serial) db.zones

pub record_with_id-id :
    (id : ℤ) (rs : List Record) (r : Record) → record_with_id id rs ≡ some r → r.id ≡ id
record_with_id-id id [] r h = cc
record_with_id-id id (s ∷ rs) r h = elim (Bool-cases (s.id == id)) [
  | inl t ↦
      let same : s ≡ r = cc (rw t at h) in
      sym (ap (λ (x : Record). x.id) same) ∙ eq_of_beq s.id id t
  | inr f ↦ record_with_id-id id rs r (rw f at h)
]

-- The rows without the id of one of them.
pub has_id-one :
    (id : ℤ) (existing r : Record)
    → existing.id ≡ id
    → not (has_id (existing ∷ []) r) ≡ not (r.id == id)
has_id-one id existing r e = elim (Bool-cases (r.id == id)) [
  | inl t ↦
      let same : (existing.id == r.id) ≡ true =
        (int_eq.decides existing.id r.id).1 (e ∙ sym (eq_of_beq r.id id t)) in
      rw (t, same) refl
  | inr f ↦
      let apart : (existing.id == r.id) ≡ false =
        beq_of_ne existing.id r.id (λ g. ne_of_beq r.id id f (sym g ∙ e)) in
      rw (f, apart) refl
]
