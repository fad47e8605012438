-- ===== src/Service/DynamicUpdate/Apply/Steps.antt =====
-- The updates of a message as steps of the database.
use bindizr.Base.{
  Result-cases, Bool, true, false, ◌||◌, List, [], ◌∷◌, Option, none, some, nat_eq, list_eq,
  option_eq, filter, is_empty, Result, ok, err, ◌>>◌, ok-injective, bind-eq-ok, Bool-cases, inl,
  inr, ◌≡◌, refl, sym, ap, subst, ◌∙◌, ℤ, int_eq,
}
use bindizr.Text.{Str}
use bindizr.Text.Trim.{trim_end_dots}
use bindizr.Name.Zone.{ZoneName}
use bindizr.Name.Zone.Laws.{IsZoneName}
use bindizr.Name.Owner.Laws.{IsOwnerIn, parse_absolute_in_zone-IsOwnerIn}
use bindizr.Name.Owner.{OwnerName, parse_absolute_in_zone, owner_eq}
use bindizr.Record.Kind.{RecordType, type_eq}
use bindizr.Record.Value.{IpText}
use bindizr.Record.Txt.{Base64}
use bindizr.Record.Model.{Record, Zone}
use bindizr.Service.Error.{Service}
use bindizr.Service.Validation.{
  AddOutcome, new, duplicate, resolve_add, validate_delete_constraints,
}
use bindizr.Service.Store.{
  Db, records_of, records_named, insert_records_with_changes, delete_records_with_changes,
}
use bindizr.Service.DynamicUpdate.{
  DynamicUpdateError, refused, lift, UpdateOp, add, delete_rrset, delete_rr, owner_in_zone,
}
use bindizr.Service.DynamicUpdate.Apply.{
  Applied, is_matched, delete_matching, stored_value, new_record, insert_new, add_record, apply_op,
  apply_ops,
}

module _ (ip : IpText) (zone : Zone) (serial : ℤ) where
  -- What one update may do: nothing, add a row that the rules admit, or delete rows of the zone that
  -- it may do without.
  pub data Step : Db → Db → Bool → Type 0 where
    idle : (db : Db) → Step db db false
    inserted :
        (db : Db) (r : Record)
        → r.zone_id ≡ zone.id
        → resolve_add ip
            (records_named zone.id r.name db)
            r.name
            r.record_type
            r.value
            r.ttl
            r.priority
          ≡ ok new
        → (IsZoneName zone.name → IsOwnerIn zone.name r.name)
        → Step db (insert_records_with_changes db zone.id serial (r ∷ [])) true
    deleted :
        (db : Db) (q : Record → Bool)
        → is_empty (filter q (records_of zone.id db)) ≡ false
        → validate_delete_constraints zone (filter q (records_of zone.id db)) ≡ ok tt
        → Step db
            (delete_records_with_changes db zone.id serial (filter q (records_of zone.id db)))
            true

  -- A run of steps, and whether any changed the zone.
  pub data Steps : Db → Db → Bool → Type 0 where
    done : (db : Db) → Steps db db false
    then_step :
        (db : Db) (mid : Db) (last : Db) (first : Bool) (rest : Bool)
        → Step db mid first
        → Steps mid last rest
        → Steps db last (first || rest)

or-false : (a : Bool) → a ≡ (a || false)
or-false true = refl
or-false false = refl

or_assoc : (a b c : Bool) → ((a || b) || c) ≡ (a || (b || c))
or_assoc true b c = refl
or_assoc false b c = refl

pub lift-eq-ok {ℓ} : {A : Type ℓ} (m : Service A) {a : A} → lift m ≡ ok a → m ≡ ok a
lift-eq-ok (ok b) h = cc
lift-eq-ok (err e) h = cc

owner_in_zone-IsOwnerIn :
    (name : Str) (zone : ZoneName) (owner : OwnerName)
    → IsZoneName zone
    → owner_in_zone name zone ≡ ok owner
    → IsOwnerIn zone owner
unfolding owner_in_zone
owner_in_zone-IsOwnerIn name zone owner z h = elim (Bool-cases (is_empty (trim_end_dots name))) [
  | inl t ↦ cc (rw t at h)
  | inr f ↦ elim (Result-cases (parse_absolute_in_zone name zone)) [
    | inl (o, e) ↦
        parse_absolute_in_zone-IsOwnerIn name zone z (e ∙ ap ok (ok-injective (rw (f, e) at h)))
    | inr (x, e) ↦ cc (rw (f, e) at h)
  ]
]

as_refused :
    (m : Service (Unit {0})) (k : Result DynamicUpdateError Applied) {a : Applied}
    → (elim m as (λ _. Result DynamicUpdateError (Unit {0})) [ ok u ↦ ok tt | err e ↦ err refused ]
        >> k)
      ≡ ok a
    → (m ≡ ok tt) × (k ≡ ok a)
as_refused (ok tt) k h = (refl, h)
as_refused (err e) k h = cc

module _ (ip : IpText) where
  delete_matching-Step :
      (db : Db) (zone : Zone) (name : Str) (t : Option RecordType) (value : Option Str)
      (priority : Option ℤ) (serial : ℤ) (s : Applied)
      → delete_matching ip db zone name t value priority serial ≡ ok s
      → Step ip zone serial db s.db s.changed
  unfolding delete_matching
  delete_matching-Step db zone name t value priority serial s h =
      let (owner, _, e) = bind-eq-ok (owner_in_zone name zone.name) _ h in
      let q = is_matched ip owner t value priority in
      let matched = filter q (records_of zone.id db) in
      let left_by = λ (s' : Applied). Step ip zone serial db s'.db s'.changed in
      elim (Bool-cases (is_empty matched)) [
        | inl none_left ↦ subst left_by (ok-injective (rw none_left at e)) (idle db)
        | inr some_left ↦
            let (valid, left) =
              as_refused (validate_delete_constraints zone matched) _ (rw some_left at e) in
            subst left_by (ok-injective left) (deleted db q some_left valid)
      ]

module _ (ip : IpText) (b64 : Base64) where
  insert_new-Step :
      (db : Db) (zone : Zone) (serial : ℤ) (r : Record) (outcome : AddOutcome)
      → r.zone_id ≡ zone.id
      → resolve_add ip
          (records_named zone.id r.name db)
          r.name
          r.record_type
          r.value
          r.ttl
          r.priority
        ≡ ok outcome
      → (IsZoneName zone.name → IsOwnerIn zone.name r.name)
      → Step ip zone serial db
          (insert_new ip b64 db zone serial r outcome).db
          (insert_new ip b64 db zone serial r outcome).changed
  insert_new-Step db zone serial r duplicate z e o = idle db
  insert_new-Step db zone serial r new z e o = inserted db r z e o

  add_record-Step :
      (db : Db) (zone : Zone) (name : Str) (t : RecordType) (value : Str) (ttl : ℤ)
      (priority : Option ℤ) (serial : ℤ) (s : Applied)
      → add_record ip b64 db zone name t value ttl priority serial ≡ ok s
      → Step ip zone serial db s.db s.changed
  unfolding add_record
  add_record-Step db zone name t value ttl priority serial s h =
      let (owner, accepted, e) = bind-eq-ok (owner_in_zone name zone.name) _ h in
      let (stored, _, f) = bind-eq-ok (stored_value ip b64 t value priority) _ e in
      let resolved = resolve_add ip (records_named zone.id owner db) owner t stored ttl priority in
      let (outcome, g, last) = bind-eq-ok (lift resolved) _ f in
      subst (λ (s' : Applied). Step ip zone serial db s'.db s'.changed) (ok-injective last)
        (insert_new-Step db zone serial (new_record ip b64 zone owner t stored ttl priority) outcome
          refl (lift-eq-ok resolved g)
          (λ z. owner_in_zone-IsOwnerIn name zone.name owner z accepted))

  apply_op-Step :
      (db : Db) (zone : Zone) (op : UpdateOp) (serial : ℤ) (s : Applied)
      → apply_op ip b64 db zone op serial ≡ ok s
      → Step ip zone serial db s.db s.changed
  unfolding apply_op
  apply_op-Step db zone (add name t value ttl priority) serial s h =
      add_record-Step db zone name t value ttl priority serial s h
  apply_op-Step db zone (delete_rrset name t) serial s h =
      delete_matching-Step ip db zone name t none none serial s h
  apply_op-Step db zone (delete_rr name t value priority) serial s h =
      delete_matching-Step ip db zone name (some t) (some value) priority serial s h

  -- A run of updates that succeeds is a run of steps; the flag is whether one of them changed the
  -- zone.
  pub apply_ops-Steps :
      (db : Db) (zone : Zone) (serial : ℤ) (changed : Bool) (ops : List UpdateOp) (s : Applied)
      → apply_ops ip b64 db zone serial changed ops ≡ ok s
      → (later : Bool) × Steps ip zone serial db s.db later × (s.changed ≡ (changed || later))
  unfolding apply_ops
  apply_ops-Steps db zone serial changed [] s h =
      let same = ok-injective h in
      (
        false,
        subst (λ (s' : Applied). Steps ip zone serial db s'.db false) same (done db),
        sym (ap (λ (s' : Applied). s'.changed) same) ∙ or-false changed,
      )
  apply_ops-Steps db zone serial changed (op ∷ ops) s h =
      let (mid, e, f) = bind-eq-ok (apply_op ip b64 db zone op serial) _ h in
      let (later, steps, flag) =
        apply_ops-Steps mid.db zone serial (changed || mid.changed) ops s f in
      (
        mid.changed || later,
        then_step db mid.db s.db mid.changed later (apply_op-Step db zone op serial mid e) steps,
        flag ∙ or_assoc changed mid.changed later,
      )
