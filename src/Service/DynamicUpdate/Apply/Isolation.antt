-- ===== src/Service/DynamicUpdate/Apply/Isolation.antt =====
-- The rows of the other zones, over the steps of an update.
use bindizr.Base.{
  ℕ, suc, ◌<◌, Bool, true, false, not, List, [], ◌∷◌, ◌++◌, append-nil, nat_eq, ◌==◌,
  any-false_of_All, filter, filter-append, is_empty, All, All-append, All-imp, All-zip, All-filter,
  ◌≡◌, ◌≢◌, refl, sym, ap, subst, ◌∙◌, ℤ, pos, int_eq, eq_of_beq, beq_of_ne, arith,
}
use bindizr.Record.Value.{IpText}
use bindizr.Record.Model.{Record, Zone}
use bindizr.Service.Store.{
  Db, in_zone, records_of, has_id, with_id, with_ids, ids_after, insert_records_with_changes,
  delete_records_with_changes,
}
use bindizr.Service.DynamicUpdate.Apply.Steps.{
  Step, idle, inserted, deleted, Steps, done, then_step,
}
use bindizr.Service.DynamicUpdate.Apply.Consistency.{records_of-delete}

-- Rows with one id are one row.
abbrev pub IsIdOf : Record → Record → Type 0
IsIdOf r s = r.id ≡ s.id → r ≡ s

abbrev pub IsGiven : ℕ → Record → Type 0
IsGiven next r = (k : ℕ) × (r.id ≡ pos k) × (k < next)

-- The primary key of the records table: each id stands for one row, and was given out.
pub record HasKeys (db : Db) : Type 0 where
  pub unique : All (λ r. All (IsIdOf r) db.records) db.records
  pub given : All (IsGiven db.next_id) db.records

pub same_rows-HasKeys :
    (db db' : Db) → db'.records ≡ db.records → db'.next_id ≡ db.next_id → HasKeys db → HasKeys db'
same_rows-HasKeys db db' records next_id h = record {
  unique = subst (λ (rs : List Record). All (λ r. All (IsIdOf r) rs) rs) (sym records) h.unique;
  given =
      subst (λ (n : ℕ). All (IsGiven n) db'.records) (sym next_id)
        (subst (All (IsGiven db.next_id)) (sym records) h.given);
}

pub filter-All_true :
    (p : Record → Bool) (rs : List Record) → All (λ r. p r ≡ true) rs → filter p rs ≡ rs
filter-All_true p [] h = refl
filter-All_true p (r ∷ rs) h = rw (h.0, filter) (ap (λ t. r ∷ t) (filter-All_true p rs h.1))

All-filter_any {κ} :
    (P : Record → Type κ) (q : Record → Bool) (rs : List Record) → All P rs → All P (filter q rs)
All-filter_any P q rs h = All-filter P q rs (All-imp P (λ x. q x ≡ true → P x) (λ x p _. p) rs h)

pos-injective : {a b : ℕ} → pos a ≡ pos b → a ≡ b
pos-injective e = cc

not-false : (b : Bool) → b ≡ false → not b ≡ true
not-false true h = cc
not-false false h = refl

-- No row of another zone has the id of a row of the zone.
other_row :
    (zone_id other : ℤ) (q : Record → Bool) (rs : List Record) (r : Record)
    → other ≢ zone_id
    → in_zone other r ≡ true
    → All (IsIdOf r) rs
    → has_id (filter q (filter (in_zone zone_id) rs)) r ≡ false
other_row zone_id other q rs r apart here ids =
    let apart_id : (d : Record) → IsIdOf r d → in_zone zone_id d ≡ true → (d.id == r.id) ≡ false =
      λ d same there. beq_of_ne d.id r.id (λ e. apart (
        sym (eq_of_beq r.zone_id other here)
        ∙ ap (λ (x : Record). x.zone_id) (same (sym e))
        ∙ eq_of_beq d.zone_id zone_id there)) in
    any-false_of_All (λ d. d.id == r.id) (filter q (filter (in_zone zone_id) rs))
      (All-filter_any (λ d. (d.id == r.id) ≡ false) q (filter (in_zone zone_id) rs)
        (All-filter (λ d. (d.id == r.id) ≡ false) (in_zone zone_id) rs
          (All-imp (IsIdOf r) (λ d. in_zone zone_id d ≡ true → (d.id == r.id) ≡ false) apart_id rs
            ids)))

records_of-insert_other :
    (db : Db) (id serial other : ℤ) (r : Record)
    → r.zone_id ≡ id
    → other ≢ id
    → records_of other (insert_records_with_changes db id serial (r ∷ [])) ≡ records_of other db
unfolding insert_records_with_changes with_ids
records_of-insert_other db id serial other r z apart =
    let row = with_id (pos db.next_id) r in
    let outside : in_zone other row ≡ false = beq_of_ne r.zone_id other (λ e. apart (sym e ∙ z)) in
    filter-append (in_zone other) db.records (row ∷ [])
    ∙ rw (outside, filter) (append-nil (filter (in_zone other) db.records))

insert-HasKeys :
    (db : Db) (id serial : ℤ) (r : Record)
    → HasKeys db
    → HasKeys (insert_records_with_changes db id serial (r ∷ []))
unfolding insert_records_with_changes with_ids ids_after
insert-HasKeys db id serial r h =
    let row = with_id (pos db.next_id) r in
    let differs : (s : Record) → IsGiven db.next_id s → s.id ≢ pos db.next_id =
      λ s g e. absurd (omega (arith, g.2, pos-injective (sym g.1 ∙ e))) in
    record {
      unique =
          All-append (λ s. All (IsIdOf s) (db.records ++ row ∷ [])) db.records (row ∷ [])
            (All-imp (λ s. All (IsIdOf s) db.records × IsGiven db.next_id s)
              (λ s. All (IsIdOf s) (db.records ++ row ∷ []))
              (λ s k.
                All-append (IsIdOf s) db.records (row ∷ []) k.0 (λ e. absurd (differs s k.1 e), tt))
              db.records
              (All-zip (λ s. All (IsIdOf s) db.records) (IsGiven db.next_id) db.records h.unique
                h.given))
            (
              All-append (IsIdOf row) db.records (row ∷ [])
                  (All-imp (IsGiven db.next_id) (IsIdOf row) (λ s g e. absurd (differs s g (sym e)))
                    db.records h.given)
                  (λ e. refl, tt),
              tt,
            );
      given =
          All-append (IsGiven (suc db.next_id)) db.records (row ∷ [])
            (All-imp (IsGiven db.next_id) (IsGiven (suc db.next_id))
              (λ s g. (g.0, g.1, omega (arith, g.2))) db.records h.given)
            ((db.next_id, refl, omega arith), tt);
    }

delete-HasKeys :
    (db : Db) (id serial : ℤ) (rs : List Record)
    → is_empty rs ≡ false
    → HasKeys db
    → HasKeys (delete_records_with_changes db id serial rs)
unfolding delete_records_with_changes
delete-HasKeys db id serial rs some_left h =
    let kept = λ (r : Record). not (has_id rs r) in
    rw some_left (record {
      unique =
          All-filter_any (λ r. All (IsIdOf r) (filter kept db.records)) kept db.records
            (All-imp (λ r. All (IsIdOf r) db.records) (λ r. All (IsIdOf r) (filter kept db.records))
              (λ r ids. All-filter_any (IsIdOf r) kept db.records ids) db.records h.unique);
      given = All-filter_any (IsGiven db.next_id) kept db.records h.given;
    })

module _ (ip : IpText) (zone : Zone) (serial : ℤ) where
  Step-other :
      (db db' : Db) (changed : Bool) (other : ℤ)
      → Step ip zone serial db db' changed
      → HasKeys db
      → other ≢ zone.id
      → records_of other db' ≡ records_of other db
  Step-other _ _ _ other (idle db) h apart = refl
  Step-other _ _ _ other (inserted db r z e o) h apart =
      records_of-insert_other db zone.id serial other r z apart
  Step-other _ _ _ other (deleted db q some_left valid) h apart =
      let rs = filter q (records_of zone.id db) in
      records_of-delete db zone.id serial other rs some_left
      ∙ filter-All_true (λ r. not (has_id rs r)) (records_of other db)
          (All-filter (λ r. not (has_id rs r) ≡ true) (in_zone other) db.records
            (All-imp (λ r. All (IsIdOf r) db.records)
              (λ r. in_zone other r ≡ true → not (has_id rs r) ≡ true)
              (λ r ids here.
                not-false (has_id rs r) (other_row zone.id other q db.records r apart here ids))
              db.records h.unique))

  pub Step-HasKeys :
      (db db' : Db) (changed : Bool) → Step ip zone serial db db' changed → HasKeys db → HasKeys db'
  Step-HasKeys _ _ _ (idle db) h = h
  Step-HasKeys _ _ _ (inserted db r z e o) h = insert-HasKeys db zone.id serial r h
  Step-HasKeys _ _ _ (deleted db q some_left valid) h =
      delete-HasKeys db zone.id serial (filter q (records_of zone.id db)) some_left h

  -- No step touches a row of another zone, nor reuses an id.
  pub Steps-other :
      (db db' : Db) (changed : Bool) (other : ℤ)
      → Steps ip zone serial db db' changed
      → HasKeys db
      → other ≢ zone.id
      → HasKeys db' × (records_of other db' ≡ records_of other db)
  Steps-other _ _ _ other (done db) h apart = (h, refl)
  Steps-other _ _ _ other (then_step db mid last first rest step steps) h apart =
      let (keys, same) =
        Steps-other mid last rest other steps (Step-HasKeys db mid first step h) apart in
      (keys, same ∙ Step-other db mid first other step h apart)
