-- ===== src/Service/History/Refinement.antt =====
-- A zone's history as a function from serials to rows: an update extends it and changes no entry.
use bindizr.Base.{
  Bool, true, false, not, List, ◌++◌, nat_eq, list_eq, ◌==◌, eq_of_beq, filter, filter-append,
  filter-ext, All, All-imp, All-filter, ok, ◌≡◌, refl, sym, ap, subst, ◌∙◌, ℤ, int_eq, int_ltb,
  int_suc, int_ltb_irrefl, int_ltb-suc, int_ltb-suc_false, Bool-cases, and-true, All_of, inl, inr,
  and_false,
}
use bindizr.Name.Zone.Laws.{IsZoneName}
use bindizr.Record.Kind.{Uppercase}
use bindizr.Record.Value.{IpText}
use bindizr.Record.Txt.{Base64}
use bindizr.Record.Model.{Zone}
use bindizr.Service.Store.{Db, ZoneChange}
use bindizr.Service.DynamicUpdate.{DynamicUpdate, find_zone}
use bindizr.Service.DynamicUpdate.Apply.{apply}
use bindizr.Service.History.{
  ReconstructedRecord, in_span, order_by_serial, list_changes_between_serials, undo_all,
  reconstruct_records_at_serial, records_at_serial,
}
use bindizr.Service.History.Undo.{bucket, SameRows, HasDistinctKeys}
use bindizr.Service.History.Keys.{filter-all_false, filter-all_true}
use bindizr.Service.History.Changes.{rows, undo_all-append}
use bindizr.Service.History.Journal.{IsSound, Journaled}
use bindizr.Service.History.Extension.{IsBounded, apply-Extended}
use bindizr.Service.History.Past.{order_by_serial-append, undo_all-cong, sort_records-cong}

-- The changes up to the next serial are those up to this one and those of the next.
pub list_changes-next :
    (db db' : Db) (zone : Zone) (past : ℤ) (gained : List ZoneChange)
    → IsBounded zone db
    → int_ltb zone.serial past ≡ false
    → db'.changes ≡ db.changes ++ gained
    → All (λ (c : ZoneChange). (c.zone_id ≡ zone.id) × (c.serial ≡ int_suc zone.serial)) gained
    → list_changes_between_serials db' zone.id past (int_suc zone.serial)
      ≡ list_changes_between_serials db zone.id past zone.serial ++ gained
unfolding list_changes_between_serials
list_changes-next db db' zone past gained bounded earlier appended stamped =
    let next = int_suc zone.serial in
    let In = in_span zone.id past next in
    let old = in_span zone.id past zone.serial in
    let same : (c : ZoneChange)
        → (c.zone_id ≡ zone.id → int_ltb zone.serial c.serial ≡ false)
        → In c ≡ old c =
      λ c h. elim (Bool-cases (c.zone_id == zone.id)) [
        | inl t ↦
            let here = h (eq_of_beq c.zone_id zone.id t) in
            rw (t, here, int_ltb-suc_false c.serial zone.serial here) refl
        | inr f ↦ rw f refl
      ] in
    let fresh : (c : ZoneChange) → (c.zone_id ≡ zone.id) × (c.serial ≡ next) → In c ≡ true = λ c e.
      let late : int_ltb past c.serial ≡ true =
        subst (λ s. int_ltb past s ≡ true) (sym e.1) (int_ltb-suc past zone.serial earlier) in
      let close : int_ltb next c.serial ≡ false =
        subst (λ s. int_ltb next s ≡ false) (sym e.1) (int_ltb_irrefl next) in
      rw ((int_eq.decides c.zone_id zone.id).1 e.0, late, close) refl in
    let inside : (c : ZoneChange)
        → (c.zone_id ≡ zone.id → int_ltb zone.serial c.serial ≡ false)
        → old c ≡ true
        → int_ltb next c.serial ≡ false =
      λ c h t. int_ltb-suc_false c.serial zone.serial (h (in_span_zone c t)) in
    ap (λ cs. order_by_serial (filter In cs)) appended
    ∙ ap order_by_serial (filter-append In db.changes gained)
    ∙ ap order_by_serial (
        ap (λ l. l ++ filter In gained)
          (filter-ext In old db.changes (All-imp _ (λ c. In c ≡ old c) same db.changes bounded))
        ∙ ap (λ l. filter old db.changes ++ l)
            (filter-all_true In gained (All-imp _ _ fresh gained stamped)))
    ∙ order_by_serial-append next (filter old db.changes) gained
        (All-filter (λ (c : ZoneChange). int_ltb next c.serial ≡ false) old db.changes
          (All-imp _ (λ (c : ZoneChange). old c ≡ true → int_ltb next c.serial ≡ false) inside
            db.changes bounded))
        (All-imp _ (λ (c : ZoneChange). c.serial ≡ next) (λ c e. e.1) gained stamped)
  where
    in_span_zone :
        (c : ZoneChange) → in_span zone.id past zone.serial c ≡ true → c.zone_id ≡ zone.id
    in_span_zone c t = eq_of_beq c.zone_id zone.id (and-true (c.zone_id == zone.id) _ t).0

-- At the current serial there is nothing to undo.
records_at_serial-reconstruct :
    (ip : IpText) (u : Uppercase) (db : Db) (zone_id serial current : ℤ)
    → records_at_serial ip u db zone_id serial current
      ≡ reconstruct_records_at_serial ip u db zone_id serial current
unfolding records_at_serial reconstruct_records_at_serial list_changes_between_serials
    order_by_serial undo_all
records_at_serial-reconstruct ip u db zone_id serial current =
    elim (Bool-cases (serial == current)) [
      | inr f ↦ rw f refl
      | inl t ↦
          let same = eq_of_beq serial current t in
          let empty_span : (c : ZoneChange) → in_span zone_id serial current c ≡ false = λ c.
            and_false (c.zone_id == zone_id) _ (λ _.
              and_false (int_ltb serial c.serial) (not (int_ltb current c.serial))
                (λ before. rw (subst (λ s. int_ltb s c.serial ≡ true) same before) refl)) in
          let nothing =
            filter-all_false (in_span zone_id serial current) db.changes
              (All_of (λ c. in_span zone_id serial current c ≡ false) empty_span db.changes) in
          rw (t, nothing) refl
    ]

module _ (ip : IpText) (b64 : Base64) (u : Uppercase) where
  reconstruct-next :
      (db db' : Db) (zone : Zone) (past : ℤ)
      → IsBounded zone db
      → int_ltb zone.serial past ≡ false
      → Journaled ip u zone (int_suc zone.serial) db db'
      → HasDistinctKeys ip (reconstruct_records_at_serial ip u db zone.id past zone.serial)
      → SameRows ip
          (reconstruct_records_at_serial ip u db' zone.id past (int_suc zone.serial))
          (reconstruct_records_at_serial ip u db zone.id past zone.serial)
  unfolding reconstruct_records_at_serial
  reconstruct-next db db' zone past bounded earlier journaled distinct =
      let old = list_changes_between_serials db zone.id past zone.serial in
      let split =
        list_changes-next db db' zone past journaled.gained bounded earlier journaled.appended
          journaled.stamped in
      let undone = undo_all-cong ip u old _ _ (journaled.undone (rows zone db') (λ k. refl)) in
      sort_records-cong ip
        (undo_all ip u (list_changes_between_serials db' zone.id past (int_suc zone.serial))
          (rows zone db'))
        (undo_all ip u old (rows zone db)) distinct
        (subst (λ (s : List ReconstructedRecord). SameRows ip s (undo_all ip u old (rows zone db)))
          (sym (
            ap (λ cs. undo_all ip u cs (rows zone db')) split
            ∙ undo_all-append ip u old journaled.gained (rows zone db')))
          undone)

  -- An update that changes a sound zone, whose name is canonical and whose journal runs no further
  -- than its serial, moves it to the next serial and leaves its history as it was: at each earlier
  -- serial, the serial before the update included, at which no two rows shared a match key, the
  -- records that are rebuilt behind the update are those that were rebuilt before it, up to order.
  pub apply-records_at_serial :
      (commits : Bool) (db : Db) (update : DynamicUpdate) (zone : Zone) (past : ℤ)
      → IsZoneName zone.name
      → IsSound ip zone db
      → IsBounded zone db
      → find_zone db update.zone_name ≡ ok zone
      → (apply ip b64 commits db update).0 ≡ ok true
      → int_ltb zone.serial past ≡ false
      → HasDistinctKeys ip (records_at_serial ip u db zone.id past zone.serial)
      → SameRows ip
          (records_at_serial ip u
            (apply ip b64 commits db update).1
            zone.id
            past
            (int_suc zone.serial))
          (records_at_serial ip u db zone.id past zone.serial)
  apply-records_at_serial commits db update zone past canonical sound bounded found h earlier
        distinct =
      let e = apply-Extended ip b64 u commits db update zone canonical sound found h in
      let db' = (apply ip b64 commits db update).1 in
      let before = records_at_serial-reconstruct ip u db zone.id past zone.serial in
      let after = records_at_serial-reconstruct ip u db' zone.id past (int_suc zone.serial) in
      let distinct' = subst (HasDistinctKeys ip) before distinct in
      λ k.
        ap (bucket ip k) after
        ∙ reconstruct-next db db' zone past bounded earlier e.journaled distinct' k
        ∙ sym (ap (bucket ip k) before)
