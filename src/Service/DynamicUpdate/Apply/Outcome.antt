-- ===== src/Service/DynamicUpdate/Apply/Outcome.antt =====
-- What a transaction that succeeds went through, part by part.
use bindizr.Base.{
  Bool, true, false, not, ◌&&◌, List, [], ◌∷◌, some, nat_eq, ◌==◌, list_eq, any, is_empty, Result,
  ok, err, ok-injective, bind-eq-ok, fail_if-eq-ok, Option-cases, Bool-cases, inl, inr, ◌≡◌, refl,
  sym, ap, subst, ◌∙◌, ℤ, int_eq, All,
}
use bindizr.Text.{Str}
use bindizr.Name.Zone.{ZoneName}
use bindizr.Name.Owner.{OwnerName}
use bindizr.Record.Value.{IpText}
use bindizr.Record.Txt.{Base64}
use bindizr.Record.Mailbox.{from_email}
use bindizr.Record.Model.{Zone}
use bindizr.Service.Serial.{generate_serial}
use bindizr.Service.Authorization.{grants_write}
use bindizr.Service.Store.{
  ZonePolicy, ZoneSnapshot, Db, records_of, policies_of, first_named, set_serial, upsert_snapshot,
  with_serial, snapshot_at, insert_records_with_changes, delete_records_with_changes,
}
use bindizr.Service.DynamicUpdate.{
  DynamicUpdateError, lift, normalize_zone_name, UpdateOp, op_name, op_type, TsigKey, DynamicUpdate,
  owner_in_zone, find_zone, located, authorize_update, authorize_ops, authorize_key,
  evaluate_prerequisites, refused,
}
use bindizr.Service.DynamicUpdate.Apply.{
  Applied, applied, apply_ops, advance_serial, save_snapshot, snapshot_of, close_update, run,
  finish_tx,
}
use bindizr.Service.DynamicUpdate.Apply.Steps.{
  idle, inserted, deleted, Steps, done, then_step, apply_ops-Steps, lift-eq-ok,
}

pub close_update-eq-ok :
    (s : Applied) (zone : Zone) (serial : ℤ) (s' : Applied)
    → close_update s zone serial ≡ ok s'
    → (s'.changed ≡ s.changed)
      × (s.changed ≡ false → s'.db ≡ s.db)
      × (s.changed ≡ true → advance_serial s.db zone serial ≡ ok s'.db)
unfolding close_update
close_update-eq-ok s zone serial s' h = elim (Bool-cases s.changed) [
  | inl t ↦
      let (db, advanced, e) =
        bind-eq-ok (lift (advance_serial s.db zone serial)) (λ db. ok (applied true db))
          (rw t at h) in
      let same = ok-injective e in
      (
        sym (ap (λ (x : Applied). x.changed) same) ∙ sym t,
        λ f. cc,
        λ _.
            lift-eq-ok (advance_serial s.db zone serial) advanced
            ∙ ap (λ (x : Applied). ok x.db) same,
      )
  | inr f ↦
      let same = ok-injective (rw f at h) in
      (
        sym (ap (λ (x : Applied). x.changed) same) ∙ sym f,
        λ _. sym (ap (λ (x : Applied). x.db) same),
        λ t. cc,
      )
]

module _ (ip : IpText) (b64 : Base64) where
  -- What a transaction that succeeds went through.
  pub record Ran (db : Db) (update : DynamicUpdate) (s : Applied) : Type 0 where
    pub zone : Zone
    pub found : find_zone db update.zone_name ≡ ok zone
    pub authorized : authorize_key db zone update.key update.updates ≡ ok tt
    pub satisfied :
        evaluate_prerequisites ip zone.name (records_of zone.id db) update.prerequisites ≡ ok tt
    pub serial : ℤ
    pub next : generate_serial (some zone.serial) ≡ ok serial
    pub mid : Applied
    pub stepped : Steps ip zone serial db mid.db mid.changed
    pub closed : close_update mid zone serial ≡ ok s

  pub run-Ran :
      (db : Db) (update : DynamicUpdate) (s : Applied)
      → run ip b64 db update ≡ ok s
      → Ran db update s
  unfolding run
  run-Ran db update s h =
      let (zone, found, h1) = bind-eq-ok (find_zone db update.zone_name) _ h in
      let (_, authorized, h2) = bind-eq-ok (authorize_key db zone update.key update.updates) _ h1 in
      let (_, satisfied, h3) =
        bind-eq-ok
          (evaluate_prerequisites ip zone.name (records_of zone.id db) update.prerequisites) _ h2 in
      let (serial, next, h4) = bind-eq-ok (lift (generate_serial (some zone.serial))) _ h3 in
      let (mid, ops, h5) = bind-eq-ok (apply_ops ip b64 db zone serial false update.updates) _ h4 in
      let (later, steps, flag) =
        apply_ops-Steps ip b64 db zone serial false update.updates mid ops in
      record {
        zone = zone;
        found = found;
        authorized = authorized;
        satisfied = satisfied;
        serial = serial;
        next = lift-eq-ok (generate_serial (some zone.serial)) next;
        mid = mid;
        stepped = subst (Steps ip zone serial db mid.db) (sym flag) steps;
        closed = h5;
      }

-- The database that a transaction leaves.
pub finish_tx-ok :
    (commits : Bool) (db : Db) (m : Result DynamicUpdateError Applied) (b : Bool)
    → (finish_tx commits db m).0 ≡ ok b
    → (s : Applied) × (m ≡ ok s) × (s.changed ≡ b) × ((finish_tx commits db m).1 ≡ s.db)
unfolding finish_tx
finish_tx-ok true db (ok s) b h = (s, refl, ok-injective h, refl)
finish_tx-ok false db (ok s) b h = cc
finish_tx-ok commits db (err e) b h = cc

pub finish_tx-err :
    (commits : Bool) (db : Db) (m : Result DynamicUpdateError Applied) (e : DynamicUpdateError)
    → (finish_tx commits db m).0 ≡ err e
    → (finish_tx commits db m).1 ≡ db
unfolding finish_tx
finish_tx-err true db (ok s) e h = cc
finish_tx-err false db (ok s) e h = refl
finish_tx-err commits db (err f) e h = refl

-- What an advance of the serial leaves.
pub advance_serial-eq-ok :
    (db : Db) (zone : Zone) (serial : ℤ) (db' : Db)
    → advance_serial db zone serial ≡ ok db'
    → (mailbox : Str) × (from_email zone.admin_email ≡ some mailbox)
      × (db'.records ≡ db.records)
      × (db'.next_id ≡ db.next_id)
      × (db'.zones ≡ set_serial zone.id serial db.zones)
      × (db'.snapshots ≡ upsert_snapshot (snapshot_of zone serial mailbox) db.snapshots)
unfolding advance_serial save_snapshot
advance_serial-eq-ok db zone serial db' h = elim (Option-cases (from_email zone.admin_email)) [
  | inl e ↦ cc (rw (e, advance_serial, save_snapshot) at h)
  | inr (mailbox, e) ↦
      let same = ok-injective (rw (e, advance_serial, save_snapshot) at h) in
      (
        mailbox,
        e,
        sym (ap (λ (d : Db). d.records) same),
        sym (ap (λ (d : Db). d.next_id) same),
        sym (ap (λ (d : Db). d.zones) same),
        sym (ap (λ (d : Db). d.snapshots) same),
      )
]

first_named-set_serial :
    (name : Str) (serial : ℤ) (zs : List Zone) (z : Zone)
    → first_named name zs ≡ some z
    → first_named name (set_serial z.id serial zs) ≡ some (with_serial serial z)
first_named-set_serial name serial [] z h = cc
first_named-set_serial name serial (y ∷ ys) z h = elim (Bool-cases (y.name.text == name)) [
  | inl t ↦
      let same : y ≡ z = cc (rw t at h) in
      let same_id : (y.id == z.id) ≡ true =
        (int_eq.decides y.id z.id).1 (ap (λ (x : Zone). x.id) same) in
      rw (same_id, t) (ap (λ x. some (with_serial serial x)) same)
  | inr f ↦
      let rest = first_named-set_serial name serial ys z (rw f at h) in
      elim (Bool-cases (y.id == z.id)) [ inl i ↦ rw (i, f) rest | inr j ↦ rw (j, f) rest ]
]

pub snapshot_at-upsert_snapshot :
    (s : ZoneSnapshot) (ss : List ZoneSnapshot)
    → snapshot_at s.zone_id s.serial (upsert_snapshot s ss) ≡ some s
unfolding snapshot_at upsert_snapshot
snapshot_at-upsert_snapshot s [] =
    rw ((int_eq.decides s.zone_id s.zone_id).1 refl, (int_eq.decides s.serial s.serial).1 refl) refl
snapshot_at-upsert_snapshot s (t ∷ ts) =
    elim (Bool-cases (t.zone_id == s.zone_id && t.serial == s.serial)) [
      | inl same ↦
          rw
            (
              same,
              (int_eq.decides s.zone_id s.zone_id).1 refl,
              (int_eq.decides s.serial s.serial).1 refl,
            )
            refl
      | inr other ↦ rw (other, other) (snapshot_at-upsert_snapshot s ts)
    ]

pub Steps-zones :
    (ip : IpText) (zone : Zone) (serial : ℤ) (db db' : Db) (changed : Bool)
    → Steps ip zone serial db db' changed
    → db'.zones ≡ db.zones
unfolding insert_records_with_changes delete_records_with_changes
Steps-zones ip zone serial _ _ _ (done db) = refl
Steps-zones ip zone serial _ _ _ (then_step db mid last first rest (idle _) steps) =
    Steps-zones ip zone serial mid last rest steps
Steps-zones ip zone serial _ _ _ (then_step db mid last first rest (inserted _ r z k o) steps) =
    Steps-zones ip zone serial mid last rest steps
Steps-zones ip zone serial _ _ _ (then_step db mid last first rest (deleted _ q k l) steps) =
    Steps-zones ip zone serial mid last rest steps ∙ rw k refl

pub close_update-records :
    (s : Applied) (zone : Zone) (serial : ℤ) (s' : Applied)
    → close_update s zone serial ≡ ok s'
    → s'.db.records ≡ s.db.records
close_update-records s zone serial s' h =
    let (_, kept, advance) = close_update-eq-ok s zone serial s' h in
    elim (Bool-cases s.changed) [
      | inl t ↦
          let (_, _, records, _, _, _) = advance_serial-eq-ok s.db zone serial s'.db (advance t) in
          records
      | inr f ↦ ap (λ (d : Db). d.records) (kept f)
    ]

pub close_update-next_id :
    (s : Applied) (zone : Zone) (serial : ℤ) (s' : Applied)
    → close_update s zone serial ≡ ok s'
    → s'.db.next_id ≡ s.db.next_id
close_update-next_id s zone serial s' h =
    let (_, kept, advance) = close_update-eq-ok s zone serial s' h in
    elim (Bool-cases s.changed) [
      | inl t ↦
          let (_, _, _, next_id, _, _) = advance_serial-eq-ok s.db zone serial s'.db (advance t) in
          next_id
      | inr f ↦ ap (λ (d : Db). d.next_id) (kept f)
    ]

not-false : (b : Bool) → not b ≡ false → b ≡ true
not-false true h = refl
not-false false h = cc

pub find_zone-set_serial :
    (db db' : Db) (name : Str) (zone : Zone) (serial : ℤ)
    → find_zone db name ≡ ok zone
    → db'.zones ≡ set_serial zone.id serial db.zones
    → find_zone db' name ≡ ok (with_serial serial zone)
unfolding find_zone
find_zone-set_serial db db' name zone serial h zones =
    let (lookup, normal, e) = bind-eq-ok (lift (normalize_zone_name name)) _ h in
    elim (Option-cases (first_named lookup.text db.zones)) [
      | inl missing ↦ cc (rw missing at e)
      | inr (z, there) ↦
          let same : z ≡ zone = ok-injective (rw there at e) in
          let there' : first_named lookup.text db.zones ≡ some zone = there ∙ ap some same in
          let later : located (first_named lookup.text (set_serial zone.id serial db.zones))
              ≡ ok (with_serial serial zone) =
            rw (first_named-set_serial lookup.text serial db.zones zone there') refl in
          rw (normal, zones) later
    ]

-- What a change leaves of a zone: the next serial, and the snapshot that secondaries read.
abbrev pub Advanced : Str → Zone → Db → Type 0
Advanced name zone db =
    (serial : ℤ) × (mailbox : Str) × (generate_serial (some zone.serial) ≡ ok serial)
    × (find_zone db name ≡ ok (with_serial serial zone))
    × (snapshot_at zone.id serial db.snapshots ≡ some (snapshot_of zone serial mailbox))

-- Some policy covers the operation: the owner that its name stands for, and its type.
abbrev pub IsCovered : List ZonePolicy → ZoneName → UpdateOp → Type 0
IsCovered policies zone op =
    (owner : OwnerName) × (owner_in_zone (op_name op) zone ≡ ok owner)
    × (any (grants_write owner (op_type op)) policies ≡ true)

authorize_ops-IsCovered :
    (policies : List ZonePolicy) (zone : ZoneName) (ops : List UpdateOp)
    → authorize_ops policies zone ops ≡ ok tt
    → All (IsCovered policies zone) ops
unfolding authorize_ops authorize_update
authorize_ops-IsCovered policies zone [] h = tt
authorize_ops-IsCovered policies zone (op ∷ ops) h =
    let (owner, e, h1) = bind-eq-ok (owner_in_zone (op_name op) zone) _ h in
    let (granted, h2) =
      fail_if-eq-ok (not (any (grants_write owner (op_type op)) policies)) refused _ h1 in
    ((owner, e, not-false _ granted), authorize_ops-IsCovered policies zone ops h2)

pub authorize_key-IsCovered :
    (db : Db) (zone : Zone) (key : TsigKey) (ops : List UpdateOp)
    → key.is_global ≡ false
    → authorize_key db zone (some key) ops ≡ ok tt
    → All (IsCovered (policies_of zone.id key.id db.tsig_policies) zone.name) ops
unfolding authorize_key
authorize_key-IsCovered db zone key ops scoped h =
    let policies = policies_of zone.id key.id db.tsig_policies in
    elim (Bool-cases (is_empty policies)) [
      | inl e ↦ cc (rw (scoped, e) at h)
      | inr f ↦ authorize_ops-IsCovered policies zone.name ops (rw (scoped, f) at h)
    ]
