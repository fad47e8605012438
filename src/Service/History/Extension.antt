-- ===== src/Service/History/Extension.antt =====
-- What an update that reports a change leaves, beside the rows: the journal, and the snapshots.
use bindizr.Base.{
  Bool, true, false, List, map, nat_eq, list_eq, filter, All, some, Option-cases, ok, ok-injective,
  ◌≡◌, sym, ap, subst, ◌∙◌, ℤ, int_eq, int_ltb, int_suc, Bool-cases, inl, inr, arith,
}
use bindizr.Name.Zone.Laws.{IsZoneName}
use bindizr.Record.Kind.{Uppercase}
use bindizr.Record.Value.{IpText}
use bindizr.Record.Txt.{Base64}
use bindizr.Record.Mailbox.{from_email}
use bindizr.Record.Model.{Zone}
use bindizr.Service.Serial.{generate_serial}
use bindizr.Service.Store.{Db, ZoneChange, in_zone}
use bindizr.Service.DynamicUpdate.{DynamicUpdate, find_zone}
use bindizr.Service.DynamicUpdate.Apply.{
  Applied, advance_serial, save_snapshot, close_update, run, apply,
}
use bindizr.Service.DynamicUpdate.Apply.Outcome.{close_update-eq-ok, finish_tx-ok, run-Ran}
use bindizr.Service.DynamicUpdate.Apply.Steps.{Steps}
use bindizr.Service.History.{of_record}
use bindizr.Service.History.Undo.{SameRows}
use bindizr.Service.History.Changes.{rows}
use bindizr.Service.History.Journal.{IsSound, Journaled, Steps-Journaled}
use bindizr.Service.Store.{upsert_snapshot}
use bindizr.Service.DynamicUpdate.Apply.{snapshot_of}
use bindizr.Service.DynamicUpdate.Apply.Outcome.{advance_serial-eq-ok}
use bindizr.Service.DynamicUpdate.Apply.Growth.{Steps-grows, Steps-snapshots}
use bindizr.Text.{Str}
use bindizr.Base.{◌<◌, length}

-- The journal runs no further than the zone's serial.
abbrev pub IsBounded : Zone → Db → Type 0
IsBounded zone db =
    All (λ (c : ZoneChange). c.zone_id ≡ zone.id → int_ltb zone.serial c.serial ≡ false) db.changes

pub advance_serial-changes :
    (db : Db) (zone : Zone) (serial : ℤ) (db' : Db)
    → advance_serial db zone serial ≡ ok db'
    → db'.changes ≡ db.changes
unfolding advance_serial save_snapshot
advance_serial-changes db zone serial db' h = elim (Option-cases (from_email zone.admin_email)) [
  | inl e ↦ cc (rw (e, advance_serial, save_snapshot) at h)
  | inr (mailbox, e) ↦
      sym (ap (λ (d : Db). d.changes) (ok-injective (rw (e, advance_serial, save_snapshot) at h)))
]

close_update-changes :
    (s : Applied) (zone : Zone) (serial : ℤ) (s' : Applied)
    → close_update s zone serial ≡ ok s'
    → s'.db.changes ≡ s.db.changes
close_update-changes s zone serial s' h =
    let (_, kept, advance) = close_update-eq-ok s zone serial s' h in
    elim (Bool-cases s.changed) [
      | inl t ↦ advance_serial-changes s.db zone serial s'.db (advance t)
      | inr f ↦ ap (λ (d : Db). d.changes) (kept f)
    ]

pub generate_serial-suc : (old new : ℤ) → generate_serial (some old) ≡ ok new → new ≡ int_suc old
unfolding generate_serial
generate_serial-suc old new h = ground arith

module _ (ip : IpText) (u : Uppercase) where
  -- The tables behind a change: a journal that has grown by changes of the next serial that undo it,
  -- and the snapshot of that serial.
  pub record Extended (zone : Zone) (db db' : Db) : Type 0 where
    pub journaled : Journaled ip u zone (int_suc zone.serial) db db'
    pub grown : length db.changes < length db'.changes
    pub mailbox : Str
    pub snapshots :
        db'.snapshots
        ≡ upsert_snapshot (snapshot_of zone (int_suc zone.serial) mailbox) db.snapshots

module _ (ip : IpText) (b64 : Base64) (u : Uppercase) where
  pub apply-Extended :
      (commits : Bool) (db : Db) (update : DynamicUpdate) (zone : Zone)
      → IsZoneName zone.name
      → IsSound ip zone db
      → find_zone db update.zone_name ≡ ok zone
      → (apply ip b64 commits db update).0 ≡ ok true
      → Extended ip u zone db (apply ip b64 commits db update).1
  unfolding apply
  apply-Extended commits db update zone canonical sound found h =
      let (s, ran, flag, left) = finish_tx-ok commits db (run ip b64 db update) true h in
      let r = run-Ran ip b64 db update s ran in
      let same_zone : r.zone ≡ zone = ok-injective (sym r.found ∙ found) in
      let number = int_suc zone.serial in
      let next : r.serial ≡ number =
        generate_serial-suc r.zone.serial r.serial r.next
        ∙ ap (λ (z : Zone). int_suc z.serial) same_zone in
      let Between = λ (z : Zone) (n : ℤ).
        Steps ip z n db r.mid.db r.mid.changed × (close_update r.mid z n ≡ ok s) in
      let (stepped, closed) : Between zone number =
        subst (λ (n : ℤ). Between zone n) next
          (subst (λ (z : Zone). Between z r.serial) same_zone (r.stepped, r.closed)) in
      let (journaled, _) =
        Steps-Journaled ip u zone number db r.mid.db r.mid.changed stepped canonical sound in
      let (same, _, advance) = close_update-eq-ok r.mid zone number s closed in
      let moved = sym same ∙ flag in
      let (mailbox, _, records, _, _, snapshots) =
        advance_serial-eq-ok r.mid.db zone number s.db (advance moved) in
      let changes = close_update-changes r.mid zone number s closed in
      let same_rows : rows zone s.db ≡ rows zone r.mid.db =
        ap (λ rs. map of_record (filter (in_zone zone.id) rs)) records in
      let (_, grown) = Steps-grows ip zone number db r.mid.db r.mid.changed stepped in
      subst (Extended ip u zone db) (sym left) (record {
        journaled = record {
          gained = journaled.gained;
          appended = changes ∙ journaled.appended;
          stamped = journaled.stamped;
          undone = λ state same. journaled.undone state (subst (SameRows ip state) same_rows same);
        };
        grown =
            subst (λ (cs : List ZoneChange). length db.changes < length cs) (sym changes)
              (grown moved);
        mailbox = mailbox;
        snapshots =
            snapshots
            ∙ ap (upsert_snapshot (snapshot_of zone number mailbox))
                (Steps-snapshots ip zone number db r.mid.db r.mid.changed stepped);
      })
