-- ===== src/Service/DynamicUpdate/Apply/Transaction.antt =====
-- The transaction as a whole, on every way that it ends.
use bindizr.Base.{
  refl, ℤ, Bool, true, false, List, Option, some, nat_eq, list_eq, filter, ok, ok-injective,
  Result-cases, inl, inr, ◌≡◌, ◌≢◌, sym, ap, subst, ◌∙◌, int_eq, All,
}
use bindizr.Record.Value.{IpText}
use bindizr.Record.Txt.{Base64}
use bindizr.Record.Model.{Record, Zone}
use bindizr.Service.Validation.Rules.{IsConsistent}
use bindizr.Service.Store.{Db, in_zone, records_of, policies_of, set_serial, snapshot_at}
use bindizr.Service.DynamicUpdate.{TsigKey, DynamicUpdate, find_zone, authorize_key}
use bindizr.Service.DynamicUpdate.Apply.{snapshot_of, run, finish_tx, apply}
use bindizr.Service.DynamicUpdate.Apply.Consistency.{Steps-IsConsistent, Steps-unchanged}
use bindizr.Service.DynamicUpdate.Apply.Isolation.{HasKeys, same_rows-HasKeys, Steps-other}
use bindizr.Service.DynamicUpdate.Apply.Outcome.{
  close_update-eq-ok, run-Ran, finish_tx-ok, finish_tx-err, advance_serial-eq-ok, Steps-zones,
  authorize_key-IsCovered, find_zone-set_serial, close_update-records, close_update-next_id,
  snapshot_at-upsert_snapshot, Advanced, IsCovered,
}

module _ (ip : IpText) (b64 : Base64) where
  -- An update that fails at any point, the commit included, or that reports no change, leaves the
  -- database as it was.
  pub apply-unchanged :
      (commits : Bool) (db : Db) (update : DynamicUpdate)
      → (apply ip b64 commits db update).0 ≢ ok true
      → (apply ip b64 commits db update).1 ≡ db
  unfolding apply
  apply-unchanged commits db update h =
      let m = run ip b64 db update in
      elim (Result-cases (finish_tx commits db m).0) [
        | inl (true, e) ↦ absurd (h e)
        | inl (false, e) ↦
            let (s, ran, flag, left) = finish_tx-ok commits db m false e in
            let r = run-Ran ip b64 db update s ran in
            let (same, kept, _) = close_update-eq-ok r.mid r.zone r.serial s r.closed in
            let idle = sym same ∙ flag in
            left
            ∙ kept idle
            ∙ Steps-unchanged ip r.zone r.serial db r.mid.db r.mid.changed r.stepped idle
        | inr (e, f) ↦ finish_tx-err commits db m e f
      ]

  -- After an update that reports a change, the zone is found with the next serial, and a snapshot of
  -- its SOA fields stands at that serial.
  pub apply-changed :
      (commits : Bool) (db : Db) (update : DynamicUpdate) (zone : Zone)
      → find_zone db update.zone_name ≡ ok zone
      → (apply ip b64 commits db update).0 ≡ ok true
      → Advanced update.zone_name zone (apply ip b64 commits db update).1
  unfolding apply
  apply-changed commits db update zone found h =
      let (s, ran, flag, left) = finish_tx-ok commits db (run ip b64 db update) true h in
      let r = run-Ran ip b64 db update s ran in
      let (same, _, advance) = close_update-eq-ok r.mid r.zone r.serial s r.closed in
      let (mailbox, _, _, _, zones, snapshots) =
        advance_serial-eq-ok r.mid.db r.zone r.serial s.db (advance (sym same ∙ flag)) in
      let same_zone : r.zone ≡ zone = ok-injective (sym r.found ∙ found) in
      let zones' =
        zones
        ∙ ap (set_serial r.zone.id r.serial)
            (Steps-zones ip r.zone r.serial db r.mid.db r.mid.changed r.stepped) in
      let advanced : Advanced update.zone_name r.zone s.db = (
        r.serial,
        mailbox,
        r.next,
        find_zone-set_serial db s.db update.zone_name r.zone r.serial r.found zones',
        ap (snapshot_at r.zone.id r.serial) snapshots
            ∙ snapshot_at-upsert_snapshot (snapshot_of r.zone r.serial mailbox) r.mid.db.snapshots,
      ) in
      subst (Advanced update.zone_name zone) (sym left)
        (subst (λ (z : Zone). Advanced update.zone_name z s.db) same_zone advanced)

  -- Whatever an update does, and whether or not it succeeds, a consistent zone stays consistent.
  pub apply-IsConsistent :
      (commits : Bool) (db : Db) (update : DynamicUpdate) (zone : Zone)
      → find_zone db update.zone_name ≡ ok zone
      → IsConsistent ip (records_of zone.id db)
      → IsConsistent ip (records_of zone.id (apply ip b64 commits db update).1)
  unfolding apply
  apply-IsConsistent commits db update zone found h =
      elim (Result-cases (finish_tx commits db (run ip b64 db update)).0) [
        | inl (b, e) ↦
            let (s, ran, _, left) = finish_tx-ok commits db (run ip b64 db update) b e in
            let r = run-Ran ip b64 db update s ran in
            let same_zone : zone ≡ r.zone = ok-injective (sym found ∙ r.found) in
            let kept = close_update-records r.mid r.zone r.serial s r.closed in
            let h' : IsConsistent ip (records_of r.zone.id db) =
              subst (λ (z : Zone). IsConsistent ip (records_of z.id db)) same_zone h in
            let stepped =
              Steps-IsConsistent ip r.zone r.serial db r.mid.db r.mid.changed r.stepped h' in
            let closed : IsConsistent ip (records_of r.zone.id s.db) =
              subst (λ (rs : List Record). IsConsistent ip (filter (in_zone r.zone.id) rs))
                (sym kept) stepped in
            subst (λ (d : Db). IsConsistent ip (records_of zone.id d)) (sym left)
              (subst (λ (z : Zone). IsConsistent ip (records_of z.id s.db)) (sym same_zone) closed)
        | inr (e, f) ↦
            subst (λ (d : Db). IsConsistent ip (records_of zone.id d))
              (sym (finish_tx-err commits db (run ip b64 db update) e f)) h
      ]

  -- Under a key that is not global, an update that succeeds has a policy for each of its operations,
  -- among those that the key holds for the zone.
  pub apply-authorized :
      (commits : Bool) (db : Db) (update : DynamicUpdate) (zone : Zone) (key : TsigKey) (b : Bool)
      → find_zone db update.zone_name ≡ ok zone
      → update.key ≡ some key
      → key.is_global ≡ false
      → (apply ip b64 commits db update).0 ≡ ok b
      → All (IsCovered (policies_of zone.id key.id db.tsig_policies) zone.name) update.updates
  unfolding apply
  apply-authorized commits db update zone key b found signed scoped h =
      let (s, ran, _, _) = finish_tx-ok commits db (run ip b64 db update) b h in
      let r = run-Ran ip b64 db update s ran in
      let same_zone : r.zone ≡ zone = ok-injective (sym r.found ∙ found) in
      let passed : authorize_key db zone (some key) update.updates ≡ ok tt =
        subst (λ (z : Zone). authorize_key db z (some key) update.updates ≡ ok tt) same_zone
          (subst (λ (k : Option TsigKey). authorize_key db r.zone k update.updates ≡ ok tt) signed
            r.authorized) in
      authorize_key-IsCovered db zone key update.updates scoped passed

  -- Where each id stands for one row and was given out, an update, whether or not it succeeds, leaves
  -- the rows of every other zone as they were, and ids stay unique.
  pub apply-other :
      (commits : Bool) (db : Db) (update : DynamicUpdate) (zone : Zone) (other : ℤ)
      → HasKeys db
      → find_zone db update.zone_name ≡ ok zone
      → other ≢ zone.id
      → HasKeys (apply ip b64 commits db update).1
        × (records_of other (apply ip b64 commits db update).1 ≡ records_of other db)
  unfolding apply
  apply-other commits db update zone other keys found apart =
      let Untouched = λ (d : Db). HasKeys d × (records_of other d ≡ records_of other db) in
      elim (Result-cases (finish_tx commits db (run ip b64 db update)).0) [
        | inl (b, e) ↦
            let (s, ran, _, left) = finish_tx-ok commits db (run ip b64 db update) b e in
            let r = run-Ran ip b64 db update s ran in
            let same_id : zone.id ≡ r.zone.id =
              ap (λ (z : Zone). z.id) (ok-injective (sym found ∙ r.found)) in
            let (mid_keys, same) =
              Steps-other ip r.zone r.serial db r.mid.db r.mid.changed other r.stepped keys
                (λ f. apart (f ∙ sym same_id)) in
            let records = close_update-records r.mid r.zone r.serial s r.closed in
            let next_id = close_update-next_id r.mid r.zone r.serial s r.closed in
            subst Untouched (sym left) (
              same_rows-HasKeys r.mid.db s.db records next_id mid_keys,
              ap (filter (in_zone other)) records ∙ same,
            )
        | inr (e, f) ↦
            subst Untouched (sym (finish_tx-err commits db (run ip b64 db update) e f)) (keys, refl)
      ]
