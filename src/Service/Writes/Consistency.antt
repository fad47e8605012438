-- ===== src/Service/Writes/Consistency.antt =====
-- Creations and deletions over the rules of a zone.
use bindizr.Base.{
  Bool, true, false, List, [], ◌∷◌, ◌++◌, nat_eq, list_eq, filter, All, All-imp, All-append,
  All-append_left, All-append_right, none, some, ok, err, bind-eq-ok, ok-injective, ◌≡◌, refl, sym,
  subst, ℕ, suc, ℤ, pos, int_eq,
}
use bindizr.Text.{Str}
use bindizr.Name.Owner.{owner_eq}
use bindizr.Record.Value.{IpText}
use bindizr.Record.Model.{Record, Zone}
use bindizr.Service.Error.{Service}
use bindizr.Service.Serial.{generate_serial}
use bindizr.Service.Validation.{validate_add}
use bindizr.Service.Validation.Rules.{IsAdmissible, Compatible, IsConsistent}
use bindizr.Service.Validation.Invariant.{validate_add-IsConsistent}
use bindizr.Service.Authorization.{Caller, authorize_record_writes}
use bindizr.Service.Store.{
  Db, in_zone, records_of, records_named, with_id, with_ids, insert_records_with_changes,
}
use bindizr.Service.DynamicUpdate.Apply.{advance_serial}
use bindizr.Service.DynamicUpdate.Apply.Outcome.{advance_serial-eq-ok}
use bindizr.Service.DynamicUpdate.Apply.Consistency.{records_of-insert}
use bindizr.Service.Writes.{
  PreparedRecord, normalize_record_owner_name, get_by_name, ttl_or, Written, finish_tx, candidate,
  write_of, create_in_tx,
}

-- What holds before a transaction, and behind its body where that succeeds, holds behind it.
pub finish_tx-keeps {ℓ κ} :
    {A : Type ℓ} (P : Db → Type κ) (commits : Bool) (db : Db) (m : Service (Written A))
    → P db
    → ((w : Written A) → m ≡ ok w → P w.db)
    → P (finish_tx commits db m).1
unfolding finish_tx
finish_tx-keeps P commits db (err e) h k = h
finish_tx-keeps P true db (ok w) h k = k w refl
finish_tx-keeps P false db (ok w) h k = h

-- An advance of the serial keeps what holds of a zone's rows.
pub advance_serial-rows {κ} :
    (P : List Record → Type κ) (db : Db) (zone : Zone) (serial : ℤ) (after : Db) (id : ℤ)
    → advance_serial db zone serial ≡ ok after
    → P (records_of id db)
    → P (records_of id after)
advance_serial-rows P db zone serial after id e h =
    let (_, _, records, _, _, _) = advance_serial-eq-ok db zone serial after e in
    subst (λ rs. P (filter (in_zone id) rs)) (sym records) h

module _ (ip : IpText) where
  pub create_in_tx-IsConsistent :
      (caller : Caller) (name : Str) (p : PreparedRecord) (db : Db) (zone : Zone)
      (w : Written Record)
      → get_by_name db name ≡ ok zone
      → create_in_tx ip caller name p db ≡ ok w
      → IsConsistent ip (records_of zone.id db)
      → IsConsistent ip (records_of zone.id w.db)
  unfolding create_in_tx with_ids
  create_in_tx-IsConsistent caller name p db zone w found h sound =
      let (owner, _, h1) =
        bind-eq-ok (normalize_record_owner_name p.owner_name zone.name) _ (rw found at h) in
      let (_, _, h2) =
        bind-eq-ok (authorize_record_writes db caller zone (write_of owner p.record_type ∷ [])) _
          h1 in
      let ttl = ttl_or p.ttl zone.ttl in
      let r = candidate zone owner p.record_type p.value ttl p.priority in
      let (_, valid, h3) =
        bind-eq-ok
          (validate_add ip (records_named zone.id owner db) owner p.record_type p.value ttl
            p.priority none)
          _ h2 in
      let (serial, _, h4) = bind-eq-ok (generate_serial (some zone.serial)) _ h3 in
      let inserted = insert_records_with_changes db zone.id serial (r ∷ []) in
      let (after, advanced, last) = bind-eq-ok (advance_serial inserted zone serial) _ h4 in
      subst (λ (v : Written Record). IsConsistent ip (records_of zone.id v.db)) (ok-injective last)
        (advance_serial-rows (IsConsistent ip) inserted zone serial after zone.id advanced (
          subst (IsConsistent ip) (sym (records_of-insert db zone serial r refl)) (
            validate_add-IsConsistent ip (records_of zone.id db) (with_id (pos db.next_id) r) sound
              valid)))

module _ (ip : IpText) where
  -- The rules do not look at row ids.
  IsAdmissible-with_id : (k : ℤ) (r : Record) → IsAdmissible ip r → IsAdmissible ip (with_id k r)
  IsAdmissible-with_id k r a = record {
    not_soa = a.not_soa;
    valid = a.valid;
    cname_below_apex = a.cname_below_apex;
    ns_at_apex = a.ns_at_apex;
  }

  Compatible-with_id_right :
      (k : ℤ) (s r : Record) → Compatible ip s r → Compatible ip s (with_id k r)
  Compatible-with_id_right k s r h e =
      let c = h e in
      record {
        distinct = c.distinct;
        no_cname = c.no_cname;
        no_null_mx = c.no_null_mx;
        one_ttl = c.one_ttl;
      }

  Compatible-with_id_left :
      (k : ℤ) (s r : Record) → Compatible ip s r → Compatible ip (with_id k s) r
  Compatible-with_id_left k s r h e =
      let c = h e in
      record {
        distinct = c.distinct;
        no_cname = c.no_cname;
        no_null_mx = c.no_null_mx;
        one_ttl = c.one_ttl;
      }

  All-with_ids :
      (s : Record) (n : ℕ) (rows : List Record)
      → All (λ r. Compatible ip s r) rows
      → All (λ r. Compatible ip s r) (with_ids n rows)
  unfolding with_ids
  All-with_ids s n [] h = tt
  All-with_ids s n (r ∷ rows) h =
      (Compatible-with_id_right (pos n) s r h.0, All-with_ids s (suc n) rows h.1)

  pub with_ids-IsConsistent :
      (n : ℕ) (rs rows : List Record)
      → IsConsistent ip (rs ++ rows)
      → IsConsistent ip (rs ++ with_ids n rows)
  unfolding with_ids
  with_ids-IsConsistent n [] [] h = tt
  with_ids-IsConsistent n [] (r ∷ rows) h = (
    IsAdmissible-with_id (pos n) r h.0,
    All-imp (λ t. Compatible ip r t) (λ t. Compatible ip (with_id (pos n) r) t)
        (λ t. Compatible-with_id_left (pos n) r t) (with_ids (suc n) rows)
        (All-with_ids r (suc n) rows h.1),
    with_ids-IsConsistent (suc n) [] rows h.2,
  )
  with_ids-IsConsistent n (s ∷ rs) rows h = (
    h.0,
    All-append (λ t. Compatible ip s t) rs (with_ids n rows)
        (All-append_left (λ t. Compatible ip s t) rs rows h.1)
        (All-with_ids s n rows (All-append_right (λ t. Compatible ip s t) rs rows h.1)),
    with_ids-IsConsistent n rs rows h.2,
  )
