-- ===== src/Dns/Ixfr/Incremental.antt =====
-- An incremental answer as a whole.
use bindizr.Base.{
  ℕ, ◌<◌, ltb, Bool, false, List, [], ◌∷◌, ◌++◌, nat_eq, ◌==◌, list_eq, beq_of_ne, filter, Option,
  none, some, ok, ok_or, bind-eq-ok, ok-injective, ◌≡◌, refl, sym, ap, ◌∙◌, ℤ, pos, arith,
}
use bindizr.Text.{Str}
use bindizr.Record.Model.{Zone}
use bindizr.Service.Store.{Db, ZoneChange, ZoneSnapshot, op_add, op_del}
use bindizr.Service.History.{in_span, list_changes_between_serials}
use bindizr.Dns.Wire.{XfrError, protocol_error}
use bindizr.Dns.Encode.{serial_to_u32}
use bindizr.Dns.Ixfr.{
  Wire, sort_serials, dedup, Answer, soa, is_op, stream_sections, stream_ixfr_body,
  list_zone_changes, list_zone_snapshots, by_serial, answer_from, as_i32, find_by_name,
  is_catalog_zone, handle_ixfr,
}
use bindizr.Dns.Ixfr.Sections.{serials_of, gather-dedup}
use bindizr.Dns.Ixfr.Journal.{
  Rising, order_by_serial-Rising, ordered-Ascending, rows, Kept, Kept-del, Kept-add,
  stream_sections-rows,
}

-- The body of an incremental answer: the current SOA at both ends, and the journal's changes of each
-- kind between them, in order.
pub record Sends (db : Db) (zone : Zone) (current client_serial : ℕ) (answers : List Answer)
    : Type 0 where
  pub current_soa : ZoneSnapshot
  pub there :
      by_serial (list_zone_snapshots db zone.id client_serial current) current ≡ some current_soa
  pub body : List Answer
  pub framed : answers ≡ soa current_soa ∷ (body ++ (soa current_soa ∷ []))
  pub deletions :
      filter (is_op op_del) (rows body)
      ≡ filter (is_op op_del) (list_zone_changes db zone.id client_serial current)
  pub additions :
      filter (is_op op_add) (rows body)
      ≡ filter (is_op op_add) (list_zone_changes db zone.id client_serial current)

pub list_zone_changes-Rising :
    (db : Db) (zone_id : ℤ) (a b : ℕ) → Rising (list_zone_changes db zone_id a b)
unfolding list_changes_between_serials
list_zone_changes-Rising db zone_id a b =
    order_by_serial-Rising (filter (in_span zone_id (as_i32 a) (as_i32 b)) db.changes)

ok_or-eq-ok {ℓ} : {A : Type ℓ} (e : XfrError) (o : Option A) {a : A} → ok_or e o ≡ ok a → o ≡ some a
ok_or-eq-ok e none h = cc
ok_or-eq-ok e (some b) h = ap some (ok-injective h)

pub stream_ixfr_body-Sends :
    (db : Db) (zone : Zone) (current client_serial : ℕ) (answers : List Answer)
    → zone.serial ≡ pos current
    → stream_ixfr_body zone client_serial
        (list_zone_changes db zone.id client_serial current)
        (by_serial (list_zone_snapshots db zone.id client_serial current))
      ≡ ok answers
    → Sends db zone current client_serial answers
unfolding stream_ixfr_body serial_to_u32
stream_ixfr_body-Sends db zone current client_serial answers at_current h =
    let changes = list_zone_changes db zone.id client_serial current in
    let snapshots = by_serial (list_zone_snapshots db zone.id client_serial current) in
    let (n, read, h1) = bind-eq-ok (serial_to_u32 zone.serial) _ h in
    let same : n ≡ current = ok-injective (sym read ∙ ap serial_to_u32 at_current) in
    let (s, there, h2) = bind-eq-ok (ok_or protocol_error (snapshots n)) _ h1 in
    let (serials, numbered, h3) = bind-eq-ok (serials_of changes) _ h2 in
    let (body, streamed, last) =
      bind-eq-ok (stream_sections snapshots changes client_serial (dedup (sort_serials serials))) _
        h3 in
    let up =
      ordered-Ascending changes serials (list_zone_changes-Rising db zone.id client_serial current)
        numbered in
    let whole = gather-dedup changes serials numbered up in
    let sent : (p : ZoneChange → Bool) → Kept p → filter p (rows body) ≡ filter p changes =
      λ p kept.
        stream_sections-rows p snapshots changes client_serial (dedup (sort_serials serials)) body
          kept streamed
        ∙ ap (filter p) whole in
    record {
      current_soa = s;
      there = ap snapshots (sym same) ∙ ok_or-eq-ok protocol_error (snapshots n) there;
      body = body;
      framed = sym (ok-injective last);
      deletions = sent (is_op op_del) Kept-del;
      additions = sent (is_op op_add) Kept-add;
    }

module _ (w : Wire) (db : Db) (name : Str) (zone : Zone) (current client_serial : ℕ) where
  -- What a query for a zone with an older serial is answered with.
  pub handle_ixfr-older :
      is_catalog_zone name ≡ false
      → find_by_name db name ≡ ok (some zone)
      → zone.serial ≡ pos current
      → client_serial < current
      → handle_ixfr w db name (some client_serial) ≡ answer_from w db zone current client_serial
  unfolding handle_ixfr serial_to_u32
  handle_ixfr-older plain found at_current older =
      let apart : (client_serial == current) ≡ false =
        beq_of_ne client_serial current (λ e. absurd (omega (arith, older, e))) in
      let below : ltb current client_serial ≡ false = ground arith in
      rw (plain, found) (rw at_current (rw (apart, below) refl))
