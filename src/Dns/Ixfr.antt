-- ===== src/Dns/Ixfr.antt =====
-- server/ixfr.rs and server/delta.rs: the answer to an incremental zone transfer.
pub mod Sections
pub mod Journal
pub mod Incremental
pub mod Complete
pub mod Snapshots
pub mod Update
pub mod Delivery
pub mod Messages
use bindizr.Base.{
  ℕ, ◌+◌, ◌-◌, ◌^◌, Bool, true, false, not, ◌&&◌, ◌||◌, List, [], ◌∷◌, ◌++◌, map, Option, none,
  some, nat_eq, ◌==◌, list_eq, if◌then◌else◌, ltb, filter, is_empty, Result, ok, err, ◌>>=◌, ◌>>◌,
  ok_or, map_result, ℤ, pos, negsuc, int_eq, int_ltb,
}
use bindizr.Text.{Str, codes, to_ascii_lowercase}
use bindizr.Record.Model.{Zone}
use bindizr.Service.Error.{Service}
use bindizr.Service.Store.{Db, ZoneChange, ZoneSnapshot, op_add, op_del, first_named, snapshot_at}
use bindizr.Service.DynamicUpdate.{normalize_zone_name}
use bindizr.Service.History.{list_changes_between_serials}
use bindizr.Name.Zone.{ZoneName}
use bindizr.Record.Value.{IpText}
use bindizr.Record.Txt.{Base64}
use bindizr.Dns.Encode.{serial_to_u32, DomainCrate, soa_from_snapshot, record_parts, change_octets}
use bindizr.Dns.Wire.{
  XfrError, zone_not_found, database_error, protocol_error, DnsMessageBuilder, new_builder,
  push_answer, Sending, sending, Socket, flush_message_if_not_empty, add_answer_and_flush_if_needed,
}

-- `as i32` on a `u32`.
unfoldable pub as_i32 : ℕ → ℤ
as_i32 n = if ltb n (2 ^ 31) then pos n else negsuc (2 ^ 32 - 1 - n)

-- `is_catalog_zone` of dns/mod.rs
unfoldable pub is_catalog_zone : Str → Bool
is_catalog_zone name = to_ascii_lowercase name == to_ascii_lowercase (codes "catalog.bind")

unfoldable pub find_by_name : Db → Str → Service (Option Zone)
find_by_name db name = do lookup ← normalize_zone_name name; ok (first_named lookup.text db.zones)

abbrev zone_or : Service (Option Zone) → Result XfrError Zone
zone_or (err e) = err database_error
zone_or (ok none) = err zone_not_found
zone_or (ok (some zone)) = ok zone

abbrev pub in_range : ℤ → ℤ → ℤ → ZoneSnapshot → Bool
in_range zone_id from_serial to_serial s =
    s.zone_id == zone_id && (not (int_ltb s.serial from_serial) && not (int_ltb to_serial s.serial))

abbrev pub list_zone_snapshots : Db → ℤ → ℕ → ℕ → List ZoneSnapshot
list_zone_snapshots db zone_id from_serial to_serial =
    filter (in_range zone_id (as_i32 from_serial) (as_i32 to_serial)) db.snapshots

abbrev pub list_zone_changes : Db → ℤ → ℕ → ℕ → List ZoneChange
list_zone_changes db zone_id from_serial to_serial =
    list_changes_between_serials db zone_id (as_i32 from_serial) (as_i32 to_serial)

abbrev pub find_zone_snapshot : Db → ℤ → ℕ → Option ZoneSnapshot
find_zone_snapshot db zone_id serial = snapshot_at zone_id (as_i32 serial) db.snapshots

abbrev pub has_serial : ℕ → ℤ → Bool
has_serial n (pos m) = m == n
has_serial n (negsuc m) = false

-- `snapshots_by_serial`: the map that the loop over the rows fills; a negative serial is skipped.
unfoldable pub by_serial : List ZoneSnapshot → ℕ → Option ZoneSnapshot
by_serial [] n = none
by_serial (s ∷ ss) n = elim (by_serial ss n) [
  | some t ↦ some t
  | none ↦ if has_serial n s.serial then some s else none
]

-- `sort_unstable`
unfoldable pub insert_serial : ℕ → List ℕ → List ℕ
insert_serial n [] = n ∷ []
insert_serial n (m ∷ ms) = let rest = insert_serial n ms in if ltb m n then m ∷ rest else n ∷ m ∷ ms

unfoldable pub sort_serials : List ℕ → List ℕ
unfolding insert_serial
sort_serials [] = []
sort_serials (n ∷ ns) = insert_serial n (sort_serials ns)

-- `dedup`
unfoldable pub dedup_from : ℕ → List ℕ → List ℕ
dedup_from n [] = []
dedup_from n (m ∷ ms) = let rest = dedup_from m ms in if m == n then rest else m ∷ rest

unfoldable pub dedup : List ℕ → List ℕ
unfolding dedup_from
dedup [] = []
dedup (n ∷ ns) = n ∷ dedup_from n ns

-- The check that the serials rise, from the client's on.
unfoldable pub is_monotone : ℕ → List ℕ → Bool
is_monotone previous [] = true
is_monotone previous (n ∷ ns) = ltb previous n && is_monotone n ns

-- The last serial, if there is one, is the current one.
unfoldable pub ends_at : ℕ → List ℕ → Bool
ends_at current [] = true
ends_at current (n ∷ []) = n == current
ends_at current (n ∷ m ∷ ns) = ends_at current (m ∷ ns)

abbrev is_some {ℓ} : {A : Type ℓ} → Option A → Bool
is_some none = false
is_some (some a) = true

-- Every step of the chain has both its snapshots.
unfoldable pub has_snapshots : (ℕ → Option ZoneSnapshot) → ℕ → List ℕ → Bool
has_snapshots snapshots previous [] = true
has_snapshots snapshots previous (n ∷ ns) =
    is_some (snapshots previous) && (is_some (snapshots n) && has_snapshots snapshots n ns)

pub data Answer : Type 0 where
  soa : ZoneSnapshot → Answer
  row : ZoneChange → Answer

abbrev pub is_op : Str → ZoneChange → Bool
is_op operation c = c.operation == operation

-- The changes of one serial, as `changes_by_serial` groups them.
abbrev pub changes_at : ℕ → List ZoneChange → List ZoneChange
changes_at n cs = filter (λ c. has_serial n c.serial) cs

-- The two sections of one serial: the old SOA and the deletions, the new SOA and the additions.
abbrev pub section : ZoneSnapshot → ZoneSnapshot → List ZoneChange → List Answer
section old_soa new_soa cs =
    (soa old_soa ∷ map row (filter (is_op op_del) cs))
    ++ (soa new_soa ∷ map row (filter (is_op op_add) cs))

-- The loop of `stream_ixfr_body`.
unfoldable pub stream_sections :
    (ℕ → Option ZoneSnapshot) → List ZoneChange → ℕ → List ℕ → Result XfrError (List Answer)
stream_sections snapshots changes previous [] = ok []
stream_sections snapshots changes previous (n ∷ ns) = do
  old_soa ← ok_or protocol_error (snapshots previous)
  new_soa ← ok_or protocol_error (snapshots n)
  rest ← stream_sections snapshots changes n ns
  ok (section old_soa new_soa (changes_at n changes) ++ rest)

unfoldable pub stream_ixfr_body :
    Zone → ℕ → List ZoneChange → (ℕ → Option ZoneSnapshot) → Result XfrError (List Answer)
unfolding serial_to_u32 stream_sections sort_serials dedup
stream_ixfr_body zone client_serial changes snapshots = do
  current ← serial_to_u32 zone.serial
  current_soa ← ok_or protocol_error (snapshots current)
  serials ← map_result (λ (c : ZoneChange). serial_to_u32 c.serial) changes
  sections ← stream_sections snapshots changes client_serial (dedup (sort_serials serials))
  ok (soa current_soa ∷ (sections ++ (soa current_soa ∷ [])))

-- What stands outside: the query's id and name, the crates that compose its answers, and the socket.
pub record Wire : Type 0 where
  pub query_id : ℕ
  pub qname : Str
  pub ip : IpText
  pub b64 : Base64
  pub dom : DomainCrate
  pub accepts : Socket

-- The octets of an answer, or their error, with none for a row that is skipped.
unfoldable pub octets : Wire → ZoneName → Answer → Result XfrError (Option Str)
unfolding soa_from_snapshot record_parts
octets w zone_name (soa s) = do x ← soa_from_snapshot w.dom w.qname s; ok (some x)
octets w zone_name (row c) = change_octets w.dom w.ip w.b64 zone_name c

abbrev pub compose :
    DnsMessageBuilder → Result XfrError (Option Str) → Result XfrError DnsMessageBuilder
compose b (err e) = err e
compose b (ok none) = ok b
compose b (ok (some answer)) = ok (push_answer answer b)

abbrev pub add_octets :
    Wire → ZoneName → Answer → DnsMessageBuilder → Result XfrError DnsMessageBuilder
add_octets w z a b = compose b (octets w z a)

abbrev pub ixfr_type : ℕ
ixfr_type = 251

-- How the writing of a body ended, `IxfrSendError` included, with the frames on the stream.
pub data IxfrSend : Type 0 where
  delivered : List Str → IxfrSend
  not_started : XfrError → IxfrSend
  partial : XfrError → IxfrSend

abbrev pub last_flush : Sending × Result XfrError ℕ → Sending × Result XfrError (Unit {0})
last_flush (s, err e) = (s, err e)
last_flush (s, ok n) = (sending s.builder (s.messages_sent + n) s.written, ok tt)

-- The writes of `stream_ixfr_body`, one answer after another, and the last flush.
unfoldable pub write_answers :
    Wire → ZoneName → List Answer → Sending → Sending × Result XfrError (Unit {0})
unfolding octets flush_message_if_not_empty add_answer_and_flush_if_needed
write_answers w z [] s = last_flush (flush_message_if_not_empty w.accepts s)
write_answers w z (a ∷ more) s =
    let step = add_answer_and_flush_if_needed w.accepts (add_octets w z a) s in
    elim step.1 [ err e ↦ (step.0, err e) | ok done ↦ write_answers w z more step.0 ]

abbrev pub ended : Sending × Result XfrError (Unit {0}) → IxfrSend
ended (s, ok done) = delivered s.written
ended (s, err e) = if ltb 0 s.messages_sent then partial e else not_started e

unfoldable pub send_ixfr_response : Wire → ZoneName → List Answer → IxfrSend
unfolding write_answers
send_ixfr_response w z answers =
    ended (write_answers w z answers (sending (new_builder w.query_id w.qname ixfr_type) 0 []))

-- What a query is answered with: a full transfer, one SOA, or the steps between two serials, each
-- with its answers.
pub data Transfer : Type 0 where
  axfr : Transfer
  up_to_date : ZoneSnapshot → Transfer
  incremental : List Answer → Transfer

-- A body of which nothing was written is answered in full; one that was cut off is not.
abbrev pub sent_as : List Answer → IxfrSend → Result XfrError Transfer
sent_as answers (delivered frames) = ok (incremental answers)
sent_as answers (not_started e) = ok axfr
sent_as answers (partial e) = err e

-- The answers of a body are looked up before they are written here; the lookups that the source does
-- between two writes are those that `answer_from` has checked.
abbrev or_axfr : Wire → ZoneName → Result XfrError (List Answer) → Result XfrError Transfer
or_axfr w z (ok answers) = sent_as answers (send_ixfr_response w z answers)
or_axfr w z (err e) = ok axfr

unfoldable pub answer_from : Wire → Db → Zone → ℕ → ℕ → Result XfrError Transfer
unfolding serial_to_u32 sort_serials dedup is_monotone ends_at has_snapshots by_serial
    stream_ixfr_body send_ixfr_response
answer_from w db zone current client_serial =
    let changes = list_zone_changes db zone.id client_serial current in
    let snapshots = by_serial (list_zone_snapshots db zone.id client_serial current) in
    if is_empty changes then ok axfr else do
      serials ← map_result (λ (c : ZoneChange). serial_to_u32 c.serial) changes
      (let steps = dedup (sort_serials serials) in
          if not (is_monotone client_serial steps)
          then ok axfr
          else if not (ends_at current steps)
          then ok axfr
          else if not (has_snapshots snapshots client_serial steps)
          then ok axfr
          else or_axfr w zone.name (stream_ixfr_body zone client_serial changes snapshots))

abbrev flushed : ZoneSnapshot → Sending × Result XfrError ℕ → Result XfrError Transfer
flushed s (after, err e) = err e
flushed s (after, ok n) = ok (up_to_date s)

abbrev composed : Wire → ZoneSnapshot → Result XfrError Str → Result XfrError Transfer
composed w s (err e) = err e
composed w s (ok answer) =
    let b = push_answer answer (new_builder w.query_id w.qname ixfr_type) in
    flushed s (flush_message_if_not_empty w.accepts (sending b 0 []))

unfoldable pub send_up_to_date_response : Wire → ZoneSnapshot → Result XfrError Transfer
unfolding push_answer flush_message_if_not_empty soa_from_snapshot
send_up_to_date_response w s = composed w s (soa_from_snapshot w.dom w.qname s)

abbrev or_soa : Wire → Option ZoneSnapshot → Result XfrError Transfer
or_soa w none = ok axfr
or_soa w (some s) = send_up_to_date_response w s

abbrev answer_to : Wire → Db → Zone → ℕ → Option ℕ → Result XfrError Transfer
answer_to w db zone current none = ok axfr
answer_to w db zone current (some client_serial) =
    if client_serial == current
    then or_soa w (find_zone_snapshot db zone.id current)
    else if ltb current client_serial
    then ok axfr
    else answer_from w db zone current client_serial

unfoldable pub handle_ixfr : Wire → Db → Str → Option ℕ → Result XfrError Transfer
unfolding is_catalog_zone find_by_name serial_to_u32 answer_from send_up_to_date_response
handle_ixfr w db zone_name client_serial = if is_catalog_zone zone_name then ok axfr else do
  zone ← zone_or (find_by_name db zone_name)
  current ← serial_to_u32 zone.serial
  answer_to w db zone current client_serial
