-- ===== src/Examples/Transfers.antt =====
-- An incremental transfer of `example.com` from serial 4 to serial 5.
use bindizr.Base.{true, List, [], ◌∷◌, some, pos, ◌≡◌, ◌⊎◌, refl, arith}
use bindizr.Text.{Str, codes}
use bindizr.Text.Trim.{trim_end_by}
use bindizr.Name.Zone
use bindizr.Name.Owner.{owner_eq}
use bindizr.Service.Store.{Db, ZoneChange, change_of, op_add, op_del}
use bindizr.Service.DynamicUpdate.Apply.{snapshot_of}
use bindizr.Dns.Ixfr.{
  Answer, soa, row, section, by_serial, list_zone_snapshots, Transfer, Wire, send_ixfr_response,
  delivered,
}
use bindizr.Examples.Records.{any_address, transparent}
use bindizr.Dns.Encode.{DomainCrate}
use bindizr.Dns.Ixfr.Messages.{Frames, IsDeliverable, send_ixfr_response-Frames}
use bindizr.Examples.Updates.{example_com, www_record, second_record, db}

abbrev mailbox : Str
mailbox = codes "admin.example.com."

abbrev journal : List ZoneChange
journal =
    change_of (pos 7) (pos 5) op_del second_record
    ∷ change_of (pos 7) (pos 5) op_add www_record
    ∷ []

abbrev kept : Db
kept = record {
  zones = example_com ∷ [];
  records = www_record ∷ [];
  changes = journal;
  snapshots =
      snapshot_of example_com (pos 4) mailbox ∷ snapshot_of example_com (pos 5) mailbox ∷ [];
  tsig_policies = [];
  token_policies = [];
  next_id = 3;
}

abbrev answers : List Answer
answers =
    soa (snapshot_of example_com (pos 5) mailbox)
    ∷ soa (snapshot_of example_com (pos 4) mailbox)
    ∷ row (change_of (pos 7) (pos 5) op_del second_record)
    ∷ soa (snapshot_of example_com (pos 5) mailbox)
    ∷ row (change_of (pos 7) (pos 5) op_add www_record)
    ∷ soa (snapshot_of example_com (pos 5) mailbox)
    ∷ []

-- A composer that writes two octets of each name and of each record.
abbrev short_names : DomainCrate
short_names = record {
  root_vec = 0 ∷ [];
  name_from_str = λ s. some (1 ∷ 0 ∷ []);
  txt_from_slice = λ s. some s;
  unknown_from_octets = λ s. some s;
  compose_record = λ owner ttl rdata. 1 ∷ 2 ∷ [];
}

-- A query over a socket that takes every frame.
abbrev open_wire : Wire
open_wire = record {
  query_id = 258;
  qname = 0 ∷ [];
  ip = any_address;
  b64 = transparent;
  dom = short_names;
  accepts = λ frames frame. true;
}

send_ixfr_response-Frames_example :
    ((frames : List Str) × (send_ixfr_response open_wire example_com.name answers
        ≡ delivered frames)
      × Frames open_wire example_com.name answers frames)
    ⊎ (IsDeliverable open_wire example_com.name answers → ⊥)
send_ixfr_response-Frames_example = send_ixfr_response-Frames open_wire example_com.name answers

-- They can be delivered.
open_wire-IsDeliverable : IsDeliverable open_wire example_com.name answers
unfolding bindizr.Dns.Ixfr.octets trim_end_by bindizr.Record.Kind.as_str bindizr.Name.Owner.to_fqdn
    bindizr.Name.Label.escape_label bindizr.Name.Label.escaped_in_label
open_wire-IsDeliverable = record {
  sendable =
      (omega arith, (omega arith, (omega arith, (omega arith, (omega arith, (omega arith, tt))))));
  takes = λ frames frame. refl;
}

-- The additions of a serial follow its deletions, also where the journal has them the other way round.
reordered :
    section (snapshot_of example_com (pos 4) mailbox) (snapshot_of example_com (pos 5) mailbox) (
      change_of (pos 7) (pos 5) op_add www_record
      ∷ change_of (pos 7) (pos 5) op_del www_record
      ∷ [])
    ≡ soa (snapshot_of example_com (pos 4) mailbox)
      ∷ row (change_of (pos 7) (pos 5) op_del www_record)
      ∷ soa (snapshot_of example_com (pos 5) mailbox)
      ∷ row (change_of (pos 7) (pos 5) op_add www_record)
      ∷ []
reordered = refl

-- The zone of Examples/Updates.antt, with the snapshot of its serial.
abbrev synced : Db
synced = record {
  zones = db.zones;
  records = db.records;
  changes = [];
  snapshots = snapshot_of example_com (pos 5) mailbox ∷ [];
  tsig_policies = db.tsig_policies;
  token_policies = [];
  next_id = 2;
}
