-- ===== src/Dns/Encode.antt =====
-- wire/mod.rs: the octets of one answer. Names, rdata and records are composed by the domain crate.
use bindizr.Base.{
  ℕ, ◌+◌, ◌-◌, ◌^◌, Option, none, some, list_eq, nat_eq, ◌==◌, is_empty, if◌then◌else◌, Result, ok,
  err, ◌>>=◌, ok_or, ℤ, pos, negsuc,
}
use bindizr.Text.{Str, codes}
use bindizr.Text.Trim.{trim_end_dots}
use bindizr.Text.Utf8.{encode}
use bindizr.Name.Zone.{ZoneName}
use bindizr.Name.Owner.{OwnerName, to_fqdn}
use bindizr.Record.Value.{IpText, ValueError}
use bindizr.Record.Mx
use bindizr.Record.Mx.{MxRecordValue}
use bindizr.Record.Srv
use bindizr.Record.Srv.{SrvRecordValue}
use bindizr.Record.Txt.{Base64, from_encoded}
use bindizr.Service.Store.{ZoneChange, ZoneSnapshot}
use bindizr.Dns.Wire.{XfrError, protocol_error}

-- The rdata that an answer is composed from, with names and TXT rdata in octets, and an address in
-- its text.
pub data Rdata : Type 0 where
  a_data aaaa_data cname_data ns_data ptr_data txt_data : Str → Rdata
  mx_data : ℕ → Str → Rdata
  srv_data : ℕ → ℕ → ℕ → Str → Rdata
  soa_data : Str → Str → ℕ → ℕ → ℕ → ℕ → ℕ → Rdata

-- The domain crate: the root name, `Name::from_str`, `Txt::build_from_slice`,
-- `UnknownRecordData::from_octets` and `compose_record` of an owner, a TTL and an rdata.
pub record DomainCrate : Type 0 where
  pub root_vec : Str
  pub name_from_str : Str → Option Str
  pub txt_from_slice : Str → Option Str
  pub unknown_from_octets : Str → Option Str
  pub compose_record : Str → ℕ → Rdata → Str

-- `serial_to_u32` of server/delta.rs
unfoldable pub serial_to_u32 : ℤ → Result XfrError ℕ
serial_to_u32 (pos n) = ok n
serial_to_u32 (negsuc n) = err protocol_error

-- `as u32` on an `i32`.
unfoldable pub as_u32 : ℤ → ℕ
as_u32 (pos n) = n
as_u32 (negsuc n) = 2 ^ 32 - (n + 1)

abbrev fields {ℓ} : {A : Type ℓ} → Result ValueError A → Result XfrError A
fields (err e) = err protocol_error
fields (ok v) = ok v

module _ (dom : DomainCrate) where
  unfoldable pub parse_name : Str → Result XfrError Str
  parse_name name =
      if is_empty (trim_end_dots name)
      then ok dom.root_vec
      else ok_or protocol_error (dom.name_from_str name)

  -- `add_soa_from_snapshot`, under the query's name.
  unfoldable pub soa_from_snapshot : Str → ZoneSnapshot → Result XfrError Str
  unfolding serial_to_u32 parse_name as_u32
  soa_from_snapshot qname s = do
    serial ← serial_to_u32 s.serial
    mname ← parse_name s.primary_ns
    rname ← parse_name s.admin_email
    ok (
        dom.compose_record qname (as_u32 s.ttl) (
          soa_data mname rname serial (as_u32 s.refresh) (as_u32 s.retry) (as_u32 s.expire)
            (as_u32 s.minimum_ttl)))

  -- The helpers of `add_record_parts`: an answer of an owner, a TTL and the parts of its rdata.
  abbrev named : Str → ℕ → (Str → Rdata) → Str → Result XfrError (Option Str)
  named name ttl make target = do
    owner ← parse_name name
    octets ← parse_name target
    ok (some (dom.compose_record owner ttl (make octets)))

  abbrev plain : Str → ℕ → Rdata → Result XfrError (Option Str)
  plain name ttl rdata = do owner ← parse_name name; ok (some (dom.compose_record owner ttl rdata))

  abbrev txt_rdata : Str → Option Str → Result XfrError Str
  txt_rdata text (some rdata) = ok_or protocol_error (dom.unknown_from_octets rdata)
  txt_rdata text none = ok_or protocol_error (dom.txt_from_slice (encode text))

  module _ (ip : IpText) (b64 : Base64) where
    -- `add_txt_record`
    unfoldable pub txt_record : Str → ℕ → Str → Result XfrError (Option Str)
    unfolding parse_name
    txt_record name ttl text = do
      owner ← parse_name name
      rdata ← txt_rdata text (from_encoded b64 text)
      ok (some (dom.compose_record owner ttl (txt_data rdata)))

    abbrev mx_record : Str → ℕ → MxRecordValue → Result XfrError (Option Str)
    mx_record name ttl v = named name ttl (mx_data v.priority) v.target

    abbrev srv_record : Str → ℕ → SrvRecordValue → Result XfrError (Option Str)
    srv_record name ttl v = named name ttl (srv_data v.priority v.weight v.port) v.target

    -- `add_record_parts`; a type that is not sent is skipped.
    unfoldable pub record_parts :
        ZoneName → OwnerName → Str → Str → ℤ → Option ℤ → Result XfrError (Option Str)
    unfolding as_u32 parse_name txt_record
    record_parts zone_name name record_type value ttl priority =
        let owner_name = to_fqdn name zone_name in
        let secs = as_u32 ttl in
        if record_type == codes "A"
        then (do addr ← ok_or protocol_error (ip.ipv4 value); plain owner_name secs (a_data addr))
        else if record_type == codes "AAAA"
        then (do
          addr ← ok_or protocol_error (ip.ipv6 value)
          plain owner_name secs (aaaa_data addr))
        else if record_type == codes "CNAME"
        then named owner_name secs cname_data value
        else if record_type == codes "MX"
        then (do v ← fields (Mx.parse value priority); mx_record owner_name secs v)
        else if record_type == codes "NS"
        then named owner_name secs ns_data value
        else if record_type == codes "PTR"
        then named owner_name secs ptr_data value
        else if record_type == codes "SRV"
        then (do v ← fields (Srv.parse value priority); srv_record owner_name secs v)
        else if record_type == codes "TXT"
        then txt_record owner_name secs value
        else ok none

    -- `add_change` of server/ixfr.rs
    abbrev pub change_octets : ZoneName → ZoneChange → Result XfrError (Option Str)
    change_octets zone_name c =
        record_parts zone_name c.record_name c.record_type c.record_value c.record_ttl
          c.record_priority
