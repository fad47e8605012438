-- ===== src/Service/Validation/Rules.antt =====
-- The rules, stated of two records of one name and of one record alone.
use bindizr.Base.{true, false, List, [], ◌∷◌, All, ◌≡◌, ◌≢◌, ok}
use bindizr.Name.Owner.{is_apex, owner_eq}
use bindizr.Record.Kind.{cname, mx, ns, soa, type_eq}
use bindizr.Record.Value.{IpText}
use bindizr.Record.Mx.{is_null_value}
use bindizr.Record.Model.{Record, validate_value, values_equal}

module _ (ip : IpText) where
  -- A record that may stand in a zone by itself.
  pub record IsAdmissible (r : Record) : Type 0 where
    pub not_soa : r.record_type ≢ soa
    pub valid : validate_value ip r.record_type r.value r.priority ≡ ok tt
    pub cname_below_apex : r.record_type ≡ cname → is_apex r.name ≡ false
    pub ns_at_apex : r.record_type ≡ ns → is_apex r.name ≡ true

  -- What two records of one name keep: an RRset has no rdata twice and one TTL, a null MX is its
  -- only record, and a CNAME is the only record of its name.
  pub record Coexist (s r : Record) : Type 0 where
    pub distinct :
        s.record_type ≡ r.record_type
        → values_equal ip r.record_type s.value s.priority r.value r.priority ≡ false
    pub no_cname : (s.record_type ≢ cname) × (r.record_type ≢ cname)
    pub no_null_mx :
        s.record_type ≡ mx
        → r.record_type ≡ mx
        → (is_null_value s.value s.priority ≡ false) × (is_null_value r.value r.priority ≡ false)
    pub one_ttl : s.record_type ≡ r.record_type → s.ttl ≡ r.ttl

  -- Records of different names do not bear on one another.
  abbrev pub Compatible : Record → Record → Type 0
  Compatible s r = s.name ≡ r.name → Coexist s r

  -- The rules over a whole zone: each record is admissible, and coexists with those behind it.
  abbrev pub IsConsistent : List Record → Type 0
  IsConsistent [] = Unit
  IsConsistent (s ∷ rs) = IsAdmissible s × All (λ r. Compatible s r) rs × IsConsistent rs
