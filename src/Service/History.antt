-- ===== src/Service/History.antt =====
-- zone/history.rs: the records of a zone at a past serial, rebuilt by undoing the change journal.
pub mod Undo
pub mod Keys
pub mod Changes
pub mod Journal
pub mod Past
pub mod Extension
pub mod Refinement
use bindizr.Base.{
  ℕ, Bool, true, false, not, ◌&&◌, ◌||◌, List, [], ◌∷◌, ◌++◌, map, Option, none, some, nat_eq, ◌==◌,
  PartialEq, list_eq, eq_refl, eq_of_beq, subst, list_ltb, if◌then◌else◌, any, filter, ltb,
  and-true, ◌≡◌, ◌↔◌, refl, ap, arith, ℤ, int_eq, int_ltb,
}
use bindizr.Text.{Str, codes}
use bindizr.Name.Owner.{OwnerName, to_stored}
use bindizr.Record.Kind.{RecordType, Uppercase, as_str, from_str}
use bindizr.Record.Value.{IpText}
use bindizr.Record.Model.{Record, canonical_value}
use bindizr.Service.Store.{Db, ZoneChange, op_add, op_del, records_of}

pub record ReconstructedRecord : Type 0 where
  pub name : OwnerName
  pub record_type : RecordType
  pub value : Str
  pub ttl : ℤ
  pub priority : Option ℤ

-- `From<Record>`
abbrev pub of_record : Record → ReconstructedRecord
of_record r = record {
  name = r.name;
  record_type = r.record_type;
  value = r.value;
  ttl = r.ttl;
  priority = r.priority;
}

pub record MatchKey : Type 0 where
  pub name : Str
  pub record_type : Str
  pub value : Str

abbrev pub key_same : MatchKey → MatchKey → Bool
key_same a b = a.name == b.name && (a.record_type == b.record_type && a.value == b.value)

key_same_refl : (a : MatchKey) → key_same a a ≡ true
key_same_refl a = rw (eq_refl a.name, eq_refl a.record_type, eq_refl a.value) refl

pub key_same_iff : (a b : MatchKey) → (key_same a b ≡ true) ↔ (a ≡ b)
key_same_iff a b = (
  λ h.
      let (n, rest) = and-true (a.name == b.name) _ h in
      let (t, v) = and-true (a.record_type == b.record_type) (a.value == b.value) rest in
      let n' = eq_of_beq a.name b.name n in
      let t' = eq_of_beq a.record_type b.record_type t in
      let v' = eq_of_beq a.value b.value v in
      λ i. record { name = n' i; record_type = t' i; value = v' i },
  λ e. subst (λ c. key_same a c ≡ true) e (key_same_refl a),
)

instance abbrev pub key_eq : PartialEq MatchKey
key_eq = record { same = key_same; decides = key_same_iff }

-- The SQL statement `list_changes_between_serials_tx`: `ORDER BY serial, id` keeps the table's order
-- within a serial.
abbrev pub in_span : ℤ → ℤ → ℤ → ZoneChange → Bool
in_span zone_id from_serial to_serial c =
    c.zone_id == zone_id && (int_ltb from_serial c.serial && not (int_ltb to_serial c.serial))

unfoldable pub insert_by_serial : ZoneChange → List ZoneChange → List ZoneChange
insert_by_serial c [] = c ∷ []
insert_by_serial c (d ∷ ds) =
    let rest = insert_by_serial c ds in if int_ltb d.serial c.serial then d ∷ rest else c ∷ d ∷ ds

unfoldable pub order_by_serial : List ZoneChange → List ZoneChange
unfolding insert_by_serial
order_by_serial [] = []
order_by_serial (c ∷ cs) = insert_by_serial c (order_by_serial cs)

unfoldable pub list_changes_between_serials : Db → ℤ → ℤ → ℤ → List ZoneChange
unfolding order_by_serial
list_changes_between_serials db zone_id from_serial to_serial =
    order_by_serial (filter (in_span zone_id from_serial to_serial) db.changes)

module _ (ip : IpText) where
  unfoldable pub match_key : OwnerName → RecordType → Str → Option ℤ → MatchKey
  match_key name t value priority = record {
    name = to_stored name;
    record_type = as_str t;
    value = canonical_value ip t value priority;
  }

  abbrev pub key_of : ReconstructedRecord → MatchKey
  key_of r = match_key r.name r.record_type r.value r.priority

  -- The hash map from keys to vectors is one list: a key's vector is the part of it with that key,
  -- in order.
  abbrev pub has_key : MatchKey → ReconstructedRecord → Bool
  has_key k r = key_of r == k

  -- `Vec::pop` of a key's vector, which an empty one ignores.
  unfoldable pub pop : MatchKey → List ReconstructedRecord → List ReconstructedRecord
  pop k [] = []
  pop k (r ∷ rs) =
      let rest = pop k rs in
      if any (has_key k) rs then r ∷ rest else if has_key k r then rs else r ∷ rs

  unfoldable pub undo_typed :
      RecordType → ZoneChange → List ReconstructedRecord → List ReconstructedRecord
  unfolding pop
  undo_typed t c state =
      if c.operation == op_add
      then pop (match_key c.record_name t c.record_value c.record_priority) state
      else if c.operation == op_del
      then state
        ++ record {
          name = c.record_name;
          record_type = t;
          value = c.record_value;
          ttl = c.record_ttl;
          priority = c.record_priority;
        }
          ∷ []
      else state

  module _ (u : Uppercase) where
    -- The body of the loop; SOA rows, unknown types and unknown operations are skipped.
    unfoldable pub undo : ZoneChange → List ReconstructedRecord → List ReconstructedRecord
    unfolding undo_typed
    undo c state =
        if c.record_type == codes "SOA"
        then state
        else elim (from_str u c.record_type) [ none ↦ state | some t ↦ undo_typed t c state ]

    -- The loop, newest change first.
    unfoldable pub undo_all : List ZoneChange → List ReconstructedRecord → List ReconstructedRecord
    unfolding undo
    undo_all [] state = state
    undo_all (c ∷ cs) state = undo c (undo_all cs state)

-- The order of `sort_records`: by owner, type and value.
abbrev pub sort_key : ReconstructedRecord → List Str
sort_key r = as_str r.record_type ∷ r.value ∷ []

abbrev pub label_ltb : Str → Str → Bool
label_ltb = list_ltb ltb

abbrev pub comes_before : ReconstructedRecord → ReconstructedRecord → Bool
comes_before r s =
    list_ltb label_ltb r.name.labels s.name.labels
    || not (list_ltb label_ltb s.name.labels r.name.labels)
      && list_ltb label_ltb (sort_key r) (sort_key s)

unfoldable pub insert_sorted :
    ReconstructedRecord → List ReconstructedRecord → List ReconstructedRecord
insert_sorted r [] = r ∷ []
insert_sorted r (s ∷ ss) =
    let rest = insert_sorted r ss in if comes_before s r then s ∷ rest else r ∷ s ∷ ss

unfoldable pub sort_records : List ReconstructedRecord → List ReconstructedRecord
unfolding insert_sorted
sort_records [] = []
sort_records (r ∷ rs) = insert_sorted r (sort_records rs)

module _ (ip : IpText) (u : Uppercase) where
  unfoldable pub reconstruct_records_at_serial : Db → ℤ → ℤ → ℤ → List ReconstructedRecord
  unfolding undo_all sort_records list_changes_between_serials
  reconstruct_records_at_serial db zone_id target_serial current_serial = sort_records (
      undo_all ip u (list_changes_between_serials db zone_id target_serial current_serial)
        (map of_record (records_of zone_id db)))

  unfoldable pub records_at_serial : Db → ℤ → ℤ → ℤ → List ReconstructedRecord
  unfolding reconstruct_records_at_serial
  records_at_serial db zone_id serial current_serial =
      if serial == current_serial
      then sort_records (map of_record (records_of zone_id db))
      else reconstruct_records_at_serial db zone_id serial current_serial
