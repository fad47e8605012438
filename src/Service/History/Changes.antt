-- ===== src/Service/History/Changes.antt =====
-- The undoing of the changes of one insertion and of one deletion.
use bindizr.Base.{
  false, List, [], ◌∷◌, ◌++◌, map, append-nil, append_assoc, nat_eq, list_eq, ◌==◌, backwards, All,
  ◌≡◌, ◌≢◌, refl, sym, ap, ◌∙◌, ℤ, int_eq,
}
use bindizr.Text.{codes}
use bindizr.Name.Owner.{owner_eq}
use bindizr.Record.Kind.{
  RecordType, a, aaaa, cname, mx, txt, ns, soa, srv, ptr, type_eq, as_str, Uppercase,
  from_str-as_str,
}
use bindizr.Record.Value.{IpText}
use bindizr.Record.Model.{Record, Zone}
use bindizr.Service.Store.{Db, ZoneChange, records_of, change_of, op_add, op_del}
use bindizr.Service.History.{ReconstructedRecord, of_record, undo_typed, undo, undo_all}
use bindizr.Service.History.Undo.{SameRows, pop-SameRows}

as_str-ne-soa : (t : RecordType) → t ≢ soa → (as_str t == codes "SOA") ≡ false
unfolding as_str
as_str-ne-soa a h = refl
as_str-ne-soa aaaa h = refl
as_str-ne-soa cname h = refl
as_str-ne-soa mx h = refl
as_str-ne-soa txt h = refl
as_str-ne-soa ns h = refl
as_str-ne-soa soa h = absurd (h refl)
as_str-ne-soa srv h = refl
as_str-ne-soa ptr h = refl

pub map-append {ℓ κ} :
    {A : Type ℓ} {B : Type κ} (f : A → B) (xs ys : List A) → map f (xs ++ ys) ≡ map f xs ++ map f ys
map-append f [] ys = refl
map-append f (x ∷ xs) ys = ap (λ l. f x ∷ l) (map-append f xs ys)

-- The zone's rows, as a reconstruction shows them.
abbrev pub rows : Zone → Db → List ReconstructedRecord
rows zone db = map of_record (records_of zone.id db)

module _ (ip : IpText) (u : Uppercase) where
  pub undo_add :
      (zone_id serial : ℤ) (r : Record) (state : List ReconstructedRecord)
      (before : List ReconstructedRecord)
      → r.record_type ≢ soa
      → SameRows ip state (before ++ of_record r ∷ [])
      → SameRows ip (undo_all ip u (change_of zone_id serial op_add r ∷ []) state) before
  unfolding undo_all undo undo_typed
  undo_add zone_id serial r state before h same =
      rw (as_str-ne-soa r.record_type h, from_str-as_str u r.record_type)
        (pop-SameRows ip state before (of_record r) same)

  pub undo_deletions :
      (zone_id serial : ℤ) (rs : List Record) (state : List ReconstructedRecord)
      → All (λ r. r.record_type ≢ soa) rs
      → undo_all ip u (map (change_of zone_id serial op_del) rs) state
        ≡ state ++ backwards (map of_record rs)
  unfolding undo_all undo undo_typed
  undo_deletions zone_id serial [] state h = sym (append-nil state)
  undo_deletions zone_id serial (r ∷ rs) state h =
      rw (as_str-ne-soa r.record_type h.0, from_str-as_str u r.record_type)
        (ap (λ l. l ++ of_record r ∷ []) (undo_deletions zone_id serial rs state h.1)
          ∙ append_assoc state (backwards (map of_record rs)) (of_record r ∷ []))

  pub undo_all-append :
      (cs ds : List ZoneChange) (state : List ReconstructedRecord)
      → undo_all ip u (cs ++ ds) state ≡ undo_all ip u cs (undo_all ip u ds state)
  unfolding undo_all
  undo_all-append [] ds state = refl
  undo_all-append (c ∷ cs) ds state = ap (undo ip u c) (undo_all-append cs ds state)
