-- ===== src/Service/Validation/Invariant.antt =====
-- Adds and deletions over the rules of a whole zone.
use bindizr.Base.{
  Bool, true, List, [], ◌∷◌, ◌++◌, Option, none, All, All-imp, All-append, All-filter, filter-All,
  filter, ◌==◌, nat_eq, list_eq, ◌≡◌, ok, bind-eq-ok, ℤ, int_eq, Bool-cases, inl, inr,
}
use bindizr.Text.{Str}
use bindizr.Name.Owner.{OwnerName, owner_eq}
use bindizr.Record.Kind.{RecordType, type_eq}
use bindizr.Record.Value.{IpText}
use bindizr.Record.Model.{Record}
use bindizr.Service.Validation.{shares_name, has_matching_rdata, validate_add, resolve_add, new}
use bindizr.Service.Validation.Rules.{IsAdmissible, Coexist, Compatible, IsConsistent}
use bindizr.Service.Validation.Sound.{Fits, validate_add_sound}

module _ (ip : IpText) where
  -- A record that is admissible and compatible with all may be appended.
  pub append-IsConsistent :
      (rs : List Record) (r : Record)
      → IsConsistent ip rs
      → IsAdmissible ip r
      → All (λ s. Compatible ip s r) rs
      → IsConsistent ip (rs ++ r ∷ [])
  append-IsConsistent [] r h a k = (a, tt, tt)
  append-IsConsistent (s ∷ rs) r h a k = (
    h.0,
    All-append (λ t. Compatible ip s t) rs (r ∷ []) h.1 (k.0, tt),
    append-IsConsistent rs r h.2 a k.1,
  )

  All-filter_all {κ} :
      (P : Record → Type κ) (q : Record → Bool) (rs : List Record) → All P rs → All P (filter q rs)
  All-filter_all P q rs h = All-filter P q rs (All-imp P (λ x. q x ≡ true → P x) (λ x p _. p) rs h)

  -- Any part of a consistent zone is consistent, so a deletion is.
  pub filter-IsConsistent :
      (q : Record → Bool) (rs : List Record) → IsConsistent ip rs → IsConsistent ip (filter q rs)
  filter-IsConsistent q [] h = tt
  filter-IsConsistent q (s ∷ rs) h = elim (Bool-cases (q s)) [
    | inl t ↦
        rw (t, filter)
          (h.0, All-filter_all (λ r. Compatible ip s r) q rs h.1, filter-IsConsistent q rs h.2)
    | inr f ↦ rw (f, filter) (filter-IsConsistent q rs h.2)
  ]

  -- The records with the owner's name are all that matters.
  Fits-Compatible :
      (rs : List Record) (r : Record)
      → Fits ip (filter (λ s. s.name == r.name) rs) r none
      → All (λ s. Compatible ip s r) rs
  Fits-Compatible rs r h =
      All-imp (λ s. (s.name == r.name) ≡ true → shares_name r.name none s ≡ true → Coexist ip s r)
        (λ s. Compatible ip s r)
        (λ s k e.
          let same : (s.name == r.name) ≡ true = (owner_eq.decides s.name r.name).1 e in
          k same (rw same))
        rs
        (filter-All (λ s. shares_name r.name none s ≡ true → Coexist ip s r) (λ s. s.name == r.name)
          rs h.coexists)

  pub resolve_add-new :
      (rs : List Record) (name : OwnerName) (t : RecordType) (value : Str) (ttl : ℤ)
      (priority : Option ℤ)
      → resolve_add ip rs name t value ttl priority ≡ ok new
      → validate_add ip rs name t value ttl priority none ≡ ok tt
  unfolding resolve_add
  resolve_add-new rs name t value ttl priority h =
      elim (Bool-cases (has_matching_rdata ip rs t value priority)) [
        | inl dup ↦ cc (rw (dup, resolve_add) at h)
        | inr fresh ↦
            let (u, passed, _) =
              bind-eq-ok (validate_add ip rs name t value ttl priority none) _
                (rw (fresh, resolve_add) at h) in
            passed
      ]

  -- A record that passes against the records of its name may be appended.
  pub validate_add-IsConsistent :
      (rs : List Record) (r : Record)
      → IsConsistent ip rs
      → validate_add ip
          (filter (λ s. s.name == r.name) rs)
          r.name
          r.record_type
          r.value
          r.ttl
          r.priority
          none
        ≡ ok tt
      → IsConsistent ip (rs ++ r ∷ [])
  validate_add-IsConsistent rs r h e =
      let fits = validate_add_sound ip (filter (λ (s : Record). s.name == r.name) rs) r none e in
      append-IsConsistent rs r h fits.admissible (Fits-Compatible rs r fits)

  -- In a consistent zone, an add that resolves to a new record against the zone's records of its name
  -- leaves the zone consistent.
  pub resolve_add-IsConsistent :
      (rs : List Record) (r : Record)
      → IsConsistent ip rs
      → resolve_add ip
          (filter (λ s. s.name == r.name) rs)
          r.name
          r.record_type
          r.value
          r.ttl
          r.priority
        ≡ ok new
      → IsConsistent ip (rs ++ r ∷ [])
  resolve_add-IsConsistent rs r h e = validate_add-IsConsistent rs r h (
      resolve_add-new (filter (λ (s : Record). s.name == r.name) rs) r.name r.record_type r.value
        r.ttl r.priority e)
