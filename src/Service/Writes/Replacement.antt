-- ===== src/Service/Writes/Replacement.antt =====
-- The replacement of a row over the rules of a zone.
use bindizr.Base.{
  true, false, List, [], ◌∷◌, map, nat_eq, list_eq, ◌==◌, eq_of_beq, beq_of_ne, ne_of_beq,
  if◌then◌else◌, All, All-imp, Bool-cases, inl, inr, ◌≡◌, refl, sym, subst, ◌∙◌, int_eq,
}
use bindizr.Name.Owner.{owner_eq}
use bindizr.Record.Kind.{type_eq, RecordType}
use bindizr.Record.Value.{IpText}
use bindizr.Record.Model.{Record, canonical_value, values_equal}
use bindizr.Service.Validation.Rules.{IsAdmissible, Coexist, Compatible, IsConsistent}
use bindizr.Service.DynamicUpdate.Apply.Isolation.{IsIdOf}

module _ (ip : IpText) where
  Coexist-sym : (s r : Record) → Coexist ip s r → Coexist ip r s
  unfolding values_equal
  Coexist-sym s r c = record {
    distinct = λ e. beq_of_ne _ _ (λ same.
        ne_of_beq (canonical_value ip r.record_type s.value s.priority)
          (canonical_value ip r.record_type r.value r.priority) (c.distinct (sym e))
          (subst
            (λ (t : RecordType).
              canonical_value ip t s.value s.priority ≡ canonical_value ip t r.value r.priority)
            (sym e) (sym same)));
    no_cname = (c.no_cname.1, c.no_cname.0);
    no_null_mx = λ e f. let (p, q) = c.no_null_mx f e in (q, p);
    one_ttl = λ e. sym (c.one_ttl (sym e));
  }

  -- No row coexists with itself.
  Coexist_irrefl : (s : Record) → Coexist ip s s → (t : Type 0) → t
  unfolding values_equal
  Coexist_irrefl s c t = absurd (
      ne_of_beq (canonical_value ip s.record_type s.value s.priority)
        (canonical_value ip s.record_type s.value s.priority) (c.distinct refl) refl)

  module _ (updated : Record) (a : IsAdmissible ip updated) where
    abbrev pub Replaced : Record → Record
    Replaced r = if r.id == updated.id then updated else r

    abbrev pub FitsBeside : Record → Type 0
    FitsBeside s = (s.id == updated.id) ≡ false → Compatible ip s updated

    beside_updated :
        (s : Record) (rs : List Record)
        → (s.id == updated.id) ≡ true
        → All (λ r. Compatible ip s r) rs
        → All (IsIdOf s) rs
        → All FitsBeside rs
        → All (λ r. Compatible ip updated r) (map Replaced rs)
    beside_updated s [] t h ids fits = tt
    beside_updated s (r ∷ rs) t h ids fits =
        let rest = beside_updated s rs t h.1 ids.1 fits.1 in
        elim (Bool-cases (r.id == updated.id)) [
          | inl same ↦
              let one =
                ids.0 (eq_of_beq s.id updated.id t ∙ sym (eq_of_beq r.id updated.id same)) in
              let clash = subst (λ (x : Record). Compatible ip s x) (sym one) h.0 in
              Coexist_irrefl s (clash refl) _
          | inr apart ↦ rw apart (λ e. Coexist-sym r updated (fits.0 apart (sym e)), rest)
        ]

    beside_row :
        (s : Record) (rs : List Record)
        → (s.id == updated.id) ≡ false
        → FitsBeside s
        → All (λ r. Compatible ip s r) rs
        → All (λ r. Compatible ip s r) (map Replaced rs)
    beside_row s [] f fits h = tt
    beside_row s (r ∷ rs) f fits h =
        let rest = beside_row s rs f fits h.1 in
        elim (Bool-cases (r.id == updated.id)) [
          | inl same ↦ rw same (fits f, rest)
          | inr apart ↦ rw apart (h.0, rest)
        ]

    pub replaced-IsConsistent :
        (rs : List Record)
        → IsConsistent ip rs
        → All (λ r. All (IsIdOf r) rs) rs
        → All FitsBeside rs
        → IsConsistent ip (map Replaced rs)
    replaced-IsConsistent [] h ids fits = tt
    replaced-IsConsistent (s ∷ rs) h ids fits =
        let ids' =
          All-imp (λ (r : Record). IsIdOf r s × All (IsIdOf r) rs) (λ r. All (IsIdOf r) rs)
            (λ r k. k.1) rs ids.1 in
        let rest = replaced-IsConsistent rs h.2 ids' fits.1 in
        elim (Bool-cases (s.id == updated.id)) [
          | inl same ↦ rw same (a, beside_updated s rs same h.1 ids.0.1 fits.1, rest)
          | inr apart ↦ rw apart (h.0, beside_row s rs apart fits.0 h.1, rest)
        ]
