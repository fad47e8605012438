-- ===== src/Service/History/Keys.antt =====
-- The match keys of a zone's rows, and the rows behind an insertion or a deletion.
use bindizr.Base.{
  ◌≤◌, Bool, true, false, not, List, [], ◌∷◌, ◌++◌, map, nat_eq, list_eq, ◌==◌, eq_of_beq, eq_refl,
  ne_of_beq, beq_of_ne, any, any_self, any-false_of_All, filter, filter-ext, filter-cons_true,
  filter-cons_false, filter-map_nil, filter-All, backwards, length, All, All-imp, All-zip,
  All-filter, some, ◌≡◌, ◌≢◌, refl, sym, ap, subst, ◌∙◌, Bool-cases, inl, inr, int_eq, arith,
}
use bindizr.Name.Zone.{ZoneName}
use bindizr.Name.Zone.Laws.{IsZoneName}
use bindizr.Name.Owner.{from_row}
use bindizr.Name.Owner.Laws.{IsOwnerIn}
use bindizr.Name.Owner.RoundTrip.{from_row-to_stored}
use bindizr.Record.Kind.{RecordType, Uppercase, as_str, from_str, from_str-as_str, type_eq}
use bindizr.Record.Value.{IpText}
use bindizr.Record.Model.{Record, canonical_value, values_equal}
use bindizr.Service.Validation.Rules.{Compatible, IsConsistent}
use bindizr.Service.Store.{has_id}
use bindizr.Service.DynamicUpdate.Apply.Isolation.{IsIdOf}
use bindizr.Service.History.{MatchKey, of_record, key_eq, key_of, has_key, match_key}
use bindizr.Service.History.Undo.{bucket, HasDistinctKeys}

pub filter-all_false {ℓ} :
    {A : Type ℓ} (p : A → Bool) (xs : List A) → All (λ x. p x ≡ false) xs → filter p xs ≡ []
filter-all_false p [] h = refl
filter-all_false p (x ∷ xs) h = filter-cons_false p x xs h.0 ∙ filter-all_false p xs h.1

pub filter-all_true {ℓ} :
    {A : Type ℓ} (p : A → Bool) (xs : List A) → All (λ x. p x ≡ true) xs → filter p xs ≡ xs
filter-all_true p [] h = refl
filter-all_true p (x ∷ xs) h =
    filter-cons_true p x xs h.0 ∙ ap (λ l. x ∷ l) (filter-all_true p xs h.1)

module _ (ip : IpText) (u : Uppercase) (zone : ZoneName) (canonical : IsZoneName zone) where
  as_str-injective : (s t : RecordType) → as_str s ≡ as_str t → s ≡ t
  as_str-injective s t e =
      let same : some s ≡ some t =
        sym (from_str-as_str u s) ∙ ap (from_str u) e ∙ from_str-as_str u t in
      cc

  -- Rows that the rules allow together have different keys.
  Compatible-key :
      (s r : Record)
      → IsOwnerIn zone s.name
      → IsOwnerIn zone r.name
      → Compatible ip s r
      → key_of ip (of_record s) ≢ key_of ip (of_record r)
  unfolding match_key values_equal
  Compatible-key s r hs hr k e =
      let name : s.name ≡ r.name =
        sym (from_row-to_stored zone s.name canonical hs)
        ∙ ap (λ (m : MatchKey). from_row m.name) e
        ∙ from_row-to_stored zone r.name canonical hr in
      let kind =
        as_str-injective s.record_type r.record_type (ap (λ (m : MatchKey). m.record_type) e) in
      let value =
        ap (λ t. canonical_value ip t s.value s.priority) (sym kind)
        ∙ ap (λ (m : MatchKey). m.value) e in
      ne_of_beq (canonical_value ip r.record_type s.value s.priority)
        (canonical_value ip r.record_type r.value r.priority) ((k name).distinct kind) value

  pub IsConsistent-HasDistinctKeys :
      (rs : List Record)
      → IsConsistent ip rs
      → All (λ r. IsOwnerIn zone r.name) rs
      → HasDistinctKeys ip (map of_record rs)
  IsConsistent-HasDistinctKeys [] h o k = omega arith
  IsConsistent-HasDistinctKeys (s ∷ rs) h o k =
      let p = has_key ip k in
      elim (Bool-cases (p (of_record s))) [
        | inl t ↦
            let same = eq_of_beq (key_of ip (of_record s)) k t in
            let others = others_miss s rs h.1 o.0 o.1 in
            omega (
              arith,
              ap length (filter-cons_true p (of_record s) (map of_record rs) t),
              ap length (subst (λ j. bucket ip j (map of_record rs) ≡ []) same others),
            )
        | inr f ↦ omega (
          arith,
          ap length (filter-cons_false p (of_record s) (map of_record rs) f),
          IsConsistent-HasDistinctKeys rs h.2 o.1 k,
        )
      ]
    where
      others_miss :
          (s : Record) (rs : List Record)
          → All (λ r. Compatible ip s r) rs
          → IsOwnerIn zone s.name
          → All (λ r. IsOwnerIn zone r.name) rs
          → bucket ip (key_of ip (of_record s)) (map of_record rs) ≡ []
      others_miss s [] h o os = refl
      others_miss s (r ∷ rs) h o os =
          filter-cons_false (has_key ip (key_of ip (of_record s))) (of_record r) (map of_record rs)
            (beq_of_ne (key_of ip (of_record r)) (key_of ip (of_record s))
              (λ e. Compatible-key s r o os.0 h.0 (sym e)))
          ∙ others_miss s rs h.1 o os.1

-- Deleting by row id deletes by the test that chose the rows.
pub kept_rows :
    (q : Record → Bool) (rs : List Record)
    → All (λ r. All (IsIdOf r) rs) rs
    → filter (λ r. not (has_id (filter q rs) r)) rs ≡ filter (λ r. not (q r)) rs
kept_rows q rs ids =
    let taken = filter q rs in
    let Found = λ (x : Record). (p : Record → Bool) → p x ≡ true → any p taken ≡ true in
    let found : All (λ x. q x ≡ true → Found x) rs = filter-All Found q rs (any_self taken) in
    let same : (x : Record)
        → (q x ≡ true → Found x) × All (IsIdOf x) rs
        → not (has_id taken x) ≡ not (q x) =
      λ x h. elim (Bool-cases (q x)) [
        | inl t ↦ rw (t, h.0 t (λ d. d.id == x.id) (eq_refl x.id)) refl
        | inr f ↦
            let apart : (d : Record) → IsIdOf x d → q d ≡ true → (d.id == x.id) ≡ false = λ d e t.
              beq_of_ne d.id x.id (λ same_id.
                let there = subst (λ (y : Record). q y ≡ true) (sym (e (sym same_id))) t in cc) in
            let missed : has_id taken x ≡ false =
              any-false_of_All (λ d. d.id == x.id) taken
                (All-filter (λ d. (d.id == x.id) ≡ false) q rs
                  (All-imp (IsIdOf x) (λ d. q d ≡ true → (d.id == x.id) ≡ false) apart rs h.1)) in
            rw (f, missed) refl
      ] in
    filter-ext (λ r. not (has_id taken r)) (λ r. not (q r)) rs
      (All-imp (λ x. (q x ≡ true → Found x) × All (IsIdOf x) rs)
        (λ x. not (has_id taken x) ≡ not (q x)) same rs
        (All-zip (λ x. q x ≡ true → Found x) (λ x. All (IsIdOf x) rs) rs found ids))

module _ {ℓ κ} {A : Type ℓ} {B : Type κ} (f : A → B) (p : B → Bool) (q : A → Bool) where
  -- Where at most one of a list passes, what was taken from it may come back at its end.
  pub put_back :
      (xs : List A)
      → length (filter p (map f xs)) ≤ 1
      → filter p (map f (filter (λ x. not (q x)) xs)) ++ backwards (filter p (map f (filter q xs)))
        ≡ filter p (map f xs)
  put_back [] h = refl
  put_back (x ∷ xs) h = elim (Bool-cases (p (f x))) [
    | inr v ↦
        let ih =
          put_back xs (omega (arith, h, ap length (filter-cons_false p (f x) (map f xs) v))) in
        elim (Bool-cases (q x)) [ inl t ↦ rw (t, v, filter) ih | inr w ↦ rw (w, v, filter) ih ]
    | inl t ↦
        let nothing : filter p (map f xs) ≡ [] =
          empty_tail (filter p (map f xs))
            (omega (arith, h, ap length (filter-cons_true p (f x) (map f xs) t))) in
        let kept = filter-map_nil f p (λ y. not (q y)) xs nothing in
        let taken = filter-map_nil f p q xs nothing in
        elim (Bool-cases (q x)) [
          | inl s ↦ rw (s, t, filter) (rw (kept, taken, nothing) refl)
          | inr w ↦ rw (w, t, filter) (rw (kept, taken, nothing) refl)
        ]
  ]
    where
      empty_tail : (ys : List B) → length ys ≤ 0 → ys ≡ []
      empty_tail [] h = refl
      empty_tail (y ∷ ys) h = absurd (omega (arith, h))
