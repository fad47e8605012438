-- ===== src/Service/Validation/Sound.antt =====
-- `validate_add` against the rules, check by check.
use bindizr.Base.{
  Bool, true, false, not, ◌&&◌, ◌||◌, List, [], ◌∷◌, Option, All, All-imp, All-zip, All-filter,
  filter-All, any, any-false, any-false_of_All, filter, is_empty, ◌==◌, nat_eq, list_eq, ◌≡◌, ◌↔◌,
  refl, Result, ok, fail_if-eq-ok, fail_if-false, All_of, bind-eq-ok, ℤ, int_eq, int_beq_iff, arith,
  Bool-cases, inl, inr, beq_of_ne, ne_of_beq, and_false, eq_of_beq, eq_refl,
}
use bindizr.Text.{Str}
use bindizr.Name.Owner.{is_apex, owner_eq}
use bindizr.Record.Kind.{cname, mx, ns, soa, type_eq, type_beq_iff}
use bindizr.Record.Value.{IpText}
use bindizr.Record.Mx.{is_null_value}
use bindizr.Record.Model.{Record, validate_value}
use bindizr.Service.Validation.{
  shares_name, same_rdata, has_matching_rdata, is_type, is_null_mx_record, null_mx_conflict,
  other_ttl, check_against, validate_add, validate_record_value,
}
use bindizr.Service.Error.{ErrorCode}
use bindizr.Service.Validation.Rules.{IsAdmissible, Coexist}

-- The test of the null MX rule against one record.
abbrev null_mx_clash : Str → Option ℤ → Record → Bool
null_mx_clash value priority s =
    is_null_value value priority && s.record_type == mx
    || not (is_null_value value priority) && is_null_mx_record s

null_mx_conflict-any :
    (xs : List Record) (value : Str) (priority : Option ℤ)
    → null_mx_conflict xs value priority ≡ any (null_mx_clash value priority) xs
unfolding null_mx_conflict
null_mx_conflict-any [] value priority = ground arith
null_mx_conflict-any (x ∷ xs) value priority =
    ground (arith, null_mx_conflict-any xs value priority)

module _ (ip : IpText) (r : Record) where
  -- No test of the code hits the record `s`.
  record IsClear (s : Record) : Type 0 where
    rdata : same_rdata ip r.record_type r.value r.priority s ≡ false
    null_mx : (r.record_type == mx && null_mx_clash r.value r.priority s) ≡ false
    no_cname : (is_type cname s ≡ false) × ((r.record_type == cname) ≡ false)
    ttl : other_ttl r.record_type r.ttl s ≡ false

  IsClear-Coexist : (s : Record) → IsClear s → Coexist ip s r
  IsClear-Coexist s h = record {
    distinct = λ e. ground (arith, h.rdata, type_beq_iff s.record_type r.record_type);
    no_cname = (λ e. ground arith, λ e. ground arith);
    no_null_mx = λ e f. (ground (arith, h.null_mx), ground (arith, h.null_mx));
    one_ttl = λ e.
        ground (arith, h.ttl, type_beq_iff s.record_type r.record_type, int_beq_iff s.ttl r.ttl);
  }

  Coexist-IsClear : (s : Record) → Coexist ip s r → IsClear s
  Coexist-IsClear s h = record {
    rdata = and_false _ _ (λ e. h.distinct (eq_of_beq s.record_type r.record_type e));
    null_mx = and_false _ _ (λ e. no_clash (λ f. h.no_null_mx f (eq_of_beq r.record_type mx e)));
    no_cname =
        (beq_of_ne s.record_type cname h.no_cname.0, beq_of_ne r.record_type cname h.no_cname.1);
    ttl =
        and_false _ _
          (λ e. rw (h.one_ttl (eq_of_beq s.record_type r.record_type e), eq_refl r.ttl));
  }
    where
      no_clash :
          (s.record_type ≡ mx
            → (is_null_value s.value s.priority ≡ false)
              × (is_null_value r.value r.priority ≡ false))
          → null_mx_clash r.value r.priority s ≡ false
      no_clash h = elim (Bool-cases (s.record_type == mx)) [
        | inl t ↦ let (p, q) = h (eq_of_beq s.record_type mx t) in rw (t, p, q)
        | inr f ↦ rw f (ground arith)
      ]

  -- The tests over the records of the name, by their outcomes.
  record IsPassed (existing : List Record) : Type 0 where
    rdata : has_matching_rdata ip existing r.record_type r.value r.priority ≡ false
    null_mx : (r.record_type == mx && null_mx_conflict existing r.value r.priority) ≡ false
    cname_new : (not (is_empty existing) && r.record_type == cname) ≡ false
    cname_there : (not (is_empty existing) && any (is_type cname) existing) ≡ false
    ns : (r.record_type == ns && not (is_apex r.name)) ≡ false
    ttl : any (other_ttl r.record_type r.ttl) existing ≡ false

  check_against-IsPassed :
      (existing : List Record)
      → check_against ip existing r.name r.record_type r.value r.ttl r.priority ≡ ok tt
      → IsPassed existing
  unfolding check_against
  check_against-IsPassed existing h =
      let (p1, h1) = fail_if-eq-ok _ _ _ h in
      let (p2, h2) = fail_if-eq-ok _ _ _ h1 in
      let (p3, h3) = fail_if-eq-ok _ _ _ h2 in
      let (p4, h4) = fail_if-eq-ok _ _ _ h3 in
      let (p5, h5) = fail_if-eq-ok _ _ _ h4 in
      record {
        rdata = p1;
        null_mx = p2;
        cname_new = p3;
        cname_there = p4;
        ns = p5;
        ttl = fail_if-false _ _ h5;
      }

  IsPassed-check_against :
      (existing : List Record)
      → IsPassed existing
      → check_against ip existing r.name r.record_type r.value r.ttl r.priority ≡ ok tt
  unfolding check_against
  IsPassed-check_against existing h =
      rw (h.rdata, h.null_mx, h.cname_new, h.cname_there, h.ns, h.ttl)

  clear_mx :
      (xs : List Record)
      → (r.record_type == mx && null_mx_conflict xs r.value r.priority) ≡ false
      → All (λ s. (r.record_type == mx && null_mx_clash r.value r.priority s) ≡ false) xs
  clear_mx xs h = elim (Bool-cases (r.record_type == mx)) [
    | inl t ↦
        All-imp _ _ (λ s e. rw (t, e)) xs
          (any-false (null_mx_clash r.value r.priority) xs
            (rw (t, null_mx_conflict-any xs r.value r.priority) at h))
    | inr f ↦ All_of _ (λ s. rw f) xs
  ]

  passed_mx :
      (xs : List Record)
      → All (λ s. (r.record_type == mx && null_mx_clash r.value r.priority s) ≡ false) xs
      → (r.record_type == mx && null_mx_conflict xs r.value r.priority) ≡ false
  passed_mx xs h = and_false (r.record_type == mx) (null_mx_conflict xs r.value r.priority) (λ t.
      rw (null_mx_conflict-any xs r.value r.priority) (
        any-false_of_All (null_mx_clash r.value r.priority) xs
          (All-imp _ _ (λ s e. rw t at e) xs h)))

  IsPassed-IsClear : (xs : List Record) → IsPassed xs → All IsClear xs
  unfolding has_matching_rdata
  IsPassed-IsClear [] h = tt
  IsPassed-IsClear (x ∷ xs) h =
      All-imp _ _
        (λ s e. record {
          rdata = e.0;
          null_mx = e.1.0;
          no_cname = (e.1.1.0, h.cname_new);
          ttl = e.1.1.1;
        })
        (x ∷ xs)
        (All-zip _ _ (x ∷ xs) (any-false _ (x ∷ xs) h.rdata) (
          All-zip _ _ (x ∷ xs) (clear_mx (x ∷ xs) h.null_mx) (
            All-zip _ _ (x ∷ xs) (any-false _ (x ∷ xs) h.cname_there)
              (any-false _ (x ∷ xs) h.ttl))))

  IsClear-IsPassed :
      (xs : List Record)
      → All IsClear xs
      → (r.record_type == ns && not (is_apex r.name)) ≡ false
      → IsPassed xs
  unfolding has_matching_rdata
  IsClear-IsPassed xs h k = record {
    rdata = any-false_of_All _ xs (All-imp IsClear _ (λ s e. e.rdata) xs h);
    null_mx = passed_mx xs (All-imp IsClear _ (λ s e. e.null_mx) xs h);
    cname_new = clear_cname xs h;
    cname_there =
        and_false _ _ (λ _. any-false_of_All _ xs (All-imp IsClear _ (λ s e. e.no_cname.0) xs h));
    ns = k;
    ttl = any-false_of_All _ xs (All-imp IsClear _ (λ s e. e.ttl) xs h);
  }
    where
      clear_cname :
          (xs : List Record)
          → All IsClear xs
          → (not (is_empty xs) && r.record_type == cname) ≡ false
      clear_cname [] h = refl
      clear_cname (x ∷ xs) h = h.0.no_cname.1

  validate_record_value-valid :
      validate_record_value ip r.record_type r.value r.priority ≡ ok tt
      → validate_value ip r.record_type r.value r.priority ≡ ok tt
  unfolding validate_record_value
  validate_record_value-valid h = ground arith

  valid-validate_record_value :
      validate_value ip r.record_type r.value r.priority ≡ ok tt
      → validate_record_value ip r.record_type r.value r.priority ≡ ok tt
  unfolding validate_record_value
  valid-validate_record_value h = ground arith

module _ (ip : IpText) (rs : List Record) (r : Record) (except : Option ℤ) where
  -- What the rules ask of a candidate: it is admissible, and coexists with each record that
  -- shares its name, but for the one that it replaces.
  pub record Fits : Type 0 where
    pub admissible : IsAdmissible ip r
    pub coexists : All (λ s. shares_name r.name except s ≡ true → Coexist ip s r) rs

  abbrev verdict : Result ErrorCode (Unit {0})
  verdict = validate_add ip rs r.name r.record_type r.value r.ttl r.priority except

  Fits_of_passed :
      validate_value ip r.record_type r.value r.priority ≡ ok tt
      → (r.record_type == soa) ≡ false
      → (r.record_type == cname && is_apex r.name) ≡ false
      → IsPassed ip r (filter (shares_name r.name except) rs)
      → Fits
  Fits_of_passed valid soa_test apex_test passed = record {
    admissible = record {
      not_soa = ne_of_beq r.record_type soa soa_test;
      valid = valid;
      cname_below_apex = λ e. rw e at apex_test;
      ns_at_apex = λ e. ground (arith, passed.ns);
    };
    coexists =
        filter-All (λ s. Coexist ip s r) (shares_name r.name except) rs
          (All-imp (IsClear ip r) (λ s. Coexist ip s r) (IsClear-Coexist ip r)
            (filter (shares_name r.name except) rs)
            (IsPassed-IsClear ip r (filter (shares_name r.name except) rs) passed));
  }

  -- Whatever the validator accepts fits.
  pub validate_add_sound : verdict ≡ ok tt → Fits
  unfolding validate_add
  validate_add_sound h =
      let (p1, h1) = fail_if-eq-ok _ _ _ h in
      let (u, p2, h2) =
        bind-eq-ok (validate_record_value ip r.record_type r.value r.priority) _ h1 in
      let (p3, h3) = fail_if-eq-ok _ _ _ h2 in
      Fits_of_passed (validate_record_value-valid ip r p2) p1 p3
        (check_against-IsPassed ip r (filter (shares_name r.name except) rs) h3)

  -- It accepts whatever fits.
  pub validate_add_complete : Fits → verdict ≡ ok tt
  unfolding validate_add
  validate_add_complete h =
      let soa_test = beq_of_ne r.record_type soa h.admissible.not_soa in
      let apex_test =
        and_false (r.record_type == cname) (is_apex r.name)
          (λ t. h.admissible.cname_below_apex (eq_of_beq r.record_type cname t)) in
      let ns_test =
        and_false (r.record_type == ns) (not (is_apex r.name))
          (λ t. rw (h.admissible.ns_at_apex (eq_of_beq r.record_type ns t))) in
      let clear =
        All-imp (λ s. Coexist ip s r) (IsClear ip r) (Coexist-IsClear ip r)
          (filter (shares_name r.name except) rs)
          (All-filter (λ s. Coexist ip s r) (shares_name r.name except) rs h.coexists) in
      rw (soa_test, valid-validate_record_value ip r h.admissible.valid, apex_test)
        (IsPassed-check_against ip r (filter (shares_name r.name except) rs)
          (IsClear-IsPassed ip r (filter (shares_name r.name except) rs) clear ns_test))

  -- `validate_add` accepts exactly the candidates that fit: admissible, and able to stand beside each
  -- record that shares the name, but for the excepted one.
  pub validate_add_iff :
      (validate_add ip rs r.name r.record_type r.value r.ttl r.priority except ≡ ok tt) ↔ Fits
  validate_add_iff = (validate_add_sound, validate_add_complete)
