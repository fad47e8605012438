-- ===== src/Dns/Ixfr/Sections.antt =====
-- The sections of an incremental transfer against the journal.
use bindizr.Base.{
  ℕ, ◌≤◌, ◌<◌, false, List, [], ◌∷◌, ◌++◌, nat_eq, ◌==◌, list_eq, eq_of_beq, eq_refl, beq_of_ne,
  ne_of_beq, filter-cons_true, filter-cons_false, All, All-imp, Result, ok, bind-eq-ok,
  ok-injective, map_result, Bool-cases, inl, inr, ◌≡◌, refl, sym, ap, subst, ◌∙◌, ℤ, pos, negsuc,
  arith,
}
use bindizr.Service.Store.{ZoneChange}
use bindizr.Dns.Wire.{XfrError}
use bindizr.Dns.Encode.{serial_to_u32}
use bindizr.Dns.Ixfr.{has_serial, insert_serial, sort_serials, dedup_from, dedup, changes_at}

-- From `n` on, never down.
abbrev pub Ascending : ℕ → List ℕ → Type 0
Ascending n [] = Unit
Ascending n (m ∷ ms) = (n ≤ m) × Ascending m ms

Ascending-All : (n : ℕ) (ms : List ℕ) → Ascending n ms → All (λ m. n ≤ m) ms
Ascending-All n [] h = tt
Ascending-All n (m ∷ ms) h = (
  h.0,
  All-imp (λ k. m ≤ k) (λ k. n ≤ k) (λ k le. omega (arith, h.0, le)) ms (Ascending-All m ms h.1),
)

pub sort_serials-Ascending : (n : ℕ) (ms : List ℕ) → Ascending n ms → sort_serials ms ≡ ms
unfolding sort_serials insert_serial
sort_serials-Ascending n [] h = refl
sort_serials-Ascending n (m ∷ []) h = refl
sort_serials-Ascending n (m ∷ k ∷ ks) h =
    ap (insert_serial m) (sort_serials-Ascending m (k ∷ ks) h.1) ∙ stays m k ks h.1.0
  where
    stays : (m k : ℕ) (ks : List ℕ) → m ≤ k → insert_serial m (k ∷ ks) ≡ m ∷ k ∷ ks
    stays m k ks le = ground arith

dedup_from-above : (n : ℕ) (ms : List ℕ) → Ascending n ms → All (λ m. n < m) (dedup_from n ms)
unfolding dedup_from
dedup_from-above n [] h = tt
dedup_from-above n (m ∷ ms) h =
    let rest = dedup_from-above m ms h.1 in
    elim (Bool-cases (m == n)) [
      | inl t ↦ rw t (subst (λ k. All (λ i. k < i) (dedup_from m ms)) (eq_of_beq m n t) rest)
      | inr f ↦
          let ne = ne_of_beq m n f in
          rw f (
            omega (arith, h.0, ne),
            All-imp (λ k. m < k) (λ k. n < k) (λ k lt. omega (arith, h.0, lt)) (dedup_from m ms)
                rest,
          )
    ]

-- The changes of the serials of a list, one serial after another.
abbrev pub gather : List ZoneChange → List ℕ → List ZoneChange
gather cs [] = []
gather cs (n ∷ ns) = changes_at n cs ++ gather cs ns

pub serial_pos : (s : ℤ) (m : ℕ) → serial_to_u32 s ≡ ok m → s ≡ pos m
unfolding serial_to_u32
serial_pos (pos k) m h = ap pos (ok-injective h)
serial_pos (negsuc k) m h = cc

has_serial-eq : (n m : ℕ) (s : ℤ) → serial_to_u32 s ≡ ok m → has_serial n s ≡ (m == n)
has_serial-eq n m s h = ap (has_serial n) (serial_pos s m h)

abbrev pub serials_of : List ZoneChange → Result XfrError (List ℕ)
serials_of cs = map_result (λ (c : ZoneChange). serial_to_u32 c.serial) cs

pub serials_of-cons :
    (c : ZoneChange) (cs : List ZoneChange) (ns : List ℕ)
    → serials_of (c ∷ cs) ≡ ok ns
    → (m : ℕ) × (ms : List ℕ) × (serial_to_u32 c.serial ≡ ok m)
      × (serials_of cs ≡ ok ms)
      × (ns ≡ m ∷ ms)
serials_of-cons c cs ns h =
    let (m, e, h1) = bind-eq-ok (serial_to_u32 c.serial) _ h in
    let (ms, f, last) = bind-eq-ok (serials_of cs) _ h1 in (m, ms, e, f, sym (ok-injective last))

pub serials_of-nil : (ns : List ℕ) → serials_of [] ≡ ok ns → ns ≡ []
serials_of-nil ns h = sym (ok-injective h)

-- No change of a serial is behind it.
changes_at-none :
    (n : ℕ) (cs : List ZoneChange) (ns : List ℕ)
    → serials_of cs ≡ ok ns
    → All (λ m. n < m) ns
    → changes_at n cs ≡ []
changes_at-none n [] ns h above = refl
changes_at-none n (c ∷ cs) ns h above =
    let (m, ms, e, f, same) = serials_of-cons c cs ns h in
    let above' : All (λ k. n < k) (m ∷ ms) = subst (All (λ k. n < k)) same above in
    let miss : has_serial n c.serial ≡ false =
      has_serial-eq n m c.serial e ∙ beq_of_ne m n (λ i. absurd (omega (arith, above'.0, i))) in
    filter-cons_false (λ x. has_serial n x.serial) c cs miss ∙ changes_at-none n cs ms f above'.1

gather-cons_above :
    (c : ZoneChange) (k : ℕ) (cs : List ZoneChange) (ms : List ℕ)
    → serial_to_u32 c.serial ≡ ok k
    → All (λ m. k < m) ms
    → gather (c ∷ cs) ms ≡ gather cs ms
gather-cons_above c k cs [] e above = refl
gather-cons_above c k cs (m ∷ ms) e above =
    let miss : has_serial m c.serial ≡ false =
      has_serial-eq m k c.serial e ∙ beq_of_ne k m (λ i. absurd (omega (arith, above.0, i))) in
    ap (λ l. l ++ gather (c ∷ cs) ms) (filter-cons_false (λ x. has_serial m x.serial) c cs miss)
    ∙ ap (λ l. changes_at m cs ++ l) (gather-cons_above c k cs ms e above.1)

gather-dedup_from :
    (n : ℕ) (cs : List ZoneChange) (ns : List ℕ)
    → serials_of cs ≡ ok ns
    → Ascending n ns
    → gather cs (n ∷ dedup_from n ns) ≡ cs
unfolding dedup_from
gather-dedup_from n [] ns h up = rw (serials_of-nil ns h) refl
gather-dedup_from n (c ∷ cs) ns h up =
    let (m, ms, e, f, same) = serials_of-cons c cs ns h in
    let up' : Ascending n (m ∷ ms) = subst (Ascending n) same up in
    let later = dedup_from m ms in
    let behind = gather-cons_above c m cs later e (dedup_from-above m ms up'.1) in
    let here : changes_at m (c ∷ cs) ≡ c ∷ changes_at m cs =
      filter-cons_true (λ x. has_serial m x.serial) c cs
        (has_serial-eq m m c.serial e ∙ eq_refl m) in
    let whole : gather (c ∷ cs) (m ∷ later) ≡ c ∷ cs =
      ap (λ l. l ++ gather (c ∷ cs) later) here
      ∙ ap (λ l. (c ∷ changes_at m cs) ++ l) behind
      ∙ ap (λ l. c ∷ l) (gather-dedup_from m cs ms f up'.1) in
    rw same (elim (Bool-cases (m == n)) [
      | inl t ↦ rw t (subst (λ k. gather (c ∷ cs) (k ∷ later) ≡ c ∷ cs) (eq_of_beq m n t) whole)
      | inr g ↦
          let ne = ne_of_beq m n g in
          let lt : n < m = omega (arith, up'.0, ne) in
          let above : All (λ k. n < k) (m ∷ ms) = (
            lt,
            All-imp (λ k. m ≤ k) (λ k. n < k) (λ k le. omega (arith, lt, le)) ms
                (Ascending-All m ms up'.1),
          ) in
          let nothing = changes_at-none n (c ∷ cs) (m ∷ ms) (h ∙ ap ok same) above in
          rw g (ap (λ l. l ++ gather (c ∷ cs) (m ∷ later)) nothing ∙ whole)
    ])

-- Changes whose serials never go down are those of their serials, one after another.
pub gather-dedup :
    (cs : List ZoneChange) (ns : List ℕ)
    → serials_of cs ≡ ok ns
    → Ascending 0 ns
    → gather cs (dedup (sort_serials ns)) ≡ cs
unfolding dedup
gather-dedup [] ns h up = rw (serials_of-nil ns h) (unfold sort_serials in refl)
gather-dedup (c ∷ cs) ns h up =
    let (m, ms, e, f, same) = serials_of-cons c cs ns h in
    let up' : Ascending 0 (m ∷ ms) = subst (Ascending 0) same up in
    let again : gather (c ∷ cs) (m ∷ dedup_from m (m ∷ ms)) ≡ c ∷ cs =
      gather-dedup_from m (c ∷ cs) (m ∷ ms) (h ∙ ap ok same) (omega arith, up'.1) in
    let skip : dedup_from m (m ∷ ms) ≡ dedup_from m ms = unfold dedup_from in rw (eq_refl m) refl in
    ap (λ l. gather (c ∷ cs) (dedup (sort_serials l))) same
    ∙ ap (λ l. gather (c ∷ cs) (dedup l)) (sort_serials-Ascending 0 (m ∷ ms) up')
    ∙ ap (λ l. gather (c ∷ cs) (m ∷ l)) (sym skip)
    ∙ again
