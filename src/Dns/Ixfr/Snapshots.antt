-- ===== src/Dns/Ixfr/Snapshots.antt =====
-- Snapshots by serial, and the changes of one serial.
use bindizr.Base.{
  ℕ, suc, ◌<◌, true, false, ◌&&◌, List, [], ◌∷◌, nat_eq, ◌==◌, list_eq, eq_of_beq, eq_refl,
  beq_of_ne, and-true, and_false, if◌then◌else◌, filter, filter-cons_true, filter-cons_false,
  length, All, some, Option-cases, ok, Bool-cases, inl, inr, ◌≡◌, ◌≢◌, refl, sym, ap, subst, ◌∙◌, ℤ,
  pos, int_eq, int_ltb, arith,
}
use bindizr.Service.Store.{ZoneChange, ZoneSnapshot, upsert_snapshot, snapshot_at}
use bindizr.Dns.Encode.{serial_to_u32}
use bindizr.Dns.Ixfr.{has_serial, by_serial, sort_serials, dedup_from, dedup, in_range}
use bindizr.Dns.Ixfr.Sections.{Ascending, sort_serials-Ascending, serials_of}

-- A snapshot of another serial replaces none.
pub snapshot_at-upsert_other :
    (zone_id serial : ℤ) (s : ZoneSnapshot) (ss : List ZoneSnapshot)
    → s.serial ≢ serial
    → snapshot_at zone_id serial (upsert_snapshot s ss) ≡ snapshot_at zone_id serial ss
unfolding snapshot_at upsert_snapshot
snapshot_at-upsert_other zone_id serial s [] ne =
    let miss : (s.zone_id == zone_id && s.serial == serial) ≡ false =
      and_false _ _ (λ _. beq_of_ne s.serial serial ne) in
    rw miss refl
snapshot_at-upsert_other zone_id serial s (t ∷ ts) ne =
    let miss : (s.zone_id == zone_id && s.serial == serial) ≡ false =
      and_false _ _ (λ _. beq_of_ne s.serial serial ne) in
    elim (Bool-cases (t.zone_id == s.zone_id && t.serial == s.serial)) [
      | inl same ↦
          let (_, e) = and-true _ _ same in
          let miss' : (t.zone_id == zone_id && t.serial == serial) ≡ false =
            and_false _ _ (λ _.
              beq_of_ne t.serial serial (λ f. ne (sym (eq_of_beq t.serial s.serial e) ∙ f))) in
          rw same (rw (miss, miss') refl)
      | inr other ↦ rw other (
          ap (λ r. if t.zone_id == zone_id && t.serial == serial then some t else r)
            (snapshot_at-upsert_other zone_id serial s ts ne))
    ]

-- A snapshot that the table has in the range is in the map.
pub by_serial-snapshot_at :
    (zone_id from_serial to_serial : ℤ) (n : ℕ) (ss : List ZoneSnapshot) (s : ZoneSnapshot)
    → int_ltb (pos n) from_serial ≡ false
    → int_ltb to_serial (pos n) ≡ false
    → snapshot_at zone_id (pos n) ss ≡ some s
    → (t : ZoneSnapshot) × (by_serial (filter (in_range zone_id from_serial to_serial) ss) n
        ≡ some t)
unfolding snapshot_at by_serial
by_serial-snapshot_at zone_id from_serial to_serial n [] s low high h = cc
by_serial-snapshot_at zone_id from_serial to_serial n (t ∷ ts) s low high h =
    let p = in_range zone_id from_serial to_serial in
    elim (Bool-cases (t.zone_id == zone_id && t.serial == pos n)) [
      | inl same ↦
          let (here, at_n) = and-true (t.zone_id == zone_id) (t.serial == pos n) same in
          let e = eq_of_beq t.serial (pos n) at_n in
          let inside : p t ≡ true = rw (here, e, low, high) refl in
          let numbered : has_serial n t.serial ≡ true = ap (has_serial n) e ∙ eq_refl n in
          elim (Option-cases (by_serial (filter p ts) n)) [
            | inl missing ↦ (
              t,
              ap (λ l. by_serial l n) (filter-cons_true p t ts inside)
                  ∙ rw (missing, numbered, by_serial) refl,
            )
            | inr (u, there) ↦ (
              u,
              ap (λ l. by_serial l n) (filter-cons_true p t ts inside) ∙ rw (there, by_serial) refl,
            )
          ]
      | inr other ↦
          let (u, there) =
            by_serial-snapshot_at zone_id from_serial to_serial n ts s low high (rw other at h) in
          elim (Bool-cases (p t)) [
            | inl inside ↦ (
              u,
              ap (λ l. by_serial l n) (filter-cons_true p t ts inside) ∙ rw (there, by_serial) refl,
            )
            | inr outside ↦ (u, ap (λ l. by_serial l n) (filter-cons_false p t ts outside) ∙ there)
          ]
    ]

read_pos : (s : ℤ) (m : ℕ) → s ≡ pos m → serial_to_u32 s ≡ ok m
unfolding serial_to_u32
read_pos s m e = ap serial_to_u32 e

all_serials :
    (m : ℕ) (cs : List ZoneChange)
    → All (λ (c : ZoneChange). c.serial ≡ pos m) cs
    → (ns : List ℕ) × (serials_of cs ≡ ok ns) × (length ns ≡ length cs) × All (λ n. n ≡ m) ns
all_serials m [] h = ([], refl, refl, tt)
all_serials m (c ∷ cs) h =
    let (ns, numbered, long, same) = all_serials m cs h.1 in
    (m ∷ ns, rw (read_pos c.serial m h.0, numbered) refl, ap suc long, (refl, same))

same-Ascending : (m : ℕ) (ns : List ℕ) → All (λ n. n ≡ m) ns → Ascending m ns
same-Ascending m [] h = tt
same-Ascending m (n ∷ ns) h =
    (omega (arith, h.0), subst (λ k. Ascending k ns) (sym h.0) (same-Ascending m ns h.1))

dedup_from-same : (m : ℕ) (ns : List ℕ) → All (λ n. n ≡ m) ns → dedup_from m ns ≡ []
unfolding dedup_from
dedup_from-same m [] h = refl
dedup_from-same m (n ∷ ns) h =
    let same : (n == m) ≡ true = (nat_eq.decides n m).1 h.0 in
    rw same (subst (λ k. dedup_from k ns ≡ []) (sym h.0) (dedup_from-same m ns h.1))

dedup-same : (m : ℕ) (ns : List ℕ) → All (λ n. n ≡ m) ns → 0 < length ns → dedup ns ≡ m ∷ []
unfolding dedup
dedup-same m [] h long = absurd (omega (arith, long))
dedup-same m (n ∷ ns) h long =
    subst (λ k. k ∷ dedup_from k ns ≡ m ∷ []) (sym h.0) (ap (λ l. m ∷ l) (dedup_from-same m ns h.1))

-- Changes of one serial make one step.
pub one_step :
    (m : ℕ) (cs : List ZoneChange)
    → All (λ (c : ZoneChange). c.serial ≡ pos m) cs
    → 0 < length cs
    → (ns : List ℕ) × (serials_of cs ≡ ok ns) × (dedup (sort_serials ns) ≡ m ∷ [])
one_step m cs h some_left =
    let (ns, numbered, long, same) = all_serials m cs h in
    (
      ns,
      numbered,
      ap dedup (sort_serials-Ascending m ns (same-Ascending m ns same))
          ∙ dedup-same m ns same (omega (arith, some_left, long)),
    )
