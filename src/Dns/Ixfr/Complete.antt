-- ===== src/Dns/Ixfr/Complete.antt =====
-- When the steps of an incremental answer are built.
use bindizr.Base.{
  ℕ, ◌<◌, true, false, List, [], ◌∷◌, ◌++◌, nat_eq, list_eq, eq_of_beq, and-true, is_empty, Option,
  none, some, ok, ◌≡◌, refl, sym, ap, subst, ◌∙◌, pos,
}
use bindizr.Text.{Str}
use bindizr.Record.Model.{Zone}
use bindizr.Service.Store.{Db, ZoneChange, ZoneSnapshot}
use bindizr.Dns.Encode.{serial_to_u32}
use bindizr.Dns.Ixfr.{
  Wire, sent_as, send_ixfr_response, sort_serials, dedup_from, dedup, Answer, soa, changes_at,
  section, stream_sections, stream_ixfr_body, list_zone_changes, list_zone_snapshots, by_serial,
  answer_from, is_monotone, ends_at, has_snapshots, find_by_name, is_catalog_zone, handle_ixfr,
}
use bindizr.Dns.Ixfr.Sections.{Ascending, sort_serials-Ascending, serials_of, serials_of-cons}
use bindizr.Dns.Ixfr.Journal.{Rising, ordered-Ascending}
use bindizr.Dns.Ixfr.Incremental.{
  Sends, list_zone_changes-Rising, stream_ixfr_body-Sends, handle_ixfr-older,
}

-- What the journal and the snapshots hold between a secondary's serial and the current one: a rising
-- chain of serials to the current one, with the SOA of each.
pub record IsComplete (db : Db) (zone : Zone) (current client_serial : ℕ) : Type 0 where
  pub serials : List ℕ
  pub numbered : serials_of (list_zone_changes db zone.id client_serial current) ≡ ok serials
  pub some_left : is_empty (list_zone_changes db zone.id client_serial current) ≡ false
  pub rises : is_monotone client_serial (dedup (sort_serials serials)) ≡ true
  pub ends : ends_at current (dedup (sort_serials serials)) ≡ true
  pub kept :
      has_snapshots
        (by_serial (list_zone_snapshots db zone.id client_serial current))
        client_serial
        (dedup (sort_serials serials))
      ≡ true

is_some-eq {ℓ} :
    {A : Type ℓ} (o : Option A)
    → elim o [ none ↦ false | some a ↦ true ] ≡ true
    → (a : A) × (o ≡ some a)
is_some-eq none h = cc
is_some-eq (some a) h = (a, refl)

stream_sections-returns :
    (snapshots : ℕ → Option ZoneSnapshot) (cs : List ZoneChange) (previous : ℕ) (ns : List ℕ)
    → has_snapshots snapshots previous ns ≡ true
    → (answers : List Answer) × (stream_sections snapshots cs previous ns ≡ ok answers)
unfolding stream_sections has_snapshots
stream_sections-returns snapshots cs previous [] h = ([], refl)
stream_sections-returns snapshots cs previous (n ∷ ns) h =
    let (has_old, h1) = and-true _ _ h in
    let (has_new, h2) = and-true _ _ h1 in
    let (s, old) = is_some-eq (snapshots previous) has_old in
    let (t, new) = is_some-eq (snapshots n) has_new in
    let (rest, later) = stream_sections-returns snapshots cs n ns h2 in
    (section s t (changes_at n cs) ++ rest, rw (old, new, later) refl)

-- The last serial of a chain has its snapshot.
last-has_snapshot :
    (snapshots : ℕ → Option ZoneSnapshot) (current previous n : ℕ) (ns : List ℕ)
    → ends_at current (n ∷ ns) ≡ true
    → has_snapshots snapshots previous (n ∷ ns) ≡ true
    → (s : ZoneSnapshot) × (snapshots current ≡ some s)
unfolding ends_at has_snapshots
last-has_snapshot snapshots current previous n [] h k =
    let (_, k1) = and-true _ _ k in
    let (here, _) = and-true _ _ k1 in
    let (s, e) = is_some-eq (snapshots n) here in
    (s, ap snapshots (sym (eq_of_beq n current h)) ∙ e)
last-has_snapshot snapshots current previous n (m ∷ ms) h k =
    let (_, k1) = and-true _ _ k in
    let (_, k2) = and-true _ _ k1 in last-has_snapshot snapshots current n m ms h k2

steps-cons :
    (cs : List ZoneChange) (ns : List ℕ)
    → serials_of cs ≡ ok ns
    → Rising cs
    → is_empty cs ≡ false
    → (m : ℕ) × (ms : List ℕ) × (dedup (sort_serials ns) ≡ m ∷ ms)
unfolding dedup
steps-cons [] ns h up e = cc
steps-cons (c ∷ cs) ns h up e =
    let (m, ms, _, _, same) = serials_of-cons c cs ns h in
    let up' = subst (Ascending 0) same (ordered-Ascending (c ∷ cs) ns up h) in
    (
      m,
      dedup_from m ms,
      ap (λ l. dedup (sort_serials l)) same ∙ ap dedup (sort_serials-Ascending 0 (m ∷ ms) up'),
    )

stream_ixfr_body-returns :
    (zone : Zone) (current client_serial : ℕ) (cs : List ZoneChange)
    (snapshots : ℕ → Option ZoneSnapshot) (ns : List ℕ)
    → zone.serial ≡ pos current
    → serials_of cs ≡ ok ns
    → Rising cs
    → is_empty cs ≡ false
    → ends_at current (dedup (sort_serials ns)) ≡ true
    → has_snapshots snapshots client_serial (dedup (sort_serials ns)) ≡ true
    → (answers : List Answer) × (stream_ixfr_body zone client_serial cs snapshots ≡ ok answers)
unfolding stream_ixfr_body serial_to_u32
stream_ixfr_body-returns zone current client_serial cs snapshots ns at_current numbered up some_left
      ends kept =
    let (m, ms, steps) = steps-cons cs ns numbered up some_left in
    let (s, there) =
      last-has_snapshot snapshots current client_serial m ms
        (subst (λ l. ends_at current l ≡ true) steps ends)
        (subst (λ l. has_snapshots snapshots client_serial l ≡ true) steps kept) in
    let (body, streamed) =
      stream_sections-returns snapshots cs client_serial (dedup (sort_serials ns)) kept in
    (soa s ∷ (body ++ (soa s ∷ [])), rw at_current (rw (there, numbered, streamed) refl))

module _ (w : Wire) (db : Db) (name : Str) (zone : Zone) (current client_serial : ℕ) where
  -- Where the journal and the snapshots are complete from an older serial on, the steps from it are
  -- built, and how their writing ends decides the answer.
  pub handle_ixfr-sent_as :
      is_catalog_zone name ≡ false
      → find_by_name db name ≡ ok (some zone)
      → zone.serial ≡ pos current
      → client_serial < current
      → IsComplete db zone current client_serial
      → (answers : List Answer) × (handle_ixfr w db name (some client_serial)
          ≡ sent_as answers (send_ixfr_response w zone.name answers))
        × Sends db zone current client_serial answers
  unfolding answer_from
  handle_ixfr-sent_as plain found at_current older c =
      let changes = list_zone_changes db zone.id client_serial current in
      let snapshots = by_serial (list_zone_snapshots db zone.id client_serial current) in
      let (answers, built) =
        stream_ixfr_body-returns zone current client_serial changes snapshots c.serials at_current
          c.numbered (list_zone_changes-Rising db zone.id client_serial current) c.some_left c.ends
          c.kept in
      (
        answers,
        handle_ixfr-older w db name zone current client_serial plain found at_current older
            ∙ rw (built, answer_from)
                (rw (c.some_left, c.numbered) (rw (c.rises, c.ends, c.kept) refl)),
        stream_ixfr_body-Sends db zone current client_serial answers at_current built,
      )
