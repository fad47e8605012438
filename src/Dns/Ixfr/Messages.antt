-- ===== src/Dns/Ixfr/Messages.antt =====
-- What a transfer puts on the stream.
use bindizr.Base.{
  ℕ, ◌+◌, ◌≤◌, length, true, List, [], ◌∷◌, ◌++◌, append_assoc, append-nil, map, map-append, Option,
  none, some, leb, Bool-cases, inl, inr, ◌⊎◌, Result, ok, err, All, All-append, ◌≡◌, ◌≢◌, refl, sym,
  ap, subst, ◌∙◌, arith,
}
use bindizr.Text.{Str}
use bindizr.Name.Zone.{ZoneName}
use bindizr.Dns.Wire.{
  XfrError, io_error, protocol_error, message_len, pop_last, pop_last_answer, Sending,
  flush_message_if_not_empty, add_answer_and_flush_if_needed,
}
use bindizr.Dns.Ixfr.{
  Answer, Wire, octets, compose, last_flush, write_answers, ended, delivered, send_ixfr_response,
}
use bindizr.Dns.Ixfr.Delivery.{
  holding, frame_of, frames_fit, Fits, at, message_len-holding, flush-cases, failed, joined, began,
  add-Added,
}

abbrev pub flatten : List (List Str) → List Str
flatten [] = []
flatten (xs ∷ xss) = xs ++ flatten xss

flatten-append : (xss yss : List (List Str)) → flatten (xss ++ yss) ≡ flatten xss ++ flatten yss
flatten-append [] yss = refl
flatten-append (xs ∷ xss) yss =
    ap (λ l. xs ++ l) (flatten-append xss yss) ∙ sym (append_assoc xs (flatten xss) (flatten yss))

-- The octets of an answer, if it has any.
abbrev pub put : Result XfrError (Option Str) → List Str
put (err e) = []
put (ok none) = []
put (ok (some x)) = x ∷ []

abbrev pub octets_of : Wire → ZoneName → List Answer → List Str
octets_of w z [] = []
octets_of w z (a ∷ more) = put (octets w z a) ++ octets_of w z more

module _ (w : Wire) (z : ZoneName) where
  -- An answer that is skipped, or has octets that a message of its own can carry.
  abbrev pub Sendable : Result XfrError (Option Str) → Type 0
  Sendable (err e) = ⊥
  Sendable (ok none) = Fits w []
  Sendable (ok (some x)) = Fits w (x ∷ [])

  abbrev pub Takes : Type 0
  Takes = (frames : List Str) (frame : Str) → w.accepts frames frame ≡ true

  -- One answer: it stops the transfer, or goes on behind some messages that it closed.
  data Stepped (xs : List Str) (frames : List Str) (o : Result XfrError (Option Str))
      (r : Sending × Result XfrError (Unit {0})) : Type 0 where
    stopped : (e : XfrError) → r.1 ≡ err e → (Sendable o → Takes → ⊥) → Stepped xs frames o r
    moved :
        (closed : List (List Str)) (ys : List Str) (m : ℕ)
        → All (Fits w) closed
        → (ys ≢ [] → Fits w ys)
        → flatten closed ++ ys ≡ xs ++ put o
        → r ≡ (at w ys m (frames ++ map (frame_of w) closed), ok tt)
        → Stepped xs frames o r

  abbrev stepped :
      Result XfrError (Option Str) → List Str → ℕ → List Str → Sending × Result XfrError (Unit {0})
  stepped o xs n frames =
      add_answer_and_flush_if_needed w.accepts (λ b. compose b o) (at w xs n frames)

  step-Stepped :
      (o : Result XfrError (Option Str)) (xs : List Str) (n : ℕ) (frames : List Str)
      → (xs ≢ [] → Fits w xs)
      → Stepped xs frames o (stepped o xs n frames)
  unfolding add_answer_and_flush_if_needed
  step-Stepped (err e) xs n frames small = stopped e refl (λ s _. s)
  step-Stepped (ok (some x)) xs n frames small = elim (add-Added w xs n frames x small) [
    | failed e r sure ↦ stopped e r sure
    | joined h r ↦
        moved [] (xs ++ x ∷ []) n tt (λ _. h) refl
          (r ∙ ap (λ l. (at w (xs ++ x ∷ []) n l, ok tt)) (sym (append-nil frames)))
    | began h k r ↦
        moved (xs ∷ []) (x ∷ []) (n + 1) (h, tt) (λ _. k) (ap (λ l. l ++ x ∷ []) (append-nil xs)) r
  ]
  step-Stepped (ok none) [] n frames small =
      let e = message_len-holding w [] in
      elim (Bool-cases (leb (message_len (holding w [])) 65535)) [
        | inl t ↦
            moved [] [] n tt small refl
              (rw t (ap (λ l. (at w [] n l, ok tt)) (sym (append-nil frames))))
        | inr f ↦
            stopped protocol_error (unfold pop_last_answer pop_last in rw f refl)
              (λ h _. ground (arith, e, f, h))
      ]
  step-Stepped (ok none) (y ∷ xs) n frames small =
      let e = message_len-holding w (y ∷ xs) in
      let fits = small (λ h. cc) in
      let t : leb (message_len (holding w (y ∷ xs))) 65535 ≡ true = ground (arith, e, fits) in
      moved [] (y ∷ xs) n tt small (sym (append-nil (y ∷ xs)))
        (rw t (ap (λ l. (at w (y ∷ xs) n l, ok tt)) (sym (append-nil frames))))

  -- What writing the answers from some point on puts on the stream.
  record Wrote (xs : List Str) (frames : List Str) (more : List Str) (s : Sending) : Type 0 where
    closed : List (List Str)
    fit : All (Fits w) closed
    whole : flatten closed ≡ xs ++ more
    framed : s.written ≡ frames ++ map (frame_of w) closed

  Wrote-moved :
      (closed : List (List Str)) (xs ys o more frames : List Str) (s : Sending)
      → All (Fits w) closed
      → flatten closed ++ ys ≡ xs ++ o
      → Wrote ys (frames ++ map (frame_of w) closed) more s
      → Wrote xs frames (o ++ more) s
  Wrote-moved closed xs ys o more frames s fit same r = record {
    closed = closed ++ r.closed;
    fit = All-append (Fits w) closed r.closed fit r.fit;
    whole =
        flatten-append closed r.closed
        ∙ ap (λ l. flatten closed ++ l) r.whole
        ∙ sym (append_assoc (flatten closed) ys more)
        ∙ ap (λ l. l ++ more) same
        ∙ append_assoc xs o more;
    framed =
        r.framed
        ∙ append_assoc frames (map (frame_of w) closed) (map (frame_of w) r.closed)
        ∙ ap (λ l. frames ++ l) (sym (map-append (frame_of w) closed r.closed));
  }

  abbrev Outcome : List Answer → List Str → List Str → Sending × Result XfrError (Unit {0}) → Type 0
  Outcome answers xs frames r =
      ((s : Sending) × (r ≡ (s, ok tt)) × Wrote xs frames (octets_of w z answers) s)
      ⊎ ((e : XfrError) × (r.1 ≡ err e) × (All (λ a. Sendable (octets w z a)) answers → Takes → ⊥))

  flush-Outcome :
      (xs : List Str) (n : ℕ) (frames : List Str)
      → (xs ≢ [] → Fits w xs)
      → Outcome [] xs frames (last_flush (flush_message_if_not_empty w.accepts (at w xs n frames)))
  flush-Outcome [] n frames small = inl (
    at w [] (n + 0) frames,
    unfold flush_message_if_not_empty in refl,
    record { closed = []; fit = tt; whole = refl; framed = sym (append-nil frames) },
  )
  flush-Outcome (y ∷ xs) n frames small =
      let ne : (y ∷ xs) ≢ [] = λ e. cc in
      elim (flush-cases w (y ∷ xs) n frames ne (small ne)) [
        | inl (refused, no_room) ↦ inr (
          io_error,
          ap (λ r. (last_flush r).1) refused,
          λ _ takes. cc (sym no_room ∙ takes frames (frame_of w (y ∷ xs))),
        )
        | inr flushed ↦ inl (
          at w [] (n + 1) (frames ++ frame_of w (y ∷ xs) ∷ []),
          ap last_flush flushed,
          record { closed = (y ∷ xs) ∷ []; fit = (small ne, tt); whole = refl; framed = refl },
        )
      ]

  abbrev go_on :
      List Answer → Sending × Result XfrError (Unit {0}) → Sending × Result XfrError (Unit {0})
  go_on more r = elim r.1 [ err e ↦ (r.0, err e) | ok done ↦ write_answers w z more r.0 ]

  write_answers-Outcome :
      (answers : List Answer) (xs : List Str) (n : ℕ) (frames : List Str)
      → (xs ≢ [] → Fits w xs)
      → Outcome answers xs frames (write_answers w z answers (at w xs n frames))
  unfolding write_answers
  write_answers-Outcome [] xs n frames small = flush-Outcome xs n frames small
  write_answers-Outcome (a ∷ more) xs n frames small =
      elim (step-Stepped (octets w z a) xs n frames small) [
        | stopped e r sure ↦ inr (
          e,
          ap (λ o. (go_on more ((stepped (octets w z a) xs n frames).0, o)).1) r,
          λ s takes. sure s.0 takes,
        )
        | moved closed ys m fit small' same r ↦
            elim (write_answers-Outcome more ys m (frames ++ map (frame_of w) closed) small') [
              | inl (s, run, wrote) ↦ inl (
                s,
                ap (go_on more) r ∙ run,
                Wrote-moved closed xs ys (put (octets w z a)) (octets_of w z more) frames s fit same
                    wrote,
              )
              | inr (e, run, sure) ↦
                  inr (e, ap (λ o. (go_on more o).1) r ∙ run, λ s takes. sure s.1 takes)
            ]
      ]

  -- What the messages of a transfer hold: each is the frame of some answers, no frame is longer than
  -- two octets and the 65535 of the largest message, and together they hold the octets of the answers, in order.
  pub record Frames (answers : List Answer) (frames : List Str) : Type 0 where
    pub batches : List (List Str)
    pub framed : frames ≡ map (frame_of w) batches
    pub fit : All (λ (frame : Str). length frame ≤ 65537) frames
    pub whole : flatten batches ≡ octets_of w z answers

  -- The answers can be sent, and the socket takes every frame.
  pub record IsDeliverable (answers : List Answer) : Type 0 where
    pub sendable : All (λ a. Sendable (octets w z a)) answers
    pub takes : Takes

  -- Answers are delivered, in messages of at most 65535 octets that hold the octets of all of them in
  -- order, or it is not so that each of them is skipped or has octets that a message of its own can
  -- carry, and that the socket takes every frame.
  pub send_ixfr_response-Frames :
      (answers : List Answer)
      → ((frames : List Str) × (send_ixfr_response w z answers ≡ delivered frames)
          × Frames answers frames)
        ⊎ (IsDeliverable answers → ⊥)
  unfolding send_ixfr_response
  send_ixfr_response-Frames answers =
      elim (write_answers-Outcome answers [] 0 [] (λ h. absurd (h refl))) [
        | inl (s, run, wrote) ↦ inl (
          s.written,
          ap ended run,
          record {
            batches = wrote.closed;
            framed = wrote.framed;
            fit =
                subst (All (λ (frame : Str). length frame ≤ 65537)) (sym wrote.framed)
                  (frames_fit w wrote.closed wrote.fit);
            whole = wrote.whole;
          },
        )
        | inr (e, run, sure) ↦ inr (λ d. sure d.sendable d.takes)
      ]
