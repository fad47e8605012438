-- ===== src/Dns/Ixfr/Delivery.antt =====
-- The messages that the answers of a transfer are written in.
use bindizr.Base.{
  length-append, All, map, ℕ, ◌+◌, ◌-◌, ◌≤◌, true, false, List, [], ◌∷◌, ◌++◌, some, length, ltb,
  leb, Bool-cases, ne-is_empty, inl, inr, ◌⊎◌, Result, ok, err, ◌≡◌, ◌≢◌, refl, sym, ap, subst, ◌∙◌,
  arith,
}
use bindizr.Text.{Str}
use bindizr.Dns.Wire.{
  concat_answers, XfrError, io_error, protocol_error, to_be_bytes, DnsMessageBuilder, message_len,
  push_answer, pop_last, pop_last_answer, build_message, build_tcp_frame, Sending, sending,
  flush_message_if_not_empty, added, split_last, add_answer_and_flush_if_needed,
}
use bindizr.Dns.Ixfr.{Wire, ixfr_type}

abbrev pub total : List Str → ℕ
total [] = 0
total (x ∷ xs) = length x + total xs

total-append : (xs : List Str) (x : Str) → total (xs ++ x ∷ []) ≡ total xs + length x
total-append [] x = omega arith
total-append (y ∷ xs) x = omega (arith, total-append xs x)

pop_last-append : (xs : List Str) (x : Str) → pop_last (xs ++ x ∷ []) ≡ some (xs, x)
unfolding pop_last
pop_last-append [] x = refl
pop_last-append (y ∷ xs) x = rw (pop_last-append xs x) refl

module _ (w : Wire) where
  -- The builder of the query with some answers.
  abbrev pub holding : List Str → DnsMessageBuilder
  holding xs = record {
    query_id = w.query_id;
    qname = w.qname;
    qtype = ixfr_type;
    answers = xs;
    answers_len = total xs;
  }

  -- The frame of some answers: the length in two octets, and the message.
  abbrev pub frame_of : List Str → Str
  frame_of xs = to_be_bytes (message_len (holding xs)) ++ build_message (holding xs)

  abbrev pub Fits : List Str → Type 0
  Fits xs = 16 + length w.qname + total xs ≤ 65535

  push_answer-holding :
      (xs : List Str) (x : Str) → push_answer x (holding xs) ≡ holding (xs ++ x ∷ [])
  unfolding push_answer
  push_answer-holding xs x =
      ap
        (λ k. record {
          query_id = w.query_id;
          qname = w.qname;
          qtype = ixfr_type;
          answers = xs ++ x ∷ [];
          answers_len = k;
        })
        (sym (total-append xs x))

  pop_last_answer-holding :
      (xs : List Str) (x : Str) → pop_last_answer (holding (xs ++ x ∷ [])) ≡ some (x, holding xs)
  unfolding pop_last_answer
  pop_last_answer-holding xs x =
      let left : total (xs ++ x ∷ []) - length x ≡ total xs = omega (arith, total-append xs x) in
      rw (pop_last-append xs x, pop_last_answer) (rw left refl)

  pub message_len-holding :
      (xs : List Str) → message_len (holding xs) ≡ 16 + length w.qname + total xs
  unfolding message_len
  message_len-holding xs = omega arith

  long-Fits : (xs : List Str) → ltb 65535 (message_len (holding xs)) ≡ false → Fits xs
  long-Fits xs h = let e = message_len-holding xs in ground (arith, e, h)

  build_tcp_frame-holding :
      (xs : List Str) → Fits xs → build_tcp_frame (holding xs) ≡ ok (frame_of xs)
  unfolding build_tcp_frame
  build_tcp_frame-holding xs h =
      let e = message_len-holding xs in
      let fits : ltb 65535 (message_len (holding xs)) ≡ false = ground (arith, e, h) in
      rw (fits, build_tcp_frame) refl

  -- A transfer on its way, with some answers behind some frames.
  abbrev pub at : List Str → ℕ → List Str → Sending
  at xs n frames = sending (holding xs) n frames

  pub flush-cases :
      (xs : List Str) (n : ℕ) (frames : List Str)
      → xs ≢ []
      → Fits xs
      → ((flush_message_if_not_empty w.accepts (at xs n frames) ≡ (at xs n frames, err io_error))
          × (w.accepts frames (frame_of xs) ≡ false))
        ⊎ (flush_message_if_not_empty w.accepts (at xs n frames)
            ≡ (at [] n (frames ++ frame_of xs ∷ []), ok 1))
  unfolding flush_message_if_not_empty
  flush-cases xs n frames ne h =
      let built = build_tcp_frame-holding xs h in
      elim (Bool-cases (w.accepts frames (frame_of xs))) [
        | inl t ↦ inr (rw (ne-is_empty xs ne, flush_message_if_not_empty) (rw built (rw t refl)))
        | inr f ↦ inl (rw (ne-is_empty xs ne, flush_message_if_not_empty) (rw built (rw f refl)), f)
      ]

  -- One answer more: it fails, it joins the message, or it begins the next one.
  pub data Added (xs : List Str) (n : ℕ) (frames : List Str) (x : Str)
      (o : Sending × Result XfrError (Unit {0})) : Type 0 where
    failed :
        (e : XfrError)
        → o.1 ≡ err e
        → (Fits (x ∷ []) → ((fs : List Str) (g : Str) → w.accepts fs g ≡ true) → ⊥)
        → Added xs n frames x o
    joined : Fits (xs ++ x ∷ []) → o ≡ (at (xs ++ x ∷ []) n frames, ok tt) → Added xs n frames x o
    began :
        Fits xs
        → Fits (x ∷ [])
        → o ≡ (at (x ∷ []) (n + 1) (frames ++ frame_of xs ∷ []), ok tt)
        → Added xs n frames x o

  split_last-Added :
      (xs : List Str) (n : ℕ) (frames : List Str) (x : Str)
      → (xs ≢ [] → Fits xs)
      → (Fits (xs ++ x ∷ []) → ⊥)
      → Added xs n frames x
          (split_last w.accepts (at (xs ++ x ∷ []) n frames) (some (x, holding xs)))
  split_last-Added [] n frames x small long = failed protocol_error refl (λ h _. long h)
  split_last-Added (y ∷ xs) n frames x small long =
      let ne : (y ∷ xs) ≢ [] = λ e. cc in
      elim (flush-cases (y ∷ xs) n frames ne (small ne)) [
        | inl (stopped, refused) ↦
            failed io_error (rw stopped refl)
              (λ _ takes. cc (sym refused ∙ takes frames (frame_of (y ∷ xs))))
        | inr flushed ↦
            let pushed = push_answer-holding [] x in
            elim (Bool-cases (ltb 65535 (message_len (holding (x ∷ []))))) [
              | inl t ↦
                  failed protocol_error (rw flushed (rw pushed (rw t refl)))
                    (λ h _. let e = message_len-holding (x ∷ []) in ground (arith, e, h, t))
              | inr f ↦ began (small ne) (long-Fits (x ∷ []) f) (rw flushed (rw pushed (rw f refl)))
            ]
      ]

  added-Added :
      (xs : List Str) (n : ℕ) (frames : List Str) (x : Str)
      → (xs ≢ [] → Fits xs)
      → Added xs n frames x (added w.accepts (at xs n frames) (ok (holding (xs ++ x ∷ []))))
  added-Added xs n frames x small =
      let e = message_len-holding (xs ++ x ∷ []) in
      let popped = pop_last_answer-holding xs x in
      elim (Bool-cases (leb (message_len (holding (xs ++ x ∷ []))) 65535)) [
        | inl t ↦ joined (ground (arith, e, t)) (rw t refl)
        | inr f ↦
            let split : added w.accepts (at xs n frames) (ok (holding (xs ++ x ∷ [])))
                ≡ split_last w.accepts (at (xs ++ x ∷ []) n frames) (some (x, holding xs)) =
              rw f (ap (split_last w.accepts (at (xs ++ x ∷ []) n frames)) popped) in
            subst (Added xs n frames x) (sym split)
              (split_last-Added xs n frames x small (λ h. ground (arith, e, f, h)))
      ]

  pub add-Added :
      (xs : List Str) (n : ℕ) (frames : List Str) (x : Str)
      → (xs ≢ [] → Fits xs)
      → Added xs n frames x
          (add_answer_and_flush_if_needed w.accepts (λ b. ok (push_answer x b)) (at xs n frames))
  unfolding add_answer_and_flush_if_needed
  add-Added xs n frames x small =
      subst (λ b. Added xs n frames x (added w.accepts (at xs n frames) (ok b)))
        (sym (push_answer-holding xs x)) (added-Added xs n frames x small)

  length-concat_answers : (xs : List Str) → length (concat_answers xs) ≡ total xs
  unfolding concat_answers
  length-concat_answers [] = refl
  length-concat_answers (x ∷ xs) =
      length-append x (concat_answers xs) ∙ ap (λ n. length x + n) (length-concat_answers xs)

  -- A frame is as long as its length field says, and two octets more.
  length-frame_of : (xs : List Str) → length (frame_of xs) ≡ 18 + length w.qname + total xs
  unfolding build_message
  length-frame_of xs =
      let tail : Str = to_be_bytes ixfr_type ++ (to_be_bytes 1 ++ concat_answers xs) in
      omega (arith, length-append w.qname tail, length-concat_answers xs)

  pub frames_fit :
      (batches : List (List Str))
      → All Fits batches
      → All (λ (frame : Str). length frame ≤ 65537) (map frame_of batches)
  frames_fit [] h = tt
  frames_fit (xs ∷ batches) h =
      let here : length (frame_of xs) ≤ 65537 = omega (arith, length-frame_of xs, h.0) in
      (here, frames_fit batches h.1)
