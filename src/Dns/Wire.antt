-- ===== src/Dns/Wire.antt =====
-- wire/mod.rs: the messages of a transfer, from the octets of each answer to the frames on the stream.
use bindizr.Base.{
  ℕ, ◌+◌, ◌-◌, ◌/◌, ◌%◌, Bool, List, [], ◌∷◌, ◌++◌, Option, none, some, length, is_empty,
  if◌then◌else◌, ltb, leb, Result, ok, err,
}
use bindizr.Text.{Str}

pub data XfrError : Type 0 where
  zone_not_found database_error io_error protocol_error : XfrError
  notify_failed invalid_query access_denied : XfrError

abbrev pub dns_tcp_max_size : ℕ
dns_tcp_max_size = 65535

pub record DnsMessageBuilder : Type 0 where
  pub query_id : ℕ
  pub qname : Str
  pub qtype : ℕ
  pub answers : List Str
  pub answers_len : ℕ

abbrev pub with_answers : List Str → ℕ → DnsMessageBuilder → DnsMessageBuilder
with_answers answers answers_len b = record {
  query_id = b.query_id;
  qname = b.qname;
  qtype = b.qtype;
  answers = answers;
  answers_len = answers_len;
}

abbrev pub new_builder : ℕ → Str → ℕ → DnsMessageBuilder
new_builder query_id qname qtype = record {
  query_id = query_id;
  qname = qname;
  qtype = qtype;
  answers = [];
  answers_len = 0;
}

unfoldable pub message_len : DnsMessageBuilder → ℕ
message_len b = 12 + length b.qname + 4 + b.answers_len

unfoldable pub push_answer : Str → DnsMessageBuilder → DnsMessageBuilder
push_answer answer b = with_answers (b.answers ++ answer ∷ []) (b.answers_len + length answer) b

-- `Vec::pop`, with the list that is left.
unfoldable pub pop_last : List Str → Option (List Str × Str)
pop_last [] = none
pop_last (x ∷ xs) = elim (pop_last xs) [ none ↦ some ([], x) | some p ↦ some (x ∷ p.0, p.1) ]

unfoldable pub pop_last_answer : DnsMessageBuilder → Option (Str × DnsMessageBuilder)
unfolding pop_last
pop_last_answer b = elim (pop_last b.answers) [
  | none ↦ none
  | some p ↦ some (p.1, with_answers p.0 (b.answers_len - length p.1) b)
]

abbrev pub clear_answers : DnsMessageBuilder → DnsMessageBuilder
clear_answers b = with_answers [] 0 b

-- `to_be_bytes` of a `u16`
abbrev pub to_be_bytes : ℕ → Str
to_be_bytes n = (n / 256 % 256) ∷ (n % 256) ∷ []

unfoldable pub concat_answers : List Str → Str
concat_answers [] = []
concat_answers (x ∷ xs) = x ++ concat_answers xs

-- `build_message_into`, on an empty buffer.
unfoldable pub build_message : DnsMessageBuilder → Str
unfolding concat_answers
build_message b =
    to_be_bytes b.query_id
    ++ ((0x84 ∷ 0x00 ∷ [])
        ++ (to_be_bytes 1
            ++ (to_be_bytes (length b.answers % 65536)
                ++ (to_be_bytes 0
                    ++ (to_be_bytes 0
                        ++ (b.qname
                            ++ (to_be_bytes b.qtype
                                ++ (to_be_bytes 1 ++ concat_answers b.answers))))))))

unfoldable pub build_tcp_frame : DnsMessageBuilder → Result XfrError Str
unfolding message_len build_message
build_tcp_frame b =
    if ltb dns_tcp_max_size (message_len b)
    then err protocol_error
    else ok (to_be_bytes (message_len b) ++ build_message b)

-- A transfer on its way: the builder, `messages_sent`, and the frames that the stream has taken.
pub record Sending : Type 0 where
  pub builder : DnsMessageBuilder
  pub messages_sent : ℕ
  pub written : List Str

abbrev pub sending : DnsMessageBuilder → ℕ → List Str → Sending
sending b n frames = record { builder = b; messages_sent = n; written = frames }

-- A socket takes the next frame, or fails, by the frames that it has taken.
abbrev pub Socket : Type 0
Socket = List Str → Str → Bool

module _ (accepts : Socket) where
  abbrev pub write_frame : Sending → Result XfrError Str → Sending × Result XfrError ℕ
  write_frame s (err e) = (s, err e)
  write_frame s (ok frame) =
      if accepts s.written frame
      then (sending (clear_answers s.builder) s.messages_sent (s.written ++ frame ∷ []), ok 1)
      else (s, err io_error)

  unfoldable pub flush_message_if_not_empty : Sending → Sending × Result XfrError ℕ
  unfolding build_tcp_frame
  flush_message_if_not_empty s =
      if is_empty s.builder.answers then (s, ok 0) else write_frame s (build_tcp_frame s.builder)

  -- The answer that was taken off goes first into the next message.
  abbrev pub push_again : Str → Sending × Result XfrError ℕ → Sending × Result XfrError (Unit {0})
  push_again last (s, err e) = (s, err e)
  push_again last (s, ok n) =
      let b = push_answer last s.builder in
      let after = sending b (s.messages_sent + n) s.written in
      if ltb dns_tcp_max_size (message_len b) then (after, err protocol_error) else (after, ok tt)

  -- A message that has grown too long is written without its last answer.
  abbrev pub split_last :
      Sending → Option (Str × DnsMessageBuilder) → Sending × Result XfrError (Unit {0})
  split_last s none = (s, err protocol_error)
  split_last s (some (last, b)) =
      if is_empty b.answers
      then (sending (push_answer last b) s.messages_sent s.written, err protocol_error)
      else push_again last (flush_message_if_not_empty (sending b s.messages_sent s.written))

  abbrev pub added :
      Sending → Result XfrError DnsMessageBuilder → Sending × Result XfrError (Unit {0})
  added s (err e) = (s, err e)
  added s (ok b) =
      let grown = sending b s.messages_sent s.written in
      if leb (message_len b) dns_tcp_max_size
      then (grown, ok tt)
      else split_last grown (pop_last_answer b)

  unfoldable pub add_answer_and_flush_if_needed :
      (DnsMessageBuilder → Result XfrError DnsMessageBuilder)
      → Sending
      → Sending × Result XfrError (Unit {0})
  unfolding flush_message_if_not_empty push_answer message_len pop_last_answer
  add_answer_and_flush_if_needed add_answer s = added s (add_answer s.builder)
