-- ===== src/Sse/Push.antt =====
-- src/providers/sse.rs: what `SseDataParser::push_chunk` returns, said by the splitting of the buffer.
use Prim.Native.String.{◌++◌ as text_append, len}
use rustygate.Prelude.{
  ℕ, zero, suc, ◌+◌, ◌≤◌, ◌<◌, String, ◌≡◌, refl, ◌∙◌, ◌⊎◌, inl, inr, false, Option, none, some,
  List, [], ◌∷◌, ◌++◌, arith, Option-cases, Bool-cases, filter_map, found_first, ltb, ok, err,
}
use rustygate.Text.{count_chars, len-append}
use rustygate.Errors.{provider_bad_response}
use rustygate.Sse.{
  SseDataParser, Pushed, take_event, split_at_delimiter, parse_event_data, drain_events, push_chunk,
  max_sse_buffer_bytes, max_sse_event_bytes,
}
use rustygate.Sse.Split.{split-IsSmaller, split-append}
use rustygate.Sse.Data.{len-parse_event_data}

-- A buffer is some complete events and a rest that holds no complete one.
pub data Splits : String → List String → String → Type 0 where
  rest : {s : String} → split_at_delimiter s ≡ none → Splits s [] s
  event :
      {s raw_event s' r : String} {events : List String}
      → split_at_delimiter s ≡ some (raw_event, s')
      → Splits s' events r
      → Splits s (raw_event ∷ events) r

pub Splits-append :
    {s r r' : String} {events more : List String} (t : String)
    → Splits s events r
    → Splits (text_append r t) more r'
    → Splits (text_append s t) (events ++ more) r'
Splits-append t (rest e) m = m
Splits-append t (event {s} {raw_event} {s'} e d) m =
    event (split-append s t raw_event s' e) (Splits-append t d m)

pub Splits-len : {s r : String} {events : List String} → Splits s events r → len r ≤ len s
Splits-len (rest e) = omega arith
Splits-len (event {s} {raw_event} {s'} e d) =
    omega (arith, Splits-len d, (split-IsSmaller s raw_event s' e).raw_len)

-- What a call returns that ends well.
abbrev pub parsed : List String → String → Pushed
parsed events r = some (record { buffer = r }, ok (filter_map parse_event_data events))

-- The splitting that the loop finds, where the fuel is enough and the buffer small.
Drains : ℕ → String → Type 0
Drains fuel s =
    (events : List String) × (r : String) × Splits s events r
    × (drain_events fuel s ≡ parsed events r)

ltb-false : (a b : ℕ) → b ≤ a → ltb a b ≡ false
ltb-false a b h = ground arith

take_event_lem :
    (found : Option String) (s r : String) (events : List String)
    → ((d : String) → found ≡ some d → len d ≤ max_sse_event_bytes)
    → take_event found s (parsed events r)
      ≡ some (record { buffer = r }, ok (found_first found (filter_map parse_event_data events)))
take_event_lem none s r events h = refl
take_event_lem (some d) s r events h = ground (arith, h d refl)

drains :
    (fuel : ℕ) (s : String) → count_chars s < fuel → len s ≤ max_sse_buffer_bytes → Drains fuel s
unfolding drain_events Drains
drains zero s h k = ground arith
drains (suc fuel) s h k = elim (Option-cases (split_at_delimiter s)) [
  | inl e ↦ ([], s, rest e, rw (e, drain_events) refl)
  | inr ((raw, s'), e) ↦
      let small = split-IsSmaller s raw s' e in
      let (events, r, d, ran) =
        drains fuel s' (omega (arith, small.rest_chars)) (omega (arith, small.raw_len)) in
      (
        raw ∷ events,
        r,
        event e d,
        rw (e, drain_events, ran)
            (rw (ltb-false max_sse_event_bytes (len raw) (omega (arith, small.raw_len))) (
              take_event_lem (parse_event_data raw) s' r events
                (λ x f. omega (arith, small.raw_len, len-parse_event_data raw x f)))),
      )
]

within :
    (parser : SseDataParser) (chunk : String)
    → len parser.buffer + len chunk ≤ max_sse_buffer_bytes
    → push_chunk parser chunk
      ≡ drain_events
          (suc (count_chars (text_append parser.buffer chunk)))
          (text_append parser.buffer chunk)
unfolding push_chunk
within parser chunk h = ground arith

pub accepted :
    (parser : SseDataParser) (chunk : String)
    → len parser.buffer + len chunk ≤ max_sse_buffer_bytes
    → (events : List String) × (r : String) × Splits (text_append parser.buffer chunk) events r
      × (push_chunk parser chunk ≡ parsed events r)
unfolding Drains
accepted parser chunk h =
    let s = text_append parser.buffer chunk in
    let (events, r, d, ran) =
      drains (suc (count_chars s)) s (omega arith)
        (omega (arith, h, len-append parser.buffer chunk)) in
    (events, r, d, within parser chunk h ∙ ran)

-- A call always returns. Either the buffer with the new chunk has at most 262,144 bytes, and is split
-- into the complete events, whose data is returned in order, and the rest, which is the new buffer and
-- holds no complete event; or it has more, and the chunk is refused and the buffer left. A call fails
-- in no other way.
pub push_chunk_lem :
    (parser : SseDataParser) (chunk : String)
    → ((len parser.buffer + len chunk ≤ max_sse_buffer_bytes)
        × (events : List String) × (r : String) × Splits (text_append parser.buffer chunk) events r
        × (push_chunk parser chunk ≡ parsed events r))
      ⊎ ((max_sse_buffer_bytes < len parser.buffer + len chunk)
          × (push_chunk parser chunk ≡ some (parser, err provider_bad_response)))
unfolding push_chunk
push_chunk_lem parser chunk =
    elim (Bool-cases (ltb max_sse_buffer_bytes (len parser.buffer + len chunk))) [
      | inl b ↦ inr (ground arith, ground arith)
      | inr b ↦
          let small : len parser.buffer + len chunk ≤ max_sse_buffer_bytes = ground arith in
          let (events, r, d, ran) = accepted parser chunk small in inl (small, events, r, d, ran)
    ]
