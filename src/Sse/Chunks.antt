-- ===== src/Sse/Chunks.antt =====
-- src/providers/sse.rs: where the stream is cut into chunks does not matter.
use Prim.Native.String.{◌++◌ as text_append, len}
use text.Mathlib.TextLemmas.{append_assoc, append-nil}
use rustygate.Prelude.{
  ◌+◌, ◌≤◌, String, ◌≡◌, refl, sym, ap, subst, Option, none, some, List, [], ◌∷◌, ◌++◌, arith,
  filter_map, found_first, ok, err,
}
use rustygate.Text.{len-append}
use rustygate.Sse.{
  SseDataParser, Pushed, split_at_delimiter, parse_event_data, push_chunk, max_sse_buffer_bytes,
}
use rustygate.Sse.Push.{Splits, rest, event, Splits-append, Splits-len, parsed, accepted}

-- A buffer splits in one way.
Splits-unique :
    {s r r' : String} {events events' : List String}
    → Splits s events r
    → Splits s events' r'
    → (events ≡ events') × (r ≡ r')
Splits-unique (rest e) (rest e') = (refl, refl)
Splits-unique (rest e) (event e' d') = cc
Splits-unique (event e d) (rest e') = cc
Splits-unique (event {s} {raw_event} {s'} {r} {events} e d)
      (event {s' = s2} {r = r'} {events = events'} e' d') =
    let same : s2 ≡ s' = cc in
    let (es, rs) = Splits-unique d (subst (λ (x : String). Splits x events' r') same d') in (cc, rs)

Splits-pending :
    {s r : String} {events : List String} → Splits s events r → split_at_delimiter r ≡ none
Splits-pending (rest e) = e
Splits-pending (event e d) = Splits-pending d

-- The first result, and the calls after it: their events follow, and the first failure ends them.
abbrev prepend_events : List String → Pushed → Pushed
prepend_events events none = none
prepend_events events (some (parser, ok more)) = some (parser, ok (events ++ more))
prepend_events events (some (parser, err e)) = some (parser, err e)

abbrev and_then : Pushed → (SseDataParser → Pushed) → Pushed
and_then none later = none
and_then (some (parser, ok events)) later = prepend_events events (later parser)
and_then (some (parser, err e)) later = some (parser, err e)

-- One call for each chunk.
unfoldable pub push_chunks : SseDataParser → List String → Pushed
unfolding push_chunk
push_chunks parser [] = some (parser, ok [])
push_chunks parser (chunk ∷ chunks) =
    and_then (push_chunk parser chunk) (λ parser'. push_chunks parser' chunks)

unfoldable pub concat : List String → String
concat [] = ""
concat (chunk ∷ chunks) = text_append chunk (concat chunks)

filter_map-append :
    (found : String → Option String) (xs ys : List String)
    → filter_map found (xs ++ ys) ≡ filter_map found xs ++ filter_map found ys
filter_map-append found [] ys = refl
filter_map-append found (x ∷ xs) ys =
    found_first-append (found x) (filter_map found xs) (filter_map found ys)
      (filter_map found (xs ++ ys)) (filter_map-append found xs ys)
  where
    found_first-append :
        (o : Option String) (xs' ys' zs : List String)
        → zs ≡ xs' ++ ys'
        → found_first o zs ≡ found_first o xs' ++ ys'
    found_first-append none xs' ys' zs h = h
    found_first-append (some y) xs' ys' zs h = ap (λ l. y ∷ l) h

push_chunks-Splits :
    (parser : SseDataParser) (chunks : List String)
    → split_at_delimiter parser.buffer ≡ none
    → len parser.buffer + len (concat chunks) ≤ max_sse_buffer_bytes
    → (events : List String) × (r : String) × Splits
        (text_append parser.buffer (concat chunks))
        events
        r
      × (push_chunks parser chunks ≡ parsed events r)
unfolding push_chunks concat
push_chunks-Splits parser [] pending h =
    ([], parser.buffer, rw (append-nil parser.buffer) (rest pending), refl)
push_chunks-Splits parser (chunk ∷ chunks) pending h =
    let tail = concat chunks in
    let (events, r, d, ran) = accepted parser chunk (omega (arith, h, len-append chunk tail)) in
    let (more, r', d', ran') =
      push_chunks-Splits (record { buffer = r }) chunks (Splits-pending d)
        (omega (arith, h, Splits-len d, len-append chunk tail, len-append parser.buffer chunk)) in
    (
      events ++ more,
      r',
      rw (sym (append_assoc parser.buffer chunk tail)) (Splits-append tail d d'),
      rw (ran, ran', filter_map-append parse_event_data events more) refl,
    )

-- Where a stream of at most 262,144 bytes is cut does not matter: the calls for the chunks, one after
-- the other, leave the same buffer and return the same events as one call for the whole text.
pub push_chunks-concat :
    (parser : SseDataParser) (chunks : List String)
    → split_at_delimiter parser.buffer ≡ none
    → len parser.buffer + len (concat chunks) ≤ max_sse_buffer_bytes
    → push_chunks parser chunks ≡ push_chunk parser (concat chunks)
push_chunks-concat parser chunks pending h =
    let (events, r, d, ran) = push_chunks-Splits parser chunks pending h in
    let (events', r', d', ran') = accepted parser (concat chunks) h in
    let (same, left) = Splits-unique d d' in rw (ran, ran', same, left) refl
