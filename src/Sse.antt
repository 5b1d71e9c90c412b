-- ===== src/Sse.antt =====
-- src/providers/sse.rs: the parser of server-sent events. A text's positions are counted in bytes, as
pub mod Split
pub mod Data
pub mod Push
pub mod Chunks
mod Tests
-- in Rust; a text that the program cuts at a position is the pair of its parts.
use Prim.Native.Char.{Char, code}
use Prim.Native.String.{◌++◌ as text_append, len}
use rustygate.Prelude.{
  ℕ, zero, suc, String, Bool, true, false, not, ◌&&◌, Option, none, some, List, [], ◌∷◌, map, ◌==◌,
  ltb, select, filter_map, saturating_add_u64, if◌then◌else◌, Result, ok, err,
}
use rustygate.Text.{trim_start, is_empty_text, count_chars}
use rustygate.Errors.{ProviderError, provider_bad_response}

abbrev pub max_sse_buffer_bytes : ℕ
max_sse_buffer_bytes = 262_144

abbrev pub max_sse_event_bytes : ℕ
max_sse_event_bytes = 262_144

pub record SseDataParser : Type 0 where
  pub buffer : String

abbrev pub is_newline : Char → Bool
is_newline c = code c == 10

abbrev pub starts_with_newline : String → Bool
starts_with_newline String.[] = false
starts_with_newline (String.◌∷◌ c s) = is_newline c

abbrev pub drop_first : String → String
drop_first String.[] = String.[]
drop_first (String.◌∷◌ c s) = s

abbrev pub before_first : Char → Option (String × String) → Option (String × String)
before_first c none = none
before_first c (some (raw_event, rest)) = some (String.◌∷◌ c raw_event, rest)

-- `find("\n\n")`, as the text before the first delimiter and the text after it.
unfoldable pub split_at_delimiter : String → Option (String × String)
split_at_delimiter String.[] = none
split_at_delimiter (String.◌∷◌ c s) =
    let later = split_at_delimiter s in
    if is_newline c && starts_with_newline s
    then some (String.[], drop_first s)
    else before_first c later

abbrev pub prepend_first : Char → List String → List String
prepend_first c [] = String.◌∷◌ c String.[] ∷ []
prepend_first c (l ∷ ls) = String.◌∷◌ c l ∷ ls

-- `str::lines`: a line ends at "\n" or "\r\n", and the last one may be without an end.
unfoldable pub lines : String → List String
lines String.[] = []
lines (String.◌∷◌ c s) =
    let rest = lines s in
    if is_newline c
    then String.[] ∷ rest
    else if code c == 13 && starts_with_newline s
    then rest
    else prepend_first c rest

-- `str::strip_prefix`
unfoldable pub strip_prefix : String → String → Option String
strip_prefix String.[] s = some s
strip_prefix (String.◌∷◌ p ps) String.[] = none
strip_prefix (String.◌∷◌ p ps) (String.◌∷◌ c s) =
    let rest = strip_prefix ps s in if code p == code c then rest else none

-- `join("\n")`
unfoldable pub join_lines : List String → String
join_lines [] = ""
join_lines (l ∷ []) = l
join_lines (l ∷ l' ∷ ls) = text_append l (text_append "\n" (join_lines (l' ∷ ls)))

unfoldable pub data_lines : String → List String
unfolding lines strip_prefix trim_start is_empty_text select
data_lines raw_event =
    select (λ line. not (is_empty_text line))
      (map trim_start (filter_map (strip_prefix "data:") (lines raw_event)))

abbrev pub joined : List String → Option String
joined [] = none
joined (l ∷ ls) = some (join_lines (l ∷ ls))

unfoldable pub parse_event_data : String → Option String
unfolding data_lines join_lines
parse_event_data raw_event = joined (data_lines raw_event)

-- What a call returns: the parser after it, and its result; `none` where the fuel is used up.
abbrev pub Pushed : Type 0
Pushed = Option (SseDataParser × Result (List String) ProviderError)

abbrev pub push_event : String → Pushed → Pushed
push_event event_data none = none
push_event event_data (some (parser, ok events)) = some (parser, ok (event_data ∷ events))
push_event event_data (some (parser, err e)) = some (parser, err e)

abbrev pub take_event : Option String → String → Pushed → Pushed
take_event none rest later = later
take_event (some event_data) rest later =
    if ltb max_sse_event_bytes (len event_data)
    then some (record { buffer = rest }, err provider_bad_response)
    else push_event event_data later

-- The loop, on fuel: each turn that goes on takes two characters or more from the buffer.
unfoldable pub drain_events : ℕ → String → Pushed
unfolding split_at_delimiter parse_event_data
drain_events zero buffer = none
drain_events (suc fuel) buffer = elim (split_at_delimiter buffer) [
  | none ↦ some (record { buffer = buffer }, ok [])
  | some (raw_event, rest) ↦
      if ltb max_sse_event_bytes (len raw_event)
      then some (record { buffer = buffer }, err provider_bad_response)
      else take_event (parse_event_data raw_event) rest (drain_events fuel rest)
]

unfoldable pub push_chunk : SseDataParser → String → Pushed
unfolding drain_events count_chars
push_chunk parser chunk =
    let buffer = text_append parser.buffer chunk in
    if ltb max_sse_buffer_bytes (saturating_add_u64 (len parser.buffer) (len chunk))
    then some (parser, err provider_bad_response)
    else drain_events (suc (count_chars buffer)) buffer
