-- ===== src/Sse/Tests.antt =====
-- src/providers/sse.rs: the repository's own test, and the theorems at concrete chunks.
use Prim.Native.String.{◌++◌ as text_append, len}
use rustygate.Prelude.{
  ◌+◌, ◌≤◌, ◌<◌, ◌⊎◌, String, ◌≡◌, refl, none, some, List, [], ◌∷◌, arith, ok, err,
}
use rustygate.Errors.{provider_bad_response}
use rustygate.Sse.{SseDataParser, split_at_delimiter, push_chunk, max_sse_buffer_bytes}
use rustygate.Sse.Push.{Splits, parsed, push_chunk_lem}
use rustygate.Sse.Chunks.{push_chunks, concat, push_chunks-concat}

abbrev empty : SseDataParser
empty = record { buffer = "" }

abbrev chunks : List String
chunks = "data: {1}\n\nda" ∷ "ta: {2}\n\n" ∷ []

runs : push_chunks empty chunks ≡ some (empty, ok ("{1}" ∷ "{2}" ∷ []))
unfolding push_chunks
runs = refl

push_chunk_lem_example :
    ((len "" + len "data: 1\n\n" ≤ max_sse_buffer_bytes)
      × (events : List String) × (r : String) × Splits (text_append "" "data: 1\n\n") events r
      × (push_chunk empty "data: 1\n\n" ≡ parsed events r))
    ⊎ ((max_sse_buffer_bytes < len "" + len "data: 1\n\n")
        × (push_chunk empty "data: 1\n\n" ≡ some (empty, err provider_bad_response)))
push_chunk_lem_example = push_chunk_lem empty "data: 1\n\n"

nothing_pending : split_at_delimiter "" ≡ none
unfolding split_at_delimiter
nothing_pending = refl

small : len "" + len (concat chunks) ≤ max_sse_buffer_bytes
unfolding concat
small = omega arith

push_chunks-concat_example : push_chunks empty chunks ≡ push_chunk empty (concat chunks)
push_chunks-concat_example = push_chunks-concat empty chunks nothing_pending small
