-- ===== src/Sse/Data.antt =====
-- src/providers/sse.rs: the data of an event is no longer than its text.
use Prim.Native.Char.{Char, code, len_utf8, len_utf8_def}
use Prim.Native.String.{◌++◌ as text_append, len}
use rustygate.Prelude.{
  ℕ, suc, ◌+◌, ◌≤◌, ◌-◌, ◌==◌, ◌&&◌, String, ◌≡◌, refl, subst, unwrap_or, Bool, not, Option, none,
  some, List, [], ◌∷◌, map, arith, select, filter_map, found_first, either_branch,
}
use rustygate.Text.{trim_start, is_whitespace, is_empty_text, len-cons, len-append}
use rustygate.Sse.{
  lines, prepend_first, strip_prefix, join_lines, data_lines, joined, parse_event_data, is_newline,
  starts_with_newline,
}

-- The bytes of the lines, each with one for its end.
unfoldable total : List String → ℕ
total [] = 0
total (l ∷ ls) = suc (len l + total ls)

len_utf8-pos : (c : Char) → 1 ≤ len_utf8 c
len_utf8-pos c = rw (len_utf8_def c) (ground arith)

total-prepend_first :
    (c : Char) (ls : List String) → total (prepend_first c ls) ≤ suc (len_utf8 c + (total ls - 1))
unfolding total
total-prepend_first c [] = omega (arith, len-cons c "")
total-prepend_first c (l ∷ ls) = omega (arith, len-cons c l)

total-lines : (s : String) → total (lines s) ≤ suc (len s)
unfolding total lines
total-lines String.[] = omega arith
total-lines (String.◌∷◌ c s) =
    let ih = total-lines s in
    let pos = len_utf8-pos c in
    let whole = len-cons c s in
    let longer = total-prepend_first c (lines s) in
    either_branch (λ (ls : List String). total ls ≤ suc (len (String.◌∷◌ c s))) (is_newline c)
      (omega arith)
      (either_branch (λ (ls : List String). total ls ≤ suc (len (String.◌∷◌ c s)))
        (code c == 13 && starts_with_newline s) (omega arith) (omega arith))

len-strip_prefix : (p s d : String) → strip_prefix p s ≡ some d → len d ≤ len s
unfolding strip_prefix
len-strip_prefix String.[] s d e = ground arith
len-strip_prefix (String.◌∷◌ p ps) String.[] d e = cc
len-strip_prefix (String.◌∷◌ p ps) (String.◌∷◌ c s) d e =
    let ih = len-strip_prefix ps s d (ground arith) in omega (arith, len-cons c s, ih)

len-trim_start : (s : String) → len (trim_start s) ≤ len s
unfolding trim_start
len-trim_start String.[] = omega arith
len-trim_start (String.◌∷◌ c s) =
    either_branch (λ (t : String). len t ≤ len (String.◌∷◌ c s)) (is_whitespace (code c))
      (omega (arith, len-trim_start s, len-cons c s)) (omega arith)

stripped :
    (found : Option String) (l : String) (ls rest : List String)
    → ((d : String) → found ≡ some d → len d ≤ len l)
    → total (map trim_start rest) ≤ total ls
    → total (map trim_start (found_first found rest)) ≤ total (l ∷ ls)
unfolding total
stripped none l ls rest h k = omega (arith, k)
stripped (some d) l ls rest h k = omega (arith, h d refl, k, len-trim_start d)

total-stripped :
    (ls : List String) → total (map trim_start (filter_map (strip_prefix "data:") ls)) ≤ total ls
unfolding total
total-stripped [] = omega arith
total-stripped (l ∷ ls) =
    stripped (strip_prefix "data:" l) l ls (filter_map (strip_prefix "data:") ls)
      (len-strip_prefix "data:" l) (total-stripped ls)

total-select : (p : String → Bool) (ls : List String) → total (select p ls) ≤ total ls
unfolding total select
total-select p [] = omega arith
total-select p (l ∷ ls) =
    either_branch (λ (xs : List String). total xs ≤ total (l ∷ ls)) (p l)
      (omega (arith, total-select p ls)) (omega (arith, total-select p ls))

total-join_lines :
    (l : String) (ls : List String) → suc (len (join_lines (l ∷ ls))) ≡ total (l ∷ ls)
unfolding total join_lines
total-join_lines l [] = omega arith
total-join_lines l (l' ∷ ls) =
    let rest = join_lines (l' ∷ ls) in
    omega
      (arith, len-append l (text_append "\n" rest), len-append "\n" rest, total-join_lines l' ls)

joined_len : (ls : List String) (d : String) → joined ls ≡ some d → suc (len d) ≤ total ls
joined_len [] d e = cc
joined_len (l ∷ ls) d e =
    subst (λ (x : Option String). suc (len (unwrap_or x "")) ≤ total (l ∷ ls)) e
      (omega (arith, total-join_lines l ls))

pub len-parse_event_data :
    (raw_event event_data : String)
    → parse_event_data raw_event ≡ some event_data
    → len event_data ≤ len raw_event
unfolding parse_event_data data_lines
len-parse_event_data raw_event event_data e =
    let ls = map trim_start (filter_map (strip_prefix "data:") (lines raw_event)) in
    omega (
      arith,
      joined_len (data_lines raw_event) event_data e,
      total-select (λ line. not (is_empty_text line)) ls,
      total-stripped (lines raw_event),
      total-lines raw_event,
    )
