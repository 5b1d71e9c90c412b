-- ===== src/Text.antt =====
-- What the program uses of Rust's `str`: trimming, words and characters. White space is Unicode's
-- `White_Space`, as in `char::is_whitespace`.
use Prim.Native.Char.{Char, code, len_utf8}
use Prim.Native.String.{◌++◌, len}
use Prim.Native.String.len
use Prim.Native.String.append
use rustygate.Prelude.{
  ℕ, zero, suc, ◌+◌, ◌/◌, ◌%◌, ◌≤◌, ltb, String, ◌≡◌, refl, Bool, true, false, not, ◌&&◌, ◌||◌,
  arith, leb, ◌==◌, if◌then◌else◌,
}

unfoldable pub is_whitespace : ℕ → Bool
is_whitespace c =
    (leb 9 c && leb c 13)
    || c == 32
    || c == 133
    || c == 160
    || c == 5760
    || (leb 8192 c && leb c 8202)
    || c == 8232
    || c == 8233
    || c == 8239
    || c == 8287
    || c == 12288

unfoldable pub is_empty_text : String → Bool
is_empty_text String.[] = true
is_empty_text (String.◌∷◌ c s) = false

unfoldable pub trim_start : String → String
unfolding is_whitespace
trim_start String.[] = String.[]
trim_start (String.◌∷◌ c s) =
    let rest = trim_start s in if is_whitespace (code c) then rest else String.◌∷◌ c s

unfoldable pub trim_end : String → String
unfolding is_whitespace is_empty_text
trim_end String.[] = String.[]
trim_end (String.◌∷◌ c s) =
    let rest = trim_end s in
    if is_empty_text rest && is_whitespace (code c) then String.[] else String.◌∷◌ c rest

unfoldable pub trim : String → String
unfolding trim_start trim_end
trim s = trim_end (trim_start s)

-- `s.trim().is_empty()`
unfoldable pub is_blank : String → Bool
unfolding trim is_empty_text
is_blank s = is_empty_text (trim s)

-- `s.split_whitespace().count()`; the flag says that the previous character belongs to a word.
unfoldable pub count_words_from : Bool → String → ℕ
unfolding is_whitespace
count_words_from in_word String.[] = 0
count_words_from in_word (String.◌∷◌ c s) =
    let blank = is_whitespace (code c) in
    (if not blank && not in_word then 1 else 0) + count_words_from (not blank) s

unfoldable pub count_words : String → ℕ
unfolding count_words_from
count_words s = count_words_from false s

-- `s.chars().count()`
unfoldable pub count_chars : String → ℕ
count_chars String.[] = 0
count_chars (String.◌∷◌ c s) = suc (count_chars s)

abbrev digit : ℕ → String
digit n =
    if n == 0
    then "0"
    else if n == 1
    then "1"
    else if n == 2
    then "2"
    else if n == 3
    then "3"
    else if n == 4
    then "4"
    else if n == 5
    then "5"
    else if n == 6
    then "6"
    else if n == 7
    then "7"
    else if n == 8
    then "8"
    else "9"

show_from : ℕ → ℕ → String
show_from zero n = ""
show_from (suc fuel) n =
    let front = show_from fuel (n / 10) in if ltb n 10 then digit n else front ++ digit (n % 10)

-- `format!("{}", n)`: a number in decimal; it has at most `n + 1` digits.
unfoldable pub show_nat : ℕ → String
unfolding show_from
show_nat n = show_from (n + 1) n

-- Every character is white space.
unfoldable pub all_whitespace : String → Bool
unfolding is_whitespace
all_whitespace String.[] = true
all_whitespace (String.◌∷◌ c s) = is_whitespace (code c) && all_whitespace s

trim_end-all_whitespace : (s : String) → is_empty_text (trim_end s) ≡ all_whitespace s
unfolding trim_end is_empty_text all_whitespace
trim_end-all_whitespace String.[] = refl
trim_end-all_whitespace (String.◌∷◌ c s) = ground (arith, trim_end-all_whitespace s)

pub trim_start-all_whitespace : (s : String) → all_whitespace (trim_start s) ≡ all_whitespace s
unfolding trim_start all_whitespace
trim_start-all_whitespace String.[] = refl
trim_start-all_whitespace (String.◌∷◌ c s) = ground (arith, trim_start-all_whitespace s)

-- A text is blank exactly when all its characters are white space.
pub is_blank-all_whitespace : (s : String) → is_blank s ≡ all_whitespace s
unfolding is_blank
is_blank-all_whitespace s =
    rw (trim_end-all_whitespace (trim_start s)) (trim_start-all_whitespace s)

words_le_chars : (b : Bool) (s : String) → count_words_from b s ≤ count_chars s
unfolding count_words_from count_chars
words_le_chars b String.[] = omega arith
words_le_chars true (String.◌∷◌ c s) =
    ground (arith, words_le_chars (not (is_whitespace (code c))) s)
words_le_chars false (String.◌∷◌ c s) =
    ground (arith, words_le_chars (not (is_whitespace (code c))) s)

pub count_words-le-count_chars : (s : String) → count_words s ≤ count_chars s
unfolding count_words
count_words-le-count_chars s = words_le_chars false s

pub len-cons : (c : Char) (s : String) → len (String.◌∷◌ c s) ≡ len_utf8 c + len s
len-cons c s = len.cons c s

pub append-cons : (c : Char) (s t : String) → String.◌∷◌ c s ++ t ≡ String.◌∷◌ c (s ++ t)
append-cons c s t = append.cons c s t

pub append-nil : (t : String) → "" ++ t ≡ t
append-nil t = append.nil t

pub len-append : (s t : String) → len (s ++ t) ≡ len s + len t
len-append String.[] t = rw (append-nil t) (omega arith)
len-append (String.◌∷◌ c s) t =
    rw (append-cons c s t) (omega (arith, len-cons c (s ++ t), len-cons c s, len-append s t))
