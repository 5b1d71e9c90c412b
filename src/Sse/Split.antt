-- ===== src/Sse/Split.antt =====
-- src/providers/sse.rs: how a buffer falls into events.
use Prim.Native.String.{◌++◌ as text_append, len}
use Prim.Native.Char.{Char}
use rustygate.Prelude.{
  suc, ◌+◌, ◌≤◌, String, ◌≡◌, refl, ◌⊎◌, inl, inr, true, false, ◌&&◌, Option, none, some, arith,
  Bool-cases,
}
use rustygate.Text.{count_chars, len-cons, append-cons}
use rustygate.Sse.{split_at_delimiter, before_first, is_newline, starts_with_newline, drop_first}

-- The parts are smaller than the whole.
pub record IsSmaller (s raw rest : String) : Type 0 where
  pub raw_len : len raw + len rest ≤ len s
  pub rest_chars : suc (count_chars rest) ≤ count_chars s

drop_first_len : (s : String) → len (drop_first s) ≤ len s
drop_first_len String.[] = omega arith
drop_first_len (String.◌∷◌ c s) = omega (arith, len-cons c s)

drop_first_chars : (s : String) → count_chars (drop_first s) ≤ count_chars s
unfolding count_chars
drop_first_chars String.[] = omega arith
drop_first_chars (String.◌∷◌ c s) = omega arith

-- The two ways to find a delimiter.
abbrev Found : Char → String → String → String → Type 0
Found c s raw rest =
    ((is_newline c && starts_with_newline s ≡ true) × ((raw ≡ String.[]) × (rest ≡ drop_first s)))
    ⊎ ((is_newline c && starts_with_newline s ≡ false)
        × ((raw' : String) × ((split_at_delimiter s ≡ some (raw', rest))
              × (raw ≡ String.◌∷◌ c raw'))))

found_before :
    (c : Char) (s raw rest : String) (later : Option (String × String))
    → before_first c later ≡ some (raw, rest)
    → (raw' : String) × ((later ≡ some (raw', rest)) × (raw ≡ String.◌∷◌ c raw'))
found_before c s raw rest none e = cc
found_before c s raw rest (some (raw', rest')) e = (raw', (cc, cc))

split-cons :
    (c : Char) (s raw rest : String)
    → split_at_delimiter (String.◌∷◌ c s) ≡ some (raw, rest)
    → Found c s raw rest
unfolding split_at_delimiter
split-cons c s raw rest e = elim (Bool-cases (is_newline c && starts_with_newline s)) [
  | inl b ↦ inl (b, (ground arith, ground arith))
  | inr b ↦ inr (b, found_before c s raw rest (split_at_delimiter s) (ground arith))
]

pub split-IsSmaller :
    (s raw rest : String) → split_at_delimiter s ≡ some (raw, rest) → IsSmaller s raw rest
unfolding split_at_delimiter count_chars
split-IsSmaller String.[] raw rest e = cc
split-IsSmaller (String.◌∷◌ c s) raw rest e = elim (split-cons c s raw rest e) [
  | inl (b, (r, d)) ↦ record {
    raw_len = rw (r, d) (omega (arith, drop_first_len s, len-cons c s));
    rest_chars = rw d (omega (arith, drop_first_chars s));
  }
  | inr (b, (raw', (e', r))) ↦
      let ih = split-IsSmaller s raw' rest e' in
      record {
        raw_len = rw r (omega (arith, ih.raw_len, len-cons c s, len-cons c raw'));
        rest_chars = omega (arith, ih.rest_chars);
      }
]

starts-append :
    (s t : String)
    → starts_with_newline s ≡ true
    → (starts_with_newline (text_append s t) ≡ true)
      × (drop_first (text_append s t) ≡ text_append (drop_first s) t)
starts-append String.[] t h = cc
starts-append (String.◌∷◌ c s) t h = rw (append-cons c s t) (h, refl)

same_start :
    (s t raw rest : String)
    → split_at_delimiter s ≡ some (raw, rest)
    → starts_with_newline (text_append s t) ≡ starts_with_newline s
unfolding split_at_delimiter
same_start String.[] t raw rest e = cc
same_start (String.◌∷◌ c s) t raw rest e = rw (append-cons c s t) refl

-- More text after the buffer leaves the first event as it is.
pub split-append :
    (s t raw rest : String)
    → split_at_delimiter s ≡ some (raw, rest)
    → split_at_delimiter (text_append s t) ≡ some (raw, text_append rest t)
unfolding split_at_delimiter
split-append String.[] t raw rest e = cc
split-append (String.◌∷◌ c s) t raw rest e = elim (split-cons c s raw rest e) [
  | inl (b, (r, d)) ↦
      rw (append-cons c s t, r, d) (ground (arith, starts-append s t (ground arith)))
  | inr (b, (raw', (e', r))) ↦
      rw (append-cons c s t, r)
        (ground (arith, same_start s t raw' rest e', split-append s t raw' rest e'))
]
