-- ===== src/Auth/Laws.antt =====
-- src/auth/keys.rs: the text of a key and of a role can be read back, and the wait of a refused quota.
use Prim.Native.Char.{Char, char}
use Prim.Native.String.{◌++◌ as text_append}
use text.Mathlib.TextLemmas.{append_assoc}
use rustygate.Prelude.{
  ℕ, ◌≤◌, ◌/◌, String, ◌≡◌, refl, ap, ◌∙◌, ◌↔◌, false, Option, none, some, arith, str_eq,
  str_eq_iff, Result, ok, err,
}
use rustygate.Text.{is_empty_text, append-cons, append-nil}
use rustygate.Float.{Float}
use rustygate.Auth.{
  KeyRole, admin, inference, observability, AuthenticatedKey, role_name, role_from_str,
  split_underscore, splitn_3, parse_key_prefix, raw_key_of, seconds_until_next_day,
  check_quota_sqlite, KeyLimits, compare_usage, UsageRow,
}

role_of_name : {E : Type 0} (r : KeyRole) → role_from_str {E = E} (role_name r) ≡ ok r
unfolding role_from_str role_name str_eq
role_of_name admin = refl
role_of_name inference = refl
role_of_name observability = refl

name_of_role :
    {E : Type 0} (s : String) (r : KeyRole) → role_from_str {E = E} s ≡ ok r → s ≡ role_name r
unfolding role_from_str role_name
name_of_role s r e =
    ground (arith, str_eq_iff s "admin", str_eq_iff s "inference", str_eq_iff s "observability")

-- A text is read as a role exactly where it is that role's name.
pub role_from_str_iff :
    {E : Type 0} (s : String) (r : KeyRole) → (role_from_str {E = E} s ≡ ok r) ↔ (s ≡ role_name r)
role_from_str_iff {E = E} s r = (
  name_of_role {E = E} s r,
  (λ p. ap (λ (x : String). role_from_str {E = E} x) p ∙ role_of_name r),
)

abbrev underscore : Char
underscore = char 95 tt

underscore_first : (t : String) → text_append "_" t ≡ String.◌∷◌ underscore t
underscore_first t =
    append-cons underscore "" t ∙ ap (λ (x : String). String.◌∷◌ underscore x) (append-nil t)

split-append :
    (s t : String)
    → split_underscore s ≡ none
    → split_underscore (text_append s (text_append "_" t)) ≡ some (s, t)
unfolding split_underscore
split-append String.[] t h = rw (append-nil (text_append "_" t), underscore_first t) refl
split-append (String.◌∷◌ c s) t h =
    rw (append-cons c s (text_append "_" t)) (ground (arith, split-append s t))

-- The prefix of a key that `create_key` makes is read back: it and the secret are not empty, and it
-- has no underscore.
pub parse_key_prefix-raw_key_of :
    {E : Type 0} (prefix secret : String)
    → split_underscore prefix ≡ none
    → is_empty_text prefix ≡ false
    → is_empty_text secret ≡ false
    → parse_key_prefix {E = E} (raw_key_of prefix secret) ≡ ok prefix
unfolding parse_key_prefix splitn_3
parse_key_prefix-raw_key_of prefix secret plain h k =
    let rest = text_append prefix (text_append "_" secret) in
    rw
      (
        append_assoc "rgk" "_" rest,
        split-append "rgk" rest refl,
        split-append prefix secret plain,
        h,
        k,
      )
      refl

seconds_until-bounds :
    (now : ℕ) → (1 ≤ seconds_until_next_day now) × (seconds_until_next_day now ≤ 86_400)
unfolding seconds_until_next_day
seconds_until-bounds now = (omega arith, omega arith)

module _ (fl : Float) {E : Type 0} (usage : String → ℕ → Result (Option (UsageRow fl)) E) where
  compare-bounds :
      (limits : KeyLimits fl.F64) (now wait : ℕ) (row : Result (Option (UsageRow fl)) E)
      → compare_usage fl usage limits now row ≡ err wait
      → (1 ≤ wait) × (wait ≤ 86_400)
  unfolding compare_usage
  compare-bounds limits now wait (err f) e = ground (arith, seconds_until-bounds now)
  compare-bounds limits now wait (ok row) e = ground (arith, seconds_until-bounds now)

  -- A refusal for the quota asks the caller to wait for a second at least and a day at most.
  pub check_quota-bounds :
      (now wait : ℕ) (key : AuthenticatedKey fl.F64)
      → check_quota_sqlite fl usage now key ≡ err wait
      → (1 ≤ wait) × (wait ≤ 86_400)
  unfolding check_quota_sqlite
  check_quota-bounds now wait key e =
      ground (arith, compare-bounds key.limits now wait (usage key.id (now / 86_400)))
