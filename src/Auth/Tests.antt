-- ===== src/Auth/Tests.antt =====
-- src/auth/keys.rs: the theorems at concrete keys.
use rustygate.Prelude.{
  ℕ, ◌≤◌, String, ◌≡◌, ◌≢◌, List, [], ◌∷◌, refl, ◌↔◌, Bool, true, false, Option, none, some, str_eq,
  Result, ok, err,
}
use rustygate.Text.{is_empty_text}
use rustygate.Float.Model.{nat_float}
use rustygate.Auth.{
  inference, AuthError, AuthenticatedKey, KeyRow, role_name, role_from_str, parse_key_prefix,
  raw_key_of, split_underscore, authenticate_sqlite, revoke_key, check_quota_sqlite, UsageRow,
}
use rustygate.Auth.Laws.{role_from_str_iff, parse_key_prefix-raw_key_of, check_quota-bounds}
use rustygate.Auth.Vouched.{
  IsVouched, authenticate_sqlite-IsVouched, authenticate_sqlite-revoke_key,
}

role_from_str_iff_example :
    (role_from_str {E = ℕ} "inference" ≡ ok inference) ↔ ("inference" ≡ role_name inference)
role_from_str_iff_example = role_from_str_iff {E = ℕ} "inference" inference

no_underscore : split_underscore "ab12" ≡ none
unfolding split_underscore
no_underscore = refl

filled : is_empty_text "ab12" ≡ false
unfolding is_empty_text
filled = refl

secret_filled : is_empty_text "s_1" ≡ false
unfolding is_empty_text
secret_filled = refl

parse_key_prefix-raw_key_of_example : parse_key_prefix {E = ℕ} (raw_key_of "ab12" "s_1") ≡ ok "ab12"
parse_key_prefix-raw_key_of_example =
    parse_key_prefix-raw_key_of {E = ℕ} "ab12" "s_1" no_underscore filled secret_filled

abbrev row : KeyRow ℕ
row = record {
  id = "7";
  key_prefix = "ab12";
  key_hash = "rgk_ab12_s";
  label = "test";
  role = "inference";
  requests_per_minute = some 8;
  daily_token_quota = some 10;
  daily_cost_quota_usd = none;
  cache_enabled = 1;
  revoked_at_unix_seconds = none;
}

-- The table has a revoked key and one that is not.
abbrev pub rows : List (KeyRow ℕ)
rows =
    record row {
      id = "6";
      key_prefix = "ff";
      key_hash = "rgk_ff_s";
      revoked_at_unix_seconds = some 50;
    }
    ∷ row
    ∷ []

abbrev key : AuthenticatedKey ℕ
key = record {
  id = "7";
  prefix = "ab12";
  label = "test";
  role = inference;
  limits = record {
    requests_per_minute = some 8;
    daily_token_quota = some 10;
    daily_cost_quota_usd = none;
  };
  cache_enabled = true;
}

abbrev pub verify_key : String → String → Result Bool (AuthError ℕ)
verify_key raw_key hash = ok (str_eq raw_key hash)

let_in : authenticate_sqlite {E = ℕ} verify_key (ok rows) "rgk_ab12_s" ≡ ok (some key)
unfolding authenticate_sqlite str_eq
let_in = refl

revoked_key : authenticate_sqlite {E = ℕ} verify_key (ok rows) "rgk_ff_s" ≡ ok none
unfolding authenticate_sqlite str_eq
revoked_key = refl

authenticate_sqlite-IsVouched_example : IsVouched verify_key (ok rows) "rgk_ab12_s" key
authenticate_sqlite-IsVouched_example =
    authenticate_sqlite-IsVouched verify_key (ok rows) "rgk_ab12_s" key let_in

still_in :
    authenticate_sqlite {E = ℕ} verify_key (ok (revoke_key "6" 90 rows)) "rgk_ab12_s"
    ≡ ok (some key)
unfolding authenticate_sqlite revoke_key str_eq
still_in = refl

authenticate_sqlite-revoke_key_example : ◌≢◌ {A = String} "7" "6"
authenticate_sqlite-revoke_key_example =
    authenticate_sqlite-revoke_key verify_key rows "6" "rgk_ab12_s" 90 key still_in

abbrev usage : String → ℕ → Result (Option (UsageRow nat_float)) ℕ
usage api_key_id day = ok (some (some 10, some 5))

used_up : check_quota_sqlite nat_float usage 86_500 key ≡ err 86_300
unfolding check_quota_sqlite
used_up = refl

check_quota-bounds_example : (1 ≤ 86_300) × (86_300 ≤ 86_400)
check_quota-bounds_example = check_quota-bounds nat_float usage 86_500 86_300 key used_up
