-- ===== src/Auth.antt =====
-- src/auth/keys.rs: the API keys, their roles and quotas, and the two key stores. `F` is `f64` and `E`
-- the error type of the database. The table `api_keys` is the list of its rows, on which the
-- statements work; reading it may fail. The usage query and the hashes of the passwords are parameters.
-- An `i64` of the database is its 64-bit pattern.
pub mod Laws
pub mod Tests
pub mod Vouched
use Prim.Native.Char.{Char, code}
use Prim.Native.String.{◌++◌ as text_append}
use rustygate.Prelude.{
  ℕ, ◌-◌, ◌/◌, ◌%◌, String, Bool, true, false, not, ◌&&◌, ◌||◌, Option, none, some, ◌==◌, leb, List,
  [], ◌∷◌, if◌then◌else◌, str_eq, unwrap_or, is_some, is_some_and, Result, ok, err, ◌>>=◌,
}
use rustygate.Text.{is_empty_text}
use rustygate.Float.{Float}

pub data KeyRole : Type 0 where
  admin inference observability : KeyRole

-- KeyRole::as_str
unfoldable pub role_name : KeyRole → String
role_name admin = "admin"
role_name inference = "inference"
role_name observability = "observability"

unfoldable pub allows_inference : KeyRole → Bool
allows_inference admin = true
allows_inference inference = true
allows_inference observability = false

unfoldable pub allows_observability : KeyRole → Bool
allows_observability admin = true
allows_observability inference = false
allows_observability observability = true

pub data AuthError (E : Type 0) : Type 0 where
  invalid_role : String → AuthError E
  invalid_key_format : AuthError E
  hash : AuthError E
  storage : E → AuthError E
  migration : E → AuthError E

-- KeyRole::from_str
unfoldable pub role_from_str : {E : Type 0} → String → Result KeyRole (AuthError E)
unfolding str_eq
role_from_str value =
    if str_eq value "admin"
    then ok admin
    else if str_eq value "inference"
    then ok inference
    else if str_eq value "observability"
    then ok observability
    else err (invalid_role value)

pub record KeyLimits (F : Type 0) : Type 0 where
  pub requests_per_minute : Option ℕ  -- u32
  pub daily_token_quota : Option ℕ  -- u64
  pub daily_cost_quota_usd : Option F

pub record AuthenticatedKey (F : Type 0) : Type 0 where
  pub id : String
  pub prefix : String
  pub label : String
  pub role : KeyRole
  pub limits : KeyLimits F
  pub cache_enabled : Bool

-- QuotaRejection is its `retry_after_seconds`.
pub record KeyStore (F E : Type 0) : Type 0 where
  pub authenticate : String → Result (Option (AuthenticatedKey F)) (AuthError E)
  pub check_quota : AuthenticatedKey F → Result (Unit {0}) ℕ

-- StaticKeyStore: the one key, compared in constant time.
unfoldable pub authenticate_static :
    {F E : Type 0} → String → String → Result (Option (AuthenticatedKey F)) (AuthError E)
unfolding str_eq
authenticate_static stored raw_key =
    if str_eq raw_key stored
    then ok (
        some (record {
          id = "env-default";
          prefix = "env";
          label = "environment default key";
          role = admin;
          limits = record {
            requests_per_minute = none;
            daily_token_quota = none;
            daily_cost_quota_usd = none;
          };
          cache_enabled = true;
        }))
    else ok none

abbrev pub before_char : Char → Option (String × String) → Option (String × String)
before_char c none = none
before_char c (some (front, back)) = some (String.◌∷◌ c front, back)

-- The parts of a text around its first `_`, which `splitn` takes.
unfoldable pub split_underscore : String → Option (String × String)
split_underscore String.[] = none
split_underscore (String.◌∷◌ c s) =
    let later = split_underscore s in
    if code c == 95 then some (String.[], s) else before_char c later

abbrev with_first : String → Option (String × String) → Option (String × String × String)
with_first first none = none
with_first first (some (second, third)) = some (first, second, third)

abbrev three_parts : Option (String × String) → Option (String × String × String)
three_parts none = none
three_parts (some (first, rest)) = with_first first (split_underscore rest)

unfoldable pub splitn_3 : String → Option (String × String × String)
unfolding split_underscore
splitn_3 raw_key = three_parts (split_underscore raw_key)

abbrev prefix_of : {E : Type 0} → Option (String × String × String) → Result String (AuthError E)
prefix_of none = err invalid_key_format
prefix_of (some (first, prefix, secret)) =
    if str_eq first "rgk" && not (is_empty_text prefix) && not (is_empty_text secret)
    then ok prefix
    else err invalid_key_format

unfoldable pub parse_key_prefix : {E : Type 0} → String → Result String (AuthError E)
unfolding splitn_3 str_eq is_empty_text
parse_key_prefix raw_key = prefix_of (splitn_3 raw_key)

-- `format!("rgk_{prefix}_{secret}")` of `create_key`
abbrev pub raw_key_of : String → String → String
raw_key_of prefix secret = text_append "rgk_" (text_append prefix (text_append "_" secret))

-- A row of the table `api_keys`, which holds a prefix once at most.
pub record KeyRow (F : Type 0) : Type 0 where
  pub id : String
  pub key_prefix : String
  pub key_hash : String
  pub label : String
  pub role : String
  pub requests_per_minute : Option ℕ
  pub daily_token_quota : Option ℕ
  pub daily_cost_quota_usd : Option F
  pub cache_enabled : ℕ
  pub revoked_at_unix_seconds : Option ℕ

-- `revoked_at_unix_seconds IS NULL`
abbrev pub is_active : {F : Type 0} → KeyRow F → Bool
is_active row = not (is_some row.revoked_at_unix_seconds)

-- `WHERE key_prefix = ? AND revoked_at_unix_seconds IS NULL`, with `fetch_optional`
unfoldable pub find_active : {F : Type 0} → String → List (KeyRow F) → Option (KeyRow F)
unfolding str_eq
find_active prefix [] = none
find_active prefix (row ∷ rows) =
    let rest = find_active prefix rows in
    if str_eq row.key_prefix prefix && is_active row then some row else rest

abbrev pub fetch :
    {F E : Type 0} → String → Result (List (KeyRow F)) E → Result (Option (KeyRow F)) E
fetch prefix (err e) = err e
fetch prefix (ok rows) = ok (find_active prefix rows)

abbrev revoke_row : {F : Type 0} → String → ℕ → KeyRow F → KeyRow F
revoke_row id now row =
    if str_eq row.id id then record row { revoked_at_unix_seconds = some now } else row

-- The table after the `UPDATE` of SqliteKeyStore::revoke_key
unfoldable pub revoke_key : {F : Type 0} → String → ℕ → List (KeyRow F) → List (KeyRow F)
unfolding str_eq
revoke_key id now [] = []
revoke_key id now (row ∷ rows) = revoke_row id now row ∷ revoke_key id now rows

abbrev pub as_u32 : Option ℕ → Option ℕ
as_u32 none = none
as_u32 (some value) = some (value % 4_294_967_296)

unfoldable pub row_to_key : {F E : Type 0} → KeyRow F → Result (AuthenticatedKey F) (AuthError E)
unfolding role_from_str
row_to_key row = role_from_str row.role >>= λ role. ok (record {
  id = row.id;
  prefix = row.key_prefix;
  label = row.label;
  role = role;
  limits = record {
    requests_per_minute = as_u32 row.requests_per_minute;
    daily_token_quota = row.daily_token_quota;
    daily_cost_quota_usd = row.daily_cost_quota_usd;
  };
  cache_enabled = not (row.cache_enabled == 0);
})

abbrev pub some_key :
    {F E : Type 0}
    → Result (AuthenticatedKey F) (AuthError E)
    → Result (Option (AuthenticatedKey F)) (AuthError E)
some_key (ok key) = ok (some key)
some_key (err e) = err e

module _ {F E : Type 0} (verify_key : String → String → Result Bool (AuthError E)) where
  unfoldable pub checked_row :
      String → KeyRow F → Result (Option (AuthenticatedKey F)) (AuthError E)
  unfolding row_to_key
  checked_row raw_key row = verify_key raw_key row.key_hash >>= λ good.
      if good then some_key (row_to_key row) else ok none

  unfoldable pub fetched_row :
      String → Result (Option (KeyRow F)) E → Result (Option (AuthenticatedKey F)) (AuthError E)
  unfolding checked_row
  fetched_row raw_key (err e) = err (storage e)
  fetched_row raw_key (ok none) = ok none
  fetched_row raw_key (ok (some row)) = checked_row raw_key row

  -- SqliteKeyStore::authenticate, on what reading the table `api_keys` gives
  unfoldable pub authenticate_sqlite :
      Result (List (KeyRow F)) E → String → Result (Option (AuthenticatedKey F)) (AuthError E)
  unfolding parse_key_prefix find_active fetched_row
  authenticate_sqlite api_keys raw_key =
      parse_key_prefix raw_key >>= λ prefix. fetched_row raw_key (fetch prefix api_keys)

unfoldable pub seconds_until_next_day : ℕ → ℕ
seconds_until_next_day unix_seconds = 86_400 - unix_seconds % 86_400

-- `row.as_ref().and_then(|row| column.ok())`: the column of a row that is there and can be read
abbrev pub column : {R A : Type 0} → (R → Option A) → Option R → Option A
column read none = none
column read (some row) = read row

-- A usage row: each of its two columns, where it can be read as the number it should be
abbrev pub UsageRow : Float → Type 0
UsageRow fl = Option ℕ × Option fl.F64

module _ (fl : Float) {E : Type 0} (usage : String → ℕ → Result (Option (UsageRow fl)) E) where
  -- The comparison with the day's sums
  unfoldable pub is_over_quota : KeyLimits fl.F64 → ℕ × fl.F64 → Bool
  is_over_quota limits (total_tokens, total_cost_usd) =
      is_some_and limits.daily_token_quota (λ quota. leb quota total_tokens)
      || is_some_and limits.daily_cost_quota_usd (λ quota. fl.le_f64 quota total_cost_usd)

  unfoldable pub compare_usage :
      KeyLimits fl.F64 → ℕ → Result (Option (UsageRow fl)) E → Result (Unit {0}) ℕ
  unfolding seconds_until_next_day is_over_quota
  compare_usage limits now (err e) = err (seconds_until_next_day now)
  compare_usage limits now (ok row) =
      let total_tokens = unwrap_or (column (λ (r : UsageRow fl). r.0) row) 0 in
      let total_cost_usd = unwrap_or (column (λ (r : UsageRow fl). r.1) row) fl.zero_f64 in
      if is_over_quota limits (total_tokens, total_cost_usd)
      then err (seconds_until_next_day now)
      else ok tt

  -- SqliteKeyStore::check_quota
  unfoldable pub check_quota_sqlite : ℕ → AuthenticatedKey fl.F64 → Result (Unit {0}) ℕ
  unfolding compare_usage
  check_quota_sqlite now key =
      if not (is_some key.limits.daily_token_quota) && not (is_some key.limits.daily_cost_quota_usd)
      then ok tt
      else compare_usage key.limits now (usage key.id (now / 86_400))
