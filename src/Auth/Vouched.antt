-- ===== src/Auth/Vouched.antt =====
-- src/auth/keys.rs: whom the key store in the database lets in, and that it lets in no revoked key.
use rustygate.Prelude.{
  ℕ, String, ◌≡◌, ◌≢◌, refl, sym, ap, subst, ◌∙◌, ◌⊎◌, inl, inr, Bool, true, false, Option, none,
  some, List, [], ◌∷◌, ◌&&◌, arith, str_eq, str_eq_iff, is_some, if◌then◌else◌, Result, ok, err,
  ◌>>=◌, Bool-cases,
}
use rustygate.Auth.{
  AuthError, AuthenticatedKey, KeyRow, parse_key_prefix, row_to_key, role_from_str, is_active,
  find_active, fetch, revoke_key, authenticate_sqlite, some_key, checked_row, fetched_row,
}

Result-cases : {A E : Type 0} (r : Result A E) → ((a : A) × (r ≡ ok a)) ⊎ ((e : E) × (r ≡ err e))
Result-cases (ok a) = inl (a, refl)
Result-cases (err e) = inr (e, refl)

-- A row of the table.
abbrev pub IsIn : {F : Type 0} → KeyRow F → List (KeyRow F) → Type 0
IsIn row [] = ⊥
IsIn row (r ∷ rows) = (r ≡ row) ⊎ IsIn row rows

-- A row of the table that has the prefix and is not revoked.
pub record IsFound {F : Type 0} (prefix : String) (rows : List (KeyRow F)) (row : KeyRow F)
    : Type 0 where
  pub stored : IsIn row rows
  pub same_prefix : row.key_prefix ≡ prefix
  pub active : row.revoked_at_unix_seconds ≡ none

active-none : {A : Type 0} (revoked : Option A) → is_some revoked ≡ false → revoked ≡ none
active-none none e = refl
active-none (some a) e = cc

find_active-IsFound :
    {F : Type 0} (prefix : String) (rows : List (KeyRow F)) (row : KeyRow F)
    → find_active prefix rows ≡ some row
    → IsFound prefix rows row
unfolding find_active
find_active-IsFound prefix [] row e = cc
find_active-IsFound prefix (r ∷ rows) row e =
    elim (Bool-cases (str_eq r.key_prefix prefix && is_active r)) [
      | inl here ↦
          let same : r ≡ row = ground arith in
          record {
            stored = inl same;
            same_prefix =
                ap (λ (x : KeyRow _). x.key_prefix) (sym same)
                ∙ (str_eq_iff r.key_prefix prefix).0 (ground arith);
            active =
                ap (λ (x : KeyRow _). x.revoked_at_unix_seconds) (sym same)
                ∙ active-none r.revoked_at_unix_seconds (ground arith);
          }
      | inr other ↦
          let found = find_active-IsFound prefix rows row (ground arith) in
          record {
            stored = inr found.stored;
            same_prefix = found.same_prefix;
            active = found.active;
          }
    ]

module _ {F E : Type 0} (verify_key : String → String → Result Bool (AuthError E)) where
  -- What the store has checked of a key that it lets in.
  pub record IsVouched (api_keys : Result (List (KeyRow F)) E) (raw_key : String)
      (key : AuthenticatedKey F) : Type 0 where
    pub prefix : String
    pub rows : List (KeyRow F)
    pub row : KeyRow F
    pub table : api_keys ≡ ok rows
    pub has_prefix : parse_key_prefix {E = E} raw_key ≡ ok prefix
    pub found : IsFound prefix rows row
    pub verified : verify_key raw_key row.key_hash ≡ ok true
    pub described : row_to_key {E = E} row ≡ ok key

  described-some :
      (found : Result (AuthenticatedKey F) (AuthError E)) (key : AuthenticatedKey F)
      → some_key found ≡ ok (some key)
      → found ≡ ok key
  described-some (ok key') key e = cc
  described-some (err f) key e = cc

  checked-described :
      (raw_key : String) (row : KeyRow F) (key : AuthenticatedKey F)
      (good : Result Bool (AuthError E))
      → (good >>= λ (g : Bool). if g then some_key (row_to_key {E = E} row) else ok none)
        ≡ ok (some key)
      → (good ≡ ok true) × (row_to_key {E = E} row ≡ ok key)
  checked-described raw_key row key (ok true) e = (refl, described-some (row_to_key row) key e)
  checked-described raw_key row key (ok false) e = cc
  checked-described raw_key row key (err f) e = cc

  found-IsVouched :
      (rows : List (KeyRow F)) (raw_key prefix : String) (key : AuthenticatedKey F)
      (found : Option (KeyRow F))
      → parse_key_prefix {E = E} raw_key ≡ ok prefix
      → find_active prefix rows ≡ found
      → fetched_row verify_key raw_key (ok found) ≡ ok (some key)
      → IsVouched (ok rows) raw_key key
  unfolding fetched_row checked_row
  found-IsVouched rows raw_key prefix key none p q e = cc
  found-IsVouched rows raw_key prefix key (some row) p q e =
      let (v, d) = checked-described raw_key row key (verify_key raw_key row.key_hash) e in
      record {
        prefix = prefix;
        rows = rows;
        row = row;
        table = refl;
        has_prefix = p;
        found = find_active-IsFound prefix rows row q;
        verified = v;
        described = d;
      }

  fetched-IsVouched :
      (api_keys : Result (List (KeyRow F)) E) (raw_key prefix : String) (key : AuthenticatedKey F)
      → parse_key_prefix {E = E} raw_key ≡ ok prefix
      → fetched_row verify_key raw_key (fetch prefix api_keys) ≡ ok (some key)
      → IsVouched api_keys raw_key key
  unfolding fetched_row
  fetched-IsVouched (err f) raw_key prefix key p e = cc
  fetched-IsVouched (ok rows) raw_key prefix key p e =
      found-IsVouched rows raw_key prefix key (find_active prefix rows) p refl e

  -- A key is let in only where the table has a row that is not revoked, whose prefix is the key's, whose
  -- hash fits the whole key, and which describes what is let in.
  pub authenticate_sqlite-IsVouched :
      (api_keys : Result (List (KeyRow F)) E) (raw_key : String) (key : AuthenticatedKey F)
      → authenticate_sqlite verify_key api_keys raw_key ≡ ok (some key)
      → IsVouched api_keys raw_key key
  unfolding authenticate_sqlite
  authenticate_sqlite-IsVouched api_keys raw_key key e =
      elim (Result-cases (parse_key_prefix {E = E} raw_key)) [
        | inl (prefix, p) ↦ fetched-IsVouched api_keys raw_key prefix key p (sym (ap after p) ∙ e)
        | inr (f, p) ↦ no_key (sym (ap after p) ∙ e)
      ]
    where
      after : Result String (AuthError E) → Result (Option (AuthenticatedKey F)) (AuthError E)
      after x = x >>= λ y. fetched_row verify_key raw_key (fetch y api_keys)

      no_key : {f : AuthError E} → err f ≡ ok (some key) → IsVouched api_keys raw_key key
      no_key h = cc

  row_to_key-id :
      (row : KeyRow F) (key : AuthenticatedKey F)
      → row_to_key {E = E} row ≡ ok key
      → key.id ≡ row.id
  unfolding row_to_key
  row_to_key-id row key e = elim (Result-cases (role_from_str {E = E} row.role)) [
    | inl (r, p) ↦ ground (arith, p, e)
    | inr (f, p) ↦ ground (arith, p, e)
  ]

revoked-id :
    {F : Type 0} (id : String) (now : ℕ) (rows : List (KeyRow F)) (row : KeyRow F)
    → IsIn row (revoke_key id now rows)
    → row.revoked_at_unix_seconds ≡ none
    → row.id ≢ id
unfolding revoke_key
revoked-id id now [] row i a = absurd i
revoked-id id now (r ∷ rows) row (inr i) a = revoked-id id now rows row i a
revoked-id id now (r ∷ rows) row (inl e) a = elim (Bool-cases (str_eq r.id id)) [
  | inl s ↦ λ h. ground (arith, s, e, a)
  | inr s ↦ λ h. ground (arith, s, e, a, h, str_eq_iff r.id id)
]

-- Once a key is revoked by its id, nobody is let in under that id, whatever text is sent.
pub authenticate_sqlite-revoke_key :
    {F E : Type 0} (verify_key : String → String → Result Bool (AuthError E))
    (rows : List (KeyRow F)) (id raw_key : String) (now : ℕ) (key : AuthenticatedKey F)
    → authenticate_sqlite verify_key (ok (revoke_key id now rows)) raw_key ≡ ok (some key)
    → key.id ≢ id
authenticate_sqlite-revoke_key {F} {E} verify_key rows id raw_key now key e h =
    let v = authenticate_sqlite-IsVouched verify_key (ok (revoke_key id now rows)) raw_key key e in
    let same : revoke_key id now rows ≡ v.rows = ground (arith, v.table) in
    revoked-id id now rows v.row (subst (IsIn v.row) (sym same) v.found.stored) v.found.active
      (sym (row_to_key-id verify_key v.row key v.described) ∙ h)
