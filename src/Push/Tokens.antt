-- ===== src/Push/Tokens.antt =====
-- normalizePushTokenRegistration, and registering, listing and disabling push tokens.
use euphoria_api.Base.{
  ℕ, Bool, true, false, not, ◌&&◌, ◌||◌, List, [], ◌∷◌, Option, none, some, Text, text_eq, text_eqb,
  ◌==◌, is_empty, trim, any, ltb, nat_eqb, Result, ok, ◌>>=◌, guard, holds, if◌then◌else◌,
}
use euphoria_api.Sql.{select, update, insert, order_by}
use euphoria_api.Validate.{is_hex_digit}
use euphoria_api.Events.Authorize.{lower_case}

pub data Provider : Type 0 where
  expo apns : Provider

pub data Environment : Type 0 where
  development production : Environment

pub data Platform : Type 0 where
  ios android web : Platform

abbrev pub same_provider : Provider → Provider → Bool
same_provider expo expo = true
same_provider apns apns = true
same_provider expo apns = false
same_provider apns expo = false

-- A nullable environment column that equals a value; null equals nothing.
abbrev pub is_environment : Option Environment → Option Environment → Bool
is_environment (some development) (some development) = true
is_environment (some production) (some production) = true
is_environment other given = false

abbrev pub is_ios : Platform → Bool
is_ios ios = true
is_ios android = false
is_ios web = false

pub record RegistrationInput : Type 0 where
  pub user_id : Text
  pub provider : Option Provider
  pub apns_environment : Option Environment
  pub token : Text
  pub platform : Platform
  pub device_id : Option Text

pub record Registration : Type 0 where
  pub user_id : Text
  pub provider : Provider
  pub apns_environment : Option Environment
  pub token : Text
  pub platform : Platform
  pub device_id : Option Text

pub data RegistrationError : Type 0 where
  environment_only_for_apns : RegistrationError
  ios_required : RegistrationError
  environment_required : RegistrationError
  device_id_required : RegistrationError
  token_not_hex : RegistrationError
  -- the check constraints, and a unique index
  registration_check : RegistrationError
  installation_taken : RegistrationError

-- /^([0-9a-fA-F]{2})+$/
unfoldable pub is_hex_pairs : Text → Bool
unfolding is_hex_digit
is_hex_pairs [] = false
is_hex_pairs (a ∷ []) = false
is_hex_pairs (a ∷ b ∷ []) = is_hex_digit a && is_hex_digit b
is_hex_pairs (a ∷ b ∷ c ∷ s) = is_hex_digit a && (is_hex_digit b && is_hex_pairs (c ∷ s))

abbrev pub trimmed : Option Text → Text
trimmed none = []
trimmed (some s) = trim s

abbrev pub is_none : Option Environment → Bool
is_none none = true
is_none (some e) = false

unfoldable pub normalize_as : Provider → RegistrationInput → Result RegistrationError Registration
unfolding is_hex_pairs lower_case trim
normalize_as expo input = do
  _ ← guard (is_none input.apns_environment) environment_only_for_apns
  ok (record {
    user_id = input.user_id;
    provider = expo;
    apns_environment = none;
    token = input.token;
    platform = input.platform;
    device_id = input.device_id;
  })
normalize_as apns input = do
  _ ← guard (is_ios input.platform) ios_required
  _ ← guard (not (is_none input.apns_environment)) environment_required
  _ ← guard (not (is_empty (trimmed input.device_id))) device_id_required
  _ ← guard (is_hex_pairs input.token) token_not_hex
  ok (record {
    user_id = input.user_id;
    provider = apns;
    apns_environment = input.apns_environment;
    token = lower_case input.token;
    platform = input.platform;
    device_id = some (trimmed input.device_id);
  })

-- `input.provider ?? "expo"`
abbrev pub or_expo : Option Provider → Provider
or_expo none = expo
or_expo (some p) = p

unfoldable pub normalize : RegistrationInput → Result RegistrationError Registration
unfolding normalize_as
normalize input = normalize_as (or_expo input.provider) input

pub record PushToken : Type 0 where
  pub id : Text
  pub user_id : Text
  pub provider : Provider
  pub apns_environment : Option Environment
  pub token : Text
  pub platform : Platform
  pub device_id : Option Text
  pub enabled : Bool
  pub last_registered_at : ℕ
  pub disabled_at : Option ℕ
  pub created_at : ℕ
  pub updated_at : ℕ

abbrev pub disabled : ℕ → PushToken → PushToken
disabled now r = record r { enabled = false; disabled_at = some now; updated_at = now }

abbrev pub same_device : Option Text → Option Text → Bool
same_device d none = false
same_device d (some id) = holds d id

-- A row of the installation, of the provider that is given: the columns of the second unique index.
unfoldable pub is_installation : Provider → Registration → PushToken → Bool
unfolding text_eqb
is_installation provider g r =
    same_provider r.provider provider
    && (is_environment r.apns_environment g.apns_environment
        && (same_device r.device_id g.device_id && r.enabled))

unfoldable pub is_rotated : Registration → PushToken → Bool
unfolding is_installation text_eqb
is_rotated g r = is_installation apns g r && not (r.token == g.token)

unfoldable pub disable_rotated : Registration → ℕ → List PushToken → List PushToken
unfolding is_rotated update
disable_rotated g now = update (is_rotated g) (disabled now)

-- The columns of the first unique index, which the insert resolves conflicts on.
unfoldable pub is_same_token : Registration → PushToken → Bool
unfolding text_eqb
is_same_token g r = same_provider r.provider g.provider && r.token == g.token

abbrev pub registered : Registration → ℕ → PushToken → PushToken
registered g now r = record r {
  user_id = g.user_id;
  apns_environment = g.apns_environment;
  platform = g.platform;
  device_id = g.device_id;
  enabled = true;
  disabled_at = none;
  last_registered_at = now;
  updated_at = now;
}

abbrev pub inserted_token : (id : Text) → Registration → (now started : ℕ) → PushToken
inserted_token id g now started = record {
  id = id;
  user_id = g.user_id;
  provider = g.provider;
  apns_environment = g.apns_environment;
  token = g.token;
  platform = g.platform;
  device_id = g.device_id;
  enabled = true;
  last_registered_at = now;
  disabled_at = none;
  created_at = started;
  updated_at = started;
}

-- `nullif(btrim(d), '') is not null`: btrim strips blanks only.
abbrev pub is_nonblank : Option Text → Bool
is_nonblank none = false
is_nonblank (some d) = any (λ c. not (nat_eqb c b' ')) d

abbrev pub environment_check : Provider → Option Environment → Bool
environment_check expo e = is_none e
environment_check apns e = not (is_none e)

-- The two check constraints.
unfoldable pub meets_checks : Registration → Bool
unfolding is_hex_pairs
meets_checks g =
    environment_check g.provider g.apns_environment
    && (not (same_provider g.provider apns)
        || (is_ios g.platform && (is_nonblank g.device_id && is_hex_pairs g.token)))

-- insert … on conflict do update. Another row of the installation violates the second unique index.
unfoldable pub upsert_token :
    (id : Text)
    → Registration
    → (now started : ℕ) → List PushToken
    → Result RegistrationError (List PushToken)
unfolding meets_checks is_installation is_same_token update
upsert_token id g now started rows = do
  _ ← guard (meets_checks g) registration_check
  _ ←
      guard (not (any (λ r. is_installation g.provider g r && not (is_same_token g r)) rows))
        installation_taken
  ok (
      if any (is_same_token g) rows
      then update (is_same_token g) (registered g now) rows
      else insert (inserted_token id g now started) rows)

abbrev pub rotated_for : Provider → Registration → ℕ → List PushToken → List PushToken
rotated_for expo g now rows = rows
rotated_for apns g now rows = disable_rotated g now rows

unfoldable pub register_push_token :
    (id : Text) (now started : ℕ)
    → RegistrationInput
    → List PushToken
    → Result RegistrationError (List PushToken)
unfolding normalize disable_rotated upsert_token
register_push_token id now started input rows = do
  g ← normalize input
  upsert_token id g now started (rotated_for g.provider g now rows)

-- The rows themselves stand for the columns of them that are returned.
unfoldable pub list_push_tokens : (user_id : Text) → List PushToken → List PushToken
unfolding select order_by text_eqb
list_push_tokens user_id rows =
    order_by (λ r s. not (ltb r.last_registered_at s.last_registered_at))
      (select (λ r. r.user_id == user_id && r.enabled) rows)

-- Whether a row was disabled, and the rows; the two dates are read one after the other.
unfoldable pub disable_push_token :
    (user_id id : Text) → (now later : ℕ) → List PushToken → Bool × List PushToken
unfolding update text_eqb
disable_push_token user_id id now later rows = (
  any (λ r. r.id == id && r.user_id == user_id) rows,
  update (λ r. r.id == id && r.user_id == user_id)
      (λ r. record r { enabled = false; disabled_at = some now; updated_at = later }) rows,
)
