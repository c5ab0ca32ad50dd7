-- ===== src/Push/Examples.antt =====
-- An iPhone whose APNs token rotates, and inputs that are refused.
use euphoria_api.Base.{
  ◌≡◌, refl, true, false, List, [], ◌∷◌, none, some, Text, text, ok, err, text_eq, text_eqb, trim,
}
use euphoria_api.Sql.{update, select, order_by, place}
use euphoria_api.Validate.{is_hex_digit}
use euphoria_api.Events.Authorize.{lower_case}
use euphoria_api.Push.Tokens.{
  apns, production, ios, android, RegistrationInput, Registration, PushToken,
  environment_only_for_apns, ios_required, token_not_hex, device_id_required, normalize_as,
  normalize, is_hex_pairs, meets_checks, is_installation, is_rotated, disable_rotated,
  is_same_token, upsert_token, register_push_token, list_push_tokens, disable_push_token,
}
use euphoria_api.Push.Registering.{Registered, register_push_token_lem}

abbrev ann : Text
ann = text "ann"

abbrev phone_token : Text → RegistrationInput
phone_token t = record {
  user_id = ann;
  provider = some apns;
  apns_environment = some production;
  token = t;
  platform = ios;
  device_id = some (text " phone ");
}

abbrev stored : Registration
stored = record {
  user_id = ann;
  provider = apns;
  apns_environment = some production;
  token = text "b2";
  platform = ios;
  device_id = some (text "phone");
}

abbrev old_row : PushToken
old_row = record {
  id = text "t1";
  user_id = ann;
  provider = apns;
  apns_environment = some production;
  token = text "a1";
  platform = ios;
  device_id = some (text "phone");
  enabled = true;
  last_registered_at = 10;
  disabled_at = none;
  created_at = 10;
  updated_at = 10;
}

abbrev old_row_disabled : PushToken
old_row_disabled = record old_row { enabled = false; disabled_at = some 20; updated_at = 20 }

abbrev new_row : PushToken
new_row = record old_row {
  id = text "t2";
  token = text "b2";
  last_registered_at = 20;
  created_at = 19;
  updated_at = 19;
}

normalize_phone : normalize (phone_token (text "B2")) ≡ ok stored
unfolding normalize normalize_as is_hex_pairs is_hex_digit lower_case trim
normalize_phone = refl

normalize_odd : normalize (phone_token (text "B2c")) ≡ err token_not_hex
unfolding normalize normalize_as is_hex_pairs is_hex_digit lower_case trim
normalize_odd = refl

normalize_android :
    normalize (record (phone_token (text "B2")) { platform = android }) ≡ err ios_required
unfolding normalize normalize_as is_hex_pairs is_hex_digit lower_case trim
normalize_android = refl

normalize_blank :
    normalize (record (phone_token (text "B2")) { device_id = some (text "  ") })
    ≡ err device_id_required
unfolding normalize normalize_as is_hex_pairs is_hex_digit lower_case trim
normalize_blank = refl

normalize_expo :
    normalize (record (phone_token (text "B2")) { provider = none }) ≡ err environment_only_for_apns
unfolding normalize normalize_as is_hex_pairs is_hex_digit lower_case trim
normalize_expo = refl

register_rotated :
    register_push_token (text "t2") 20 19 (phone_token (text "B2")) (old_row ∷ [])
    ≡ ok (old_row_disabled ∷ new_row ∷ [])
unfolding register_push_token normalize normalize_as is_hex_pairs is_hex_digit lower_case trim
    disable_rotated is_rotated is_installation is_same_token upsert_token meets_checks update
    text_eqb
register_rotated = refl

list_rotated : list_push_tokens ann (old_row_disabled ∷ new_row ∷ []) ≡ new_row ∷ []
unfolding list_push_tokens select order_by place text_eqb
list_rotated = refl

disable_of_another :
    disable_push_token (text "bob") (text "t1") 20 20 (old_row ∷ []) ≡ (false, old_row ∷ [])
unfolding disable_push_token update text_eqb
disable_of_another = refl

disable_own :
    disable_push_token ann (text "t1") 20 20 (old_row ∷ []) ≡ (true, old_row_disabled ∷ [])
unfolding disable_push_token update text_eqb
disable_own = refl

register_push_token_lem_example :
    (next : List PushToken) × (register_push_token
        (text "t2")
        20
        19
        (phone_token (text "B2"))
        (old_row ∷ [])
      ≡ ok next)
    × Registered stored next
register_push_token_lem_example =
    register_push_token_lem (text "t2") 20 19 (phone_token (text "B2")) (old_row ∷ []) stored
      normalize_phone
