-- ===== src/Service/Error.antt =====
-- error.rs: the codes that a `ServiceError` carries. Its message is not modelled.
use bindizr.Base.{
  ℕ, Option, none, some, ◌≡◌, refl, nat_eq, list_eq, ◌==◌, if◌then◌else◌, Result, List, [], ◌∷◌,
}
use bindizr.Text.{Str, codes}

pub data ErrorCode : Type 0 where
  invalid_input invalid_zone invalid_record_name invalid_record_value invalid_json_body : ErrorCode
  zone_conflict record_conflict token_conflict : ErrorCode
  zone_not_found record_not_found token_not_found snapshot_not_found : ErrorCode
  tsig_key_not_found tsig_key_conflict tsig_key_in_use tsig_policy_not_found : ErrorCode
  token_policy_not_found unauthorized invalid_token forbidden : ErrorCode
  payload_too_large unsupported_media_type internal : ErrorCode

abbrev pub Service {ℓ} : Type ℓ → Type ℓ
Service A = Result ErrorCode A

unfoldable pub as_str : ErrorCode → Str
as_str invalid_input = codes "INVALID_INPUT"
as_str invalid_zone = codes "INVALID_ZONE"
as_str invalid_record_name = codes "INVALID_RECORD_NAME"
as_str invalid_record_value = codes "INVALID_RECORD_VALUE"
as_str invalid_json_body = codes "INVALID_JSON_BODY"
as_str zone_conflict = codes "ZONE_CONFLICT"
as_str record_conflict = codes "RECORD_CONFLICT"
as_str token_conflict = codes "TOKEN_CONFLICT"
as_str zone_not_found = codes "ZONE_NOT_FOUND"
as_str record_not_found = codes "RECORD_NOT_FOUND"
as_str token_not_found = codes "TOKEN_NOT_FOUND"
as_str snapshot_not_found = codes "SNAPSHOT_NOT_FOUND"
as_str tsig_key_not_found = codes "TSIG_KEY_NOT_FOUND"
as_str tsig_key_conflict = codes "TSIG_KEY_CONFLICT"
as_str tsig_key_in_use = codes "TSIG_KEY_IN_USE"
as_str tsig_policy_not_found = codes "TSIG_POLICY_NOT_FOUND"
as_str token_policy_not_found = codes "TOKEN_POLICY_NOT_FOUND"
as_str unauthorized = codes "UNAUTHORIZED"
as_str invalid_token = codes "INVALID_TOKEN"
as_str forbidden = codes "FORBIDDEN"
as_str payload_too_large = codes "PAYLOAD_TOO_LARGE"
as_str unsupported_media_type = codes "UNSUPPORTED_MEDIA_TYPE"
as_str internal = codes "INTERNAL"

-- The arms of `parse`, in the order of the source.
abbrev arms : List (Str × ErrorCode)
arms =
    (codes "INVALID_INPUT", invalid_input)
    ∷ (codes "INVALID_ZONE", invalid_zone)
    ∷ (codes "INVALID_RECORD_NAME", invalid_record_name)
    ∷ (codes "INVALID_RECORD_VALUE", invalid_record_value)
    ∷ (codes "INVALID_JSON_BODY", invalid_json_body)
    ∷ (codes "ZONE_CONFLICT", zone_conflict)
    ∷ (codes "RECORD_CONFLICT", record_conflict)
    ∷ (codes "TOKEN_CONFLICT", token_conflict)
    ∷ (codes "ZONE_NOT_FOUND", zone_not_found)
    ∷ (codes "RECORD_NOT_FOUND", record_not_found)
    ∷ (codes "TOKEN_NOT_FOUND", token_not_found)
    ∷ (codes "SNAPSHOT_NOT_FOUND", snapshot_not_found)
    ∷ (codes "TSIG_KEY_NOT_FOUND", tsig_key_not_found)
    ∷ (codes "TSIG_KEY_CONFLICT", tsig_key_conflict)
    ∷ (codes "TSIG_KEY_IN_USE", tsig_key_in_use)
    ∷ (codes "TSIG_POLICY_NOT_FOUND", tsig_policy_not_found)
    ∷ (codes "TOKEN_POLICY_NOT_FOUND", token_policy_not_found)
    ∷ (codes "UNAUTHORIZED", unauthorized)
    ∷ (codes "INVALID_TOKEN", invalid_token)
    ∷ (codes "FORBIDDEN", forbidden)
    ∷ (codes "PAYLOAD_TOO_LARGE", payload_too_large)
    ∷ (codes "UNSUPPORTED_MEDIA_TYPE", unsupported_media_type)
    ∷ (codes "INTERNAL", internal)
    ∷ []

-- The first arm whose text is the given one.
abbrev first_arm : Str → List (Str × ErrorCode) → Option ErrorCode
first_arm s [] = none
first_arm s (arm ∷ more) = if s == arm.0 then some arm.1 else first_arm s more

unfoldable pub parse : Str → Option ErrorCode
parse s = first_arm s arms

unfoldable pub http_status : ErrorCode → ℕ
http_status invalid_input = 400
http_status invalid_zone = 400
http_status invalid_record_name = 400
http_status invalid_record_value = 400
http_status invalid_json_body = 400
http_status unauthorized = 401
http_status invalid_token = 401
http_status forbidden = 403
http_status zone_not_found = 404
http_status record_not_found = 404
http_status token_not_found = 404
http_status snapshot_not_found = 404
http_status tsig_key_not_found = 404
http_status tsig_policy_not_found = 404
http_status token_policy_not_found = 404
http_status zone_conflict = 409
http_status record_conflict = 409
http_status token_conflict = 409
http_status tsig_key_conflict = 409
http_status tsig_key_in_use = 409
http_status payload_too_large = 413
http_status unsupported_media_type = 415
http_status internal = 500

-- Each error code is read back from its text.
pub parse-as_str : (e : ErrorCode) → parse (as_str e) ≡ some e
unfolding parse as_str
parse-as_str invalid_input = refl
parse-as_str _ = refl
