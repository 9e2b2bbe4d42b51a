-- ===== src/Identity/Identifier.antt =====
-- src/domain/actor.rs: identifiers that an external authority supplies. `ActorId`, `OrganizationId`,
-- `ApplicationId` and `TagName` are the four newtypes of the macro `external_identifier`, with this
-- one constructor.
use silicon_briefcase.Prelude.{
  ℕ, Bool, false, not, ◌&&◌, ◌||◌, [], ◌∷◌, Result, ok, err, ltb, leb, ◌==◌, if◌then◌else◌, any,
  all,
}
use silicon_briefcase.Text.{
  Str, trim, byte_len, is_empty, is_control, is_ascii_lowercase, is_ascii_digit, str_eq,
}

abbrev max_external_identifier_bytes : ℕ
max_external_identifier_bytes = 255

pub data ExternalIdentifierError : Type 0 where
  empty surrounding_whitespace contains_control_character : ExternalIdentifierError
  too_long : ℕ → ℕ → ExternalIdentifierError

unfoldable pub validate_external_identifier : Str → Result Str ExternalIdentifierError
validate_external_identifier value =
    if is_empty (trim value)
    then err empty
    else if not (str_eq (trim value) value)
    then err surrounding_whitespace
    else if ltb max_external_identifier_bytes (byte_len value)
    then err (too_long (byte_len value) max_external_identifier_bytes)
    else if any is_control value
    then err contains_control_character
    else ok value

-- A lowercase ASCII letter, a digit, `_` or `-`. On texts the source tests the bytes; a character
-- outside ASCII has no such byte, and fails this test as a whole.
unfoldable pub is_handle_char : ℕ → Bool
is_handle_char c = is_ascii_lowercase c || is_ascii_digit c || c == b'_' || c == b'-'

abbrev first_is_lowercase : Str → Bool
first_is_lowercase [] = false
first_is_lowercase (c ∷ s) = is_ascii_lowercase c

unfoldable is_canonical_iam_application_id : Str → Bool
is_canonical_iam_application_id value =
    (leb 1 (byte_len value) && leb (byte_len value) 80)
    && first_is_lowercase value
    && all is_handle_char value

unfoldable pub is_canonical_iam_organization_id : Str → Bool
is_canonical_iam_organization_id value =
    (leb 3 (byte_len value) && leb (byte_len value) 50) && all is_handle_char value
