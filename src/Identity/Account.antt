-- ===== src/Identity/Account.antt =====
-- src/domain/account.rs: account uuids and public ids, the verified account behind a request, and
-- the custodian rule. `uuid_is_canonical` stands for the crate `uuid`, whose parser and printer say
-- whether a text is the canonical hyphenated form.
pub mod Circle
use silicon_briefcase.Prelude.{
  ℤ, ℕ, Bool, true, false, not, ◌&&◌, ◌||◌, List, [], ◌∷◌, map, Option, none, some, Result, ok, err,
  ltb, leb, ◌==◌, if◌then◌else◌, all,
}
use silicon_briefcase.Text.{
  Str, trim, byte_len, is_control, is_ascii_alphanumeric, to_ascii_lowercase, str_eq, strip_prefix,
  codes, starts_with, take_chars,
}
use silicon_briefcase.Identity.Identifier.{is_handle_char, is_canonical_iam_organization_id}
use silicon_briefcase.Identity.Reference.{ActorKind, carbon, silicon, kind_eq}

abbrev pub AccountUuid : Type 0
AccountUuid = Str

abbrev min_account_uuid_bytes : ℕ
min_account_uuid_bytes = 3

abbrev max_account_uuid_bytes : ℕ
max_account_uuid_bytes = 36

abbrev max_handle_bytes : ℕ
max_handle_bytes = 64

pub data AccountIdentifierError : Type 0 where
  invalid_uuid invalid_public_id : Str → AccountIdentifierError

-- The rejected value as an error shows it.
unfoldable printable : Str → Str
printable value = map (λ c. if is_control c then b'?' else c) (take_chars 80 value)

module _ (uuid_is_canonical : Str → Bool) where
  unfoldable is_account_uuid : Str → Bool
  is_account_uuid value =
      ((leb min_account_uuid_bytes (byte_len value) && leb (byte_len value) 32)
        && all is_ascii_alphanumeric value)
      || (byte_len value == max_account_uuid_bytes && uuid_is_canonical value)

  -- `AccountUuid::new`.
  unfoldable account_uuid : Str → Result AccountUuid AccountIdentifierError
  account_uuid value =
      if is_account_uuid value then ok value else err (invalid_uuid (printable value))

  unfoldable is_tenant_key : Str → Bool
  is_tenant_key value = is_account_uuid value || is_canonical_iam_organization_id value

abbrev PublicId : Type 0
PublicId = Str

abbrev or_else : Option Str → Option Str → Option Str
or_else none b = b
or_else (some a) b = some a

abbrev valid_handle : Option Str → Bool
valid_handle none = false
valid_handle (some handle) =
    (leb 1 (byte_len handle) && leb (byte_len handle) max_handle_bytes) && all is_handle_char handle

-- `PublicId::parse`.
unfoldable parse_public_id : Str → Result PublicId AccountIdentifierError
parse_public_id value =
    let normalized = map to_ascii_lowercase (trim value) in
    let handle =
      or_else (strip_prefix (codes "c:") normalized) (strip_prefix (codes "si:") normalized) in
    if valid_handle handle then ok normalized else err (invalid_public_id (printable value))

-- `PublicId::kind`.
unfoldable public_id_kind : PublicId → ActorKind
public_id_kind id = if starts_with (codes "si:") id then silicon else carbon

pub data Credential : Type 0 where
  -- token family, membership id, scope, issued-at time
  access_token : Option Str → Option Str → Option Str → Option ℤ → Credential
  -- issuing app, proof id, scope, first party
  proof : Str → Str → Str → Bool → Credential

pub record Actor : Type 0 where
  pub uuid : AccountUuid
  pub kind : ActorKind
  pub id : Option Str
  pub credential : Credential

unfoldable pub credential_issuing_app : Credential → Option Str
credential_issuing_app (access_token family membership scope issued) = none
credential_issuing_app (proof app id scope first_party) = some app

unfoldable pub credential_confined_app : Credential → Option Str
credential_confined_app (proof app id scope false) = some app
credential_confined_app _ = none

-- `Actor::issuing_app`.
unfoldable pub issuing_app : Actor → Option Str
unfolding credential_issuing_app
issuing_app a = credential_issuing_app a.credential

-- `Actor::confined_app`.
unfoldable pub confined_app : Actor → Option Str
unfolding credential_confined_app
confined_app a = credential_confined_app a.credential

pub record CustodyFacts : Type 0 where
  pub uuid : AccountUuid
  pub kind : ActorKind
  pub custodian : Option AccountUuid

abbrev pub anchor_of : ActorKind → AccountUuid → Option AccountUuid → Option AccountUuid
anchor_of carbon uuid custodian = some uuid
anchor_of silicon uuid custodian = custodian

-- `CustodyFacts::anchor`.
unfoldable pub anchor : CustodyFacts → Option AccountUuid
anchor facts = anchor_of facts.kind facts.uuid facts.custodian

abbrev pub same_anchor : Option AccountUuid → Option AccountUuid → Bool
same_anchor (some left) (some right) = str_eq left right
same_anchor _ _ = false

unfoldable pub same_circle : CustodyFacts → CustodyFacts → Bool
unfolding anchor
same_circle left right =
    if str_eq left.uuid right.uuid then true else same_anchor (anchor left) (anchor right)

unfoldable pub is_custodian_of : AccountUuid → CustodyFacts → Bool
is_custodian_of uuid facts = kind_eq facts.kind silicon && same_anchor facts.custodian (some uuid)
