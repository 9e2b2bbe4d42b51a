-- ===== src/Identity/Context.antt =====
-- src/domain/actor.rs: the trusted facts of one request (`RequestAuthContext`). The `BTreeSet` of
-- creators is a list in strictly increasing order.
pub mod Creators
use silicon_briefcase.Prelude.{
  Bool, true, false, not, ◌&&◌, ◌||◌, List, [], ◌∷◌, Option, none, some, Result, ok, err, ◌>>=◌,
  if◌then◌else◌, any,
}
use silicon_briefcase.Text.{Str, str_eq, str_ltb}
use silicon_briefcase.Identity.Identifier.{ExternalIdentifierError, validate_external_identifier}
use silicon_briefcase.Identity.Reference.{
  ActorId, OrganizationId, ActorRef, DriveAccess, owner, has_owner_rights, AuthenticationMode,
  bearer, on_behalf_of, first_party_on_behalf_of,
}
use silicon_briefcase.Identity.Account.{Actor, issuing_app, confined_app}

-- `BTreeSet::insert`.
unfoldable pub set_insert : ActorId → List ActorId → List ActorId
set_insert x [] = x ∷ []
set_insert x (y ∷ ys) =
    if str_eq x y then y ∷ ys else if str_ltb x y then x ∷ y ∷ ys else y ∷ set_insert x ys

-- `BTreeSet::extend`.
unfoldable pub set_extend : List ActorId → List ActorId → List ActorId
set_extend set [] = set
set_extend set (x ∷ xs) = set_extend (set_insert x set) xs

-- `BTreeSet::contains`.
unfoldable pub set_contains : List ActorId → ActorId → Bool
set_contains set x = any (λ y. str_eq y x) set

pub record RequestAuthContext : Type 0 where
  pub account : Option Actor
  pub organization_id : OrganizationId
  pub drive_owner : ActorRef
  pub actor : ActorRef
  pub access : DriveAccess
  pub creators : List ActorId
  pub authentication : AuthenticationMode

unfoldable pub for_drive :
    ActorRef
    → ActorRef
    → DriveAccess
    → AuthenticationMode
    → Result RequestAuthContext ExternalIdentifierError
for_drive drive_owner actor access authentication = do
  organization_id ← validate_external_identifier drive_owner.id
  ok (record {
    account = none;
    organization_id = organization_id;
    drive_owner = drive_owner;
    actor = actor;
    access = access;
    creators = actor.id ∷ [];
    authentication = authentication;
  })

-- The match on the issuing and the confined app.
abbrev pub authentication_of :
    Option Str → Option Str → Result AuthenticationMode ExternalIdentifierError
authentication_of none confined = ok bearer
authentication_of (some app) none = do
  id ← validate_external_identifier app
  ok (first_party_on_behalf_of id)
authentication_of (some app) (some confined) = do
  id ← validate_external_identifier app
  ok (on_behalf_of id)

unfoldable pub for_account : Actor → Result RequestAuthContext ExternalIdentifierError
unfolding for_drive
for_account account = do
  id ← validate_external_identifier account.uuid
  let actor : ActorRef = record { kind = account.kind; id = id }
  authentication ← authentication_of (issuing_app account) (confined_app account)
  context ← for_drive actor actor owner authentication
  ok (record context { account = some account })

unfoldable pub in_drive :
    RequestAuthContext → ActorRef → DriveAccess → Result RequestAuthContext ExternalIdentifierError
in_drive context drive_owner access = do
  organization_id ← validate_external_identifier drive_owner.id
  ok (record context {
    organization_id = organization_id;
    drive_owner = drive_owner;
    access = access;
  })

unfoldable pub with_custodial_silicons : RequestAuthContext → List ActorId → RequestAuthContext
with_custodial_silicons context silicons = record context {
  creators = set_extend context.creators silicons;
}

unfoldable pub is_creator : RequestAuthContext → ActorRef → Bool
is_creator context entry_owner = set_contains context.creators entry_owner.id

-- The iterator's `filter`.
unfoldable without_id : ActorId → List ActorId → List ActorId
without_id x [] = []
without_id x (y ∷ ys) = let rest = without_id x ys in if str_eq y x then rest else y ∷ rest

unfoldable creator_ids : RequestAuthContext → List ActorId
creator_ids context = context.actor.id ∷ without_id context.actor.id context.creators
