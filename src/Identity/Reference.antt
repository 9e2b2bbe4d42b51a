-- ===== src/Identity/Reference.antt =====
-- src/domain/actor.rs: account kinds and references, the caller's relation to a drive, and how it
-- was authenticated.
use silicon_briefcase.Prelude.{Bool, true, false, ◌&&◌, Option, none, some}
use silicon_briefcase.Text.{Str, str_eq}

abbrev pub ActorId : Type 0
ActorId = Str

abbrev pub OrganizationId : Type 0
OrganizationId = Str

abbrev pub ApplicationId : Type 0
ApplicationId = Str

pub data ActorKind : Type 0 where
  carbon silicon : ActorKind

unfoldable pub kind_eq : ActorKind → ActorKind → Bool
kind_eq carbon carbon = true
kind_eq silicon silicon = true
kind_eq _ _ = false

pub record ActorRef : Type 0 where
  pub kind : ActorKind
  pub id : ActorId

-- The derived `==` of `ActorRef`.
unfoldable pub actor_eq : ActorRef → ActorRef → Bool
actor_eq a b = kind_eq a.kind b.kind && str_eq a.id b.id

pub data DriveAccess : Type 0 where
  owner custodian visitor : DriveAccess

unfoldable pub has_owner_rights : DriveAccess → Bool
has_owner_rights owner = true
has_owner_rights custodian = true
has_owner_rights visitor = false

pub data AuthenticationMode : Type 0 where
  bearer : AuthenticationMode
  on_behalf_of : ApplicationId → AuthenticationMode
  first_party_on_behalf_of : ApplicationId → AuthenticationMode

unfoldable pub originating_application : AuthenticationMode → Option ApplicationId
originating_application bearer = none
originating_application (on_behalf_of app) = some app
originating_application (first_party_on_behalf_of app) = some app

unfoldable pub confined_application : AuthenticationMode → Option ApplicationId
confined_application (on_behalf_of app) = some app
confined_application _ = none
