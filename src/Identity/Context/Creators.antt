-- ===== src/Identity/Context/Creators.antt =====
-- Whose entries carry creator rights for the caller, and what moving between drives keeps.
use silicon_briefcase.Prelude.{
  true, false, ◌||◌, ◌≡◌, refl, ap, List, [], ◌∷◌, none, some, Result, ok, ◌>>=◌, >>=-eq-ok, arith,
  any,
}
use silicon_briefcase.Text.{Str, str_eq}
use silicon_briefcase.Text.Trim.{str_eq_sound}
use silicon_briefcase.Identity.Identifier.{ExternalIdentifierError, validate_external_identifier}
use silicon_briefcase.Identity.Reference.{
  ActorId, ActorRef, DriveAccess, owner, AuthenticationMode, on_behalf_of, first_party_on_behalf_of,
  originating_application, confined_application,
}
use silicon_briefcase.Identity.Account.{
  Actor, issuing_app, confined_app, Credential, access_token, proof, credential_issuing_app,
  credential_confined_app,
}
use silicon_briefcase.Identity.Context.{
  set_insert, set_extend, set_contains, RequestAuthContext, for_drive, authentication_of,
  for_account, in_drive, with_custodial_silicons, is_creator,
}

contains-insert :
    (x y : ActorId) (set : List ActorId)
    → set_contains (set_insert x set) y ≡ (str_eq x y || set_contains set y)
unfolding set_insert set_contains
contains-insert x y [] = refl
contains-insert x y (z ∷ zs) =
    ground (arith, contains-insert x y zs, str_eq_sound x z, ap (λ t. str_eq t y))

contains-extend :
    (xs : List ActorId) (y : ActorId) (set : List ActorId)
    → set_contains (set_extend set xs) y ≡ (set_contains set y || any (λ x. str_eq x y) xs)
unfolding set_extend
contains-extend [] y set = ground arith
contains-extend (x ∷ xs) y set =
    ground (arith, contains-extend xs y (set_insert x set), contains-insert x y set)

-- The custodian rule: with the Silicons it looks after, the caller holds creator rights over exactly
-- what it held before and what one of those Silicons created.
pub is_creator-with_custodial_silicons :
    (context : RequestAuthContext) (silicons : List ActorId) (entry_owner : ActorRef)
    → is_creator (with_custodial_silicons context silicons) entry_owner
      ≡ (is_creator context entry_owner || any (λ s. str_eq s entry_owner.id) silicons)
unfolding is_creator with_custodial_silicons
is_creator-with_custodial_silicons context silicons o =
    contains-extend silicons o.id context.creators

validated : (s t : Str) → validate_external_identifier s ≡ ok t → t ≡ s
unfolding validate_external_identifier
validated s t h = ground arith

authentication_lem :
    (credential : Credential) (mode : AuthenticationMode)
    → authentication_of (credential_issuing_app credential) (credential_confined_app credential)
      ≡ ok mode
    → (originating_application mode ≡ credential_issuing_app credential)
      × (confined_application mode ≡ credential_confined_app credential)
unfolding credential_issuing_app credential_confined_app originating_application
    confined_application
authentication_lem (access_token f m s i) mode h = ground arith
authentication_lem (proof app id scope true) mode h =
    let (v, e, g) =
      >>=-eq-ok (validate_external_identifier app) (λ v. ok (first_party_on_behalf_of v)) h in
    ground (arith, validated app v e)
authentication_lem (proof app id scope false) mode h =
    let (v, e, g) = >>=-eq-ok (validate_external_identifier app) (λ v. ok (on_behalf_of v)) h in
    ground (arith, validated app v e)

own_drive :
    (actor : ActorRef) (mode : AuthenticationMode) (context : RequestAuthContext)
    → for_drive actor actor owner mode ≡ ok context
    → (context.organization_id ≡ actor.id)
      × (context.actor ≡ actor)
      × (context.drive_owner ≡ actor)
      × (context.access ≡ owner)
      × (context.creators ≡ actor.id ∷ [])
      × (context.authentication ≡ mode)
unfolding for_drive
own_drive actor mode context h =
    let (v, e, g) =
      >>=-eq-ok (validate_external_identifier actor.id)
        (λ v. ok (record {
          account = none;
          organization_id = v;
          drive_owner = actor;
          actor = actor;
          access = owner;
          creators = actor.id ∷ [];
          authentication = mode;
        }))
        h in
    ground (arith, validated actor.id v e)

-- The rest of `for_account`, once the account's uuid was validated.
abbrev with_actor : Actor → ActorRef → Result RequestAuthContext ExternalIdentifierError
with_actor account actor = do
  authentication ← authentication_of (issuing_app account) (confined_app account)
  context ← for_drive actor actor owner authentication
  ok (record context { account = some account })

with_actor_lem :
    (account : Actor) (actor : ActorRef) (context : RequestAuthContext)
    → with_actor account actor ≡ ok context
    → (context.organization_id ≡ actor.id)
      × (context.actor ≡ actor)
      × (context.drive_owner ≡ actor)
      × (context.access ≡ owner)
      × (context.creators ≡ actor.id ∷ [])
      × (originating_application context.authentication ≡ issuing_app account)
      × (confined_application context.authentication ≡ confined_app account)
unfolding issuing_app confined_app
with_actor_lem account actor context h =
    let (mode, e, f) =
      >>=-eq-ok (authentication_of (issuing_app account) (confined_app account))
        (λ mode. for_drive actor actor owner mode >>= λ c. ok (record c { account = some account }))
        h in
    let (c, p, q) =
      >>=-eq-ok (for_drive actor actor owner mode) (λ c. ok (record c { account = some account }))
        f in
    let (x, y) = authentication_lem account.credential mode e in
    ground (
      arith,
      own_drive actor mode c p,
      ap originating_application (own_drive actor mode c p).5,
      ap confined_application (own_drive actor mode c p).5,
    )

-- Where a context is made for a verified account, it stands in the account's own drive, as its owner and
-- only creator, and keeps the app that acts for it: the issuing one, and the one it is confined to.
pub for_account_lem :
    (account : Actor) (context : RequestAuthContext)
    → for_account account ≡ ok context
    → (context.organization_id ≡ account.uuid)
      × (context.actor.id ≡ account.uuid)
      × (context.drive_owner ≡ context.actor)
      × (context.access ≡ owner)
      × (context.creators ≡ account.uuid ∷ [])
      × (originating_application context.authentication ≡ issuing_app account)
      × (confined_application context.authentication ≡ confined_app account)
unfolding for_account
for_account_lem account context h =
    let (id, e, f) =
      >>=-eq-ok (validate_external_identifier account.uuid)
        (λ id. with_actor account (record { kind = account.kind; id = id })) h in
    ground (
      arith,
      validated account.uuid id e,
      with_actor_lem account (record { kind = account.kind; id = id }) context f,
    )

-- Moving the caller into another drive changes the drive, its owner and the caller's relation to it,
-- and keeps who is calling, its creator rights and the app that acts for it.
pub in_drive_lem :
    (context moved : RequestAuthContext) (drive_owner : ActorRef) (access : DriveAccess)
    → in_drive context drive_owner access ≡ ok moved
    → (moved.organization_id ≡ drive_owner.id)
      × (moved.drive_owner ≡ drive_owner)
      × (moved.access ≡ access)
      × (moved.actor ≡ context.actor)
      × (moved.creators ≡ context.creators)
      × (moved.authentication ≡ context.authentication)
unfolding in_drive
in_drive_lem context moved o a h =
    let (id, e, f) =
      >>=-eq-ok (validate_external_identifier o.id)
        (λ id. ok (record context { organization_id = id; drive_owner = o; access = a })) h in
    ground (arith, validated o.id id e)
