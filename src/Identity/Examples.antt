-- ===== src/Identity/Examples.antt =====
-- A Carbon `abc` and the Silicon `sil` that it looks after (src/domain/actor.rs, src/domain/account.rs).
use silicon_briefcase.Prelude.{false, ◌≡◌, refl, inr, [], ◌∷◌, none, some, if◌then◌else◌}
use silicon_briefcase.Text.{Str, codes, str_eq}
use silicon_briefcase.Identity.Reference.{carbon, silicon, ActorRef, owner, custodian, on_behalf_of}
use silicon_briefcase.Identity.Account.{AccountUuid, Actor, proof, CustodyFacts, same_circle}
use silicon_briefcase.Identity.Account.Circle.{same_circle-separates}
use silicon_briefcase.Identity.Context.{RequestAuthContext}

abbrev abc : Str
abc = codes "abc"

abbrev sil : Str
sil = codes "sil"

abbrev abc_facts : CustodyFacts
abc_facts = record { uuid = abc; kind = carbon; custodian = none }

abbrev sil_facts : CustodyFacts
sil_facts = record { uuid = sil; kind = silicon; custodian = some abc }

abbrev stray_facts : CustodyFacts
stray_facts = record { uuid = codes "stray"; kind = silicon; custodian = none }

-- Every account but `abc` is a Silicon that `abc` looks after.
abbrev directory : AccountUuid → CustodyFacts
directory u = record {
  uuid = u;
  kind = if str_eq u abc then carbon else silicon;
  custodian = if str_eq u abc then none else some abc;
}

same_circle-separates_example : same_circle abc_facts stray_facts ≡ false
same_circle-separates_example =
    same_circle-separates abc_facts stray_facts (λ e. cc e) (inr (inr (refl, refl)))

abbrev app : Str
app = codes "notes"

abbrev account : Actor
account = record {
  uuid = abc;
  kind = carbon;
  id = none;
  credential = proof app (codes "p1") (codes "files") false;
}

abbrev caller : ActorRef
caller = record { kind = carbon; id = abc }

abbrev home : RequestAuthContext
home = record {
  account = some account;
  organization_id = abc;
  drive_owner = caller;
  actor = caller;
  access = owner;
  creators = abc ∷ [];
  authentication = on_behalf_of app;
}

abbrev silicon_ref : ActorRef
silicon_ref = record { kind = silicon; id = sil }

abbrev away : RequestAuthContext
away = record home { organization_id = sil; drive_owner = silicon_ref; access = custodian }
