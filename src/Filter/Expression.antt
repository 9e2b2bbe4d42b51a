-- ===== src/Filter/Expression.antt =====
-- src/domain/filter.rs: filter expressions and their evaluation. `Date` stands for the calendar days of
-- the crate `time`.
pub mod Meaning
use silicon_briefcase.Prelude.{
  ℕ, Bool, true, false, not, ◌&&◌, ◌||◌, List, [], ◌∷◌, Option, none, some, if◌then◌else◌,
}
use silicon_briefcase.Text.{Str, str_eq}
use silicon_briefcase.Identity.Reference.{ActorKind, ActorRef, kind_eq}
use silicon_briefcase.Entry.Kind.{EntryKind}
use silicon_briefcase.Media.{RenderKind}
use silicon_briefcase.Permission.Rights.{EffectiveAccess}

-- A text term whose `*` characters are wildcards.
abbrev pub GlobTerm : Type 0
GlobTerm = Str

pub record ActorSelector : Type 0 where
  pub kind : Option ActorKind
  pub id : Str

abbrev kind_allows : Option ActorKind → ActorKind → Bool
kind_allows none kind = true
kind_allows (some wanted) kind = kind_eq wanted kind

-- `ActorSelector::matches`.
unfoldable selects : ActorSelector → ActorRef → Bool
selects selector actor = kind_allows selector.kind actor.kind && str_eq actor.id selector.id

pub data FilterPredicate (Date : Type 0) : Type 0 where
  changed_after changed_before : Date → FilterPredicate Date
  changed_between : Date → Date → FilterPredicate Date
  created_by shared_with accessible_to : ActorSelector → FilterPredicate Date
  contains has_content name_matches : GlobTerm → FilterPredicate Date
  is_kind : EntryKind → FilterPredicate Date
  is_render : RenderKind → FilterPredicate Date
  has_extension : Str → FilterPredicate Date
  is_expiring is_self_destruct : FilterPredicate Date
  in_location : GlobTerm → FilterPredicate Date
  has_permission : EffectiveAccess → FilterPredicate Date

mutual
  pub data FilterExpression (Date : Type 0) : Type 0 where
    all any : FilterExpressions Date → FilterExpression Date
    negate : FilterExpression Date → FilterExpression Date
    predicate : FilterPredicate Date → FilterExpression Date

  pub data FilterExpressions (Date : Type 0) : Type 0 where
    nil : FilterExpressions Date
    cons : FilterExpression Date → FilterExpressions Date → FilterExpressions Date

unfoldable access_eq : EffectiveAccess → EffectiveAccess → Bool
access_eq EffectiveAccess.read EffectiveAccess.read = true
access_eq EffectiveAccess.write EffectiveAccess.write = true
access_eq EffectiveAccess.update EffectiveAccess.update = true
access_eq EffectiveAccess.delete EffectiveAccess.delete = true
access_eq EffectiveAccess.manage_permissions EffectiveAccess.manage_permissions = true
access_eq _ _ = false

-- `[EffectiveAccess]::contains`.
unfoldable pub access_contains : List EffectiveAccess → EffectiveAccess → Bool
unfolding access_eq
access_contains [] required = false
access_contains (held ∷ access) required =
    access_eq held required || access_contains access required

-- `Iterator::next` on the database results: the answer, and what is left.
abbrev next_match : List Bool → Option (Bool × List Bool)
next_match [] = none
next_match (answer ∷ rest) = some (answer, rest)

abbrev map_answer : (Bool → Bool) → Option (Bool × List Bool) → Option (Bool × List Bool)
map_answer f none = none
map_answer f (some (answer, rest)) = some (f answer, rest)

abbrev then_with :
    Option (Bool × List Bool)
    → (Bool → List Bool → Option (Bool × List Bool))
    → Option (Bool × List Bool)
then_with none f = none
then_with (some (answer, rest)) f = f answer rest

-- `database_matches.next().is_none().then_some(result)`.
abbrev pub when_used_up : Option (Bool × List Bool) → Option Bool
when_used_up none = none
when_used_up (some (result, [])) = some result
when_used_up (some (result, answer ∷ rest)) = none

module _ {Date : Type 0} where
  unfoldable mutual
    requires_policy_evaluation : FilterExpression Date → Bool
    requires_policy_evaluation (predicate (has_permission required)) = true
    requires_policy_evaluation (predicate _) = false
    requires_policy_evaluation (negate inner) = requires_policy_evaluation inner
    requires_policy_evaluation (all children) = any_requires_policy children
    requires_policy_evaluation (any children) = any_requires_policy children

    any_requires_policy : FilterExpressions Date → Bool
    any_requires_policy nil = false
    any_requires_policy (cons child children) =
        requires_policy_evaluation child || any_requires_policy children

  -- The loops do not stop early: every database result belongs to one predicate and is taken.
  unfoldable mutual
    unfolding access_contains

    pub matches_inner :
        FilterExpression Date → List EffectiveAccess → List Bool → Option (Bool × List Bool)
    matches_inner (predicate (has_permission required)) access answers =
        some (access_contains access required, answers)
    matches_inner (predicate _) access answers = next_match answers
    matches_inner (negate inner) access answers =
        map_answer not (matches_inner inner access answers)
    matches_inner (all children) access answers = all_match children true access answers
    matches_inner (any children) access answers = any_match children false access answers

    pub all_match :
        FilterExpressions Date → Bool → List EffectiveAccess → List Bool → Option (Bool × List Bool)
    all_match nil matches access answers = some (matches, answers)
    all_match (cons child children) matches access answers =
        then_with (matches_inner child access answers)
          (λ answer rest. all_match children (matches && answer) access rest)

    pub any_match :
        FilterExpressions Date → Bool → List EffectiveAccess → List Bool → Option (Bool × List Bool)
    any_match nil matches access answers = some (matches, answers)
    any_match (cons child children) matches access answers =
        then_with (matches_inner child access answers)
          (λ answer rest. any_match children (matches || answer) access rest)

  -- `FilterExpression::matches`.
  unfoldable pub matches : FilterExpression Date → List EffectiveAccess → List Bool → Option Bool
  matches expression access answers = when_used_up (matches_inner expression access answers)
