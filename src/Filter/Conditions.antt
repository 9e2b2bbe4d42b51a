-- ===== src/Filter/Conditions.antt =====
-- src/domain/filter.rs: the condition that a term stands for (`Parser::term`). `Date`, `parse_date` and
-- `date_lt` stand for the days of the crate `time`, their parser and their order.
use silicon_briefcase.Prelude.{Bool, ◌||◌, Option, none, some, Result, ok, err, if◌then◌else◌}
use silicon_briefcase.Text.{Str, str_eq, codes, split_once}
use silicon_briefcase.Filter.Expression.{
  FilterPredicate, changed_after, changed_before, changed_between, created_by, shared_with,
  accessible_to, contains, has_content, name_matches, in_location, has_permission, FilterExpression,
}
use silicon_briefcase.Filter.Lexer.{FilterError, unknown_key, invalid_value}
use silicon_briefcase.Filter.Terms.{glob, date, actor, permission, is_predicate}
use silicon_briefcase.Filter.State.{Parse, ◌>>=◌, pure, modifier, add_checked, map_predicate}

module _ {Date : Type 0} (parse_date : Str → Option Date) (date_lt : Date → Date → Bool) where
  -- `between:`: two days in order, with `=` between them.
  abbrev ordered_days :
      Str
      → Result Date FilterError
      → Result Date FilterError
      → Result (FilterPredicate Date) FilterError
  ordered_days key (err e) end = err e
  ordered_days key (ok start) (err e) = err e
  ordered_days key (ok start) (ok end) =
      if date_lt end start then err (invalid_value key) else ok (changed_between start end)

  unfoldable pub between_days : Str → Option (Str × Str) → Result (FilterPredicate Date) FilterError
  between_days key none = err (invalid_value key)
  between_days key (some (start, end)) =
      ordered_days key (date parse_date key start) (date parse_date key end)

  -- The condition that a key and a value name; the modifiers are not among them.
  unfoldable pub condition : Str → Str → Result (FilterPredicate Date) FilterError
  condition key value =
      if str_eq key (codes "after")
      then map_predicate changed_after (date parse_date key value)
      else if str_eq key (codes "before")
      then map_predicate changed_before (date parse_date key value)
      else if str_eq key (codes "between")
      then between_days key (split_once b'=' value)
      else if str_eq key (codes "from")
      then map_predicate created_by (actor key value)
      else if str_eq key (codes "to")
      then map_predicate shared_with (actor key value)
      else if str_eq key (codes "for")
      then map_predicate accessible_to (actor key value)
      else if str_eq key (codes "contains")
      then map_predicate contains (glob key value)
      else if str_eq key (codes "has")
      then map_predicate has_content (glob key value)
      else if str_eq key (codes "name")
      then map_predicate name_matches (glob key value)
      else if str_eq key (codes "location")
      then map_predicate in_location (glob key value)
      else if str_eq key (codes "permissions") || str_eq key (codes "permission")
      then map_predicate has_permission (permission key value)
      else if str_eq key (codes "is")
      then is_predicate key value
      else err (unknown_key key)

  abbrev pub is_modifier : Str → Bool
  is_modifier key =
      str_eq key (codes "last") || str_eq key (codes "first") || str_eq key (codes "sort")

  -- `Parser::term`; a bare word is looked for in names and content.
  unfoldable pub parse_term : Option Str → Str → Bool → Parse (Option (FilterExpression Date))
  parse_term none value top_level =
      add_checked (map_predicate contains (glob (codes "contains") value))
  parse_term (some key) value top_level =
      if is_modifier key
      then (modifier key value top_level >>= λ u. pure none)
      else add_checked (condition key value)
