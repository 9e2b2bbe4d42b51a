-- ===== src/Filter/State.antt =====
-- src/domain/filter.rs: the state of the parser, the chain of its steps, the modifiers `last:`,
-- `first:` and `sort:`, and the count of conditions. `position` into the token slice is the list of
-- the tokens that are left.
use silicon_briefcase.Prelude.{
  ℕ, Bool, true, false, not, ◌&&◌, List, map, Option, none, some, Result, ok, err, ltb, leb, ◌==◌,
  if◌then◌else◌, saturating_add,
}
use silicon_briefcase.Text.{Str, to_ascii_lowercase, str_eq, codes, parse_u16}
use silicon_briefcase.Filter.Expression.{FilterPredicate, FilterExpression, predicate}
use silicon_briefcase.Filter.Lexer.{
  FilterError, too_many_predicates, invalid_value, misplaced_modifier, repeated_modifier, Token,
}

abbrev pub max_filter_take : ℕ
max_filter_take = 100

abbrev pub max_filter_length : ℕ
max_filter_length = 1024

abbrev pub max_filter_predicates : ℕ
max_filter_predicates = 32

pub data TakeEnd : Type 0 where
  newest oldest : TakeEnd

pub record Take : Type 0 where
  pub end : TakeEnd
  pub count : ℕ

pub data SortOrder : Type 0 where
  newest oldest : SortOrder

unfoldable pub sort_eq : SortOrder → SortOrder → Bool
sort_eq SortOrder.newest SortOrder.newest = true
sort_eq SortOrder.oldest SortOrder.oldest = true
sort_eq _ _ = false

abbrev end_eq : TakeEnd → TakeEnd → Bool
end_eq TakeEnd.newest TakeEnd.newest = true
end_eq TakeEnd.oldest TakeEnd.oldest = true
end_eq _ _ = false

unfoldable pub take_eq : Take → Take → Bool
take_eq a b = end_eq a.end b.end && a.count == b.count

-- The parser's state.
pub record Parser : Type 0 where
  pub tokens : List Token
  pub predicates : ℕ
  pub sort : Option SortOrder
  pub take : Option Take

-- What a step of the parser comes to; the last is the fuel of the model running out.
pub data Outcome (A : Type 0) : Type 0 where
  done : A → Parser → Outcome A
  failed : FilterError → Outcome A
  out_of_fuel : Outcome A

abbrev pub Parse : Type 0 → Type 0
Parse A = Parser → Outcome A

infixl 5 ◌>>=◌
abbrev pub ◌>>=◌ : {A B : Type 0} → Parse A → (A → Parse B) → Parse B
◌>>=◌ m f p = elim (m p) [ done a p' ↦ f a p' | failed e ↦ failed e | out_of_fuel ↦ out_of_fuel ]

abbrev pub pure : {A : Type 0} → A → Parse A
pure a p = done a p

abbrev pub fail : {A : Type 0} → FilterError → Parse A
fail e p = failed e

abbrev pub differs : {A : Type 0} → (A → A → Bool) → Option A → A → Bool
differs eq none b = false
differs eq (some a) b = not (eq a b)

unfoldable pub set_sort : Str → SortOrder → Parse Unit
unfolding sort_eq
set_sort key order p =
    if differs sort_eq p.sort order
    then failed (repeated_modifier key)
    else done tt (record p { sort = some order })

unfoldable pub set_take : Str → Take → Parse Unit
unfolding take_eq
set_take key taken p =
    if differs take_eq p.take taken
    then failed (repeated_modifier key)
    else done tt (record p { take = some taken })

abbrev pub take_of : Str → ℕ → Take
take_of key count = record {
  end = if str_eq key (codes "last") then TakeEnd.newest else TakeEnd.oldest;
  count = count;
}

-- The count of `last:` and `first:`, from 1 to the maximum.
unfoldable pub take_count : Str → Option ℕ
take_count value = elim (parse_u16 value) [
  | none ↦ none
  | some n ↦ if leb 1 n && leb n max_filter_take then some n else none
]

abbrev pub take_modifier : Str → Option ℕ → Parse Unit
take_modifier key none = fail (invalid_value key)
take_modifier key (some count) = set_take key (take_of key count)

unfoldable pub modifier : Str → Str → Bool → Parse Unit
modifier key value top_level =
    if not top_level
    then fail (misplaced_modifier key)
    else if str_eq key (codes "sort")
    then (let order = map to_ascii_lowercase value in
        if str_eq order (codes "newest")
        then set_sort key SortOrder.newest
        else if str_eq order (codes "oldest")
        then set_sort key SortOrder.oldest
        else fail (invalid_value key))
    else take_modifier key (take_count value)

unfoldable pub advance : Parser → List Token → Parser
advance p rest = record p { tokens = rest }

module _ {Date : Type 0} where
  unfoldable pub add_predicate : FilterPredicate Date → Parse (Option (FilterExpression Date))
  add_predicate condition p =
      let counted = saturating_add p.predicates 1 in
      if ltb max_filter_predicates counted
      then failed too_many_predicates
      else done (some (predicate condition)) (record p { predicates = counted })

  unfoldable pub add_checked :
      Result (FilterPredicate Date) FilterError → Parse (Option (FilterExpression Date))
  unfolding add_predicate
  add_checked (ok condition) = add_predicate condition
  add_checked (err e) = fail e

  abbrev pub map_predicate :
      {A : Type 0}
      → (A → FilterPredicate Date)
      → Result A FilterError
      → Result (FilterPredicate Date) FilterError
  map_predicate f (ok a) = ok (f a)
  map_predicate f (err e) = err e
