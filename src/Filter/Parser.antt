-- ===== src/Filter/Parser.antt =====
-- src/domain/filter.rs: the recursive-descent parser of filter expressions, and `FilterQuery`. `Date`,
-- `parse_date` and `date_lt` stand for the days of the crate `time`, their parser and their order.
pub mod Progress
pub mod Budget
pub mod Loops
pub mod Fuel
use silicon_briefcase.Prelude.{
  ℕ, zero, suc, ◌+◌, Bool, true, false, not, ◌&&◌, ◌||◌, List, [], ◌∷◌, ◌++◌, map, Option, none,
  some, Result, ok, err, ok_or, ltb, leb, ◌==◌, if◌then◌else◌, saturating_add, length, ◌*◌,
}
use silicon_briefcase.Text.{
  Str, is_empty, byte_len, to_ascii_lowercase, str_eq, codes, split_once, parse_u16,
}
use silicon_briefcase.Filter.Expression.{
  FilterPredicate, changed_after, changed_before, changed_between, created_by, shared_with,
  accessible_to, contains, has_content, name_matches, in_location, has_permission, FilterExpression,
  predicate, negate, all, any, FilterExpressions, nil, cons,
}
use silicon_briefcase.Filter.Lexer.{
  FilterError, too_long, too_many_predicates, unbalanced_parentheses, dangling_operator, empty,
  unknown_key, invalid_value, misplaced_modifier, repeated_modifier, Token, open_paren, close_paren,
  or_word, and_word, not_word, term, tokenize,
}
use silicon_briefcase.Filter.Terms.{glob, date, actor, permission, is_predicate}
use silicon_briefcase.Filter.State.{
  Take, TakeEnd, SortOrder, Parser, Outcome, done, failed, out_of_fuel, Parse, ◌>>=◌, pure, fail,
  sort_eq, modifier, advance, add_predicate, add_checked, map_predicate, max_filter_length,
}
use silicon_briefcase.Filter.Conditions.{between_days, condition, is_modifier, parse_term}

module _ {Date : Type 0} where
  -- `expressions.push(expression)`.
  abbrev pub snoc : FilterExpressions Date → FilterExpression Date → FilterExpressions Date
  snoc nil e = cons e nil
  snoc (cons d ds) e = cons d (snoc ds e)

  abbrev pub push : FilterExpressions Date → Option (FilterExpression Date) → FilterExpressions Date
  push es none = es
  push es (some e) = snoc es e

  -- The result of a loop: nothing, the only expression, or all of them under `combine`.
  abbrev pub gather :
      (FilterExpressions Date → FilterExpression Date)
      → FilterExpressions Date
      → Option (FilterExpression Date)
  gather combine nil = none
  gather combine (cons e nil) = some e
  gather combine (cons e (cons d es)) = some (combine (cons e (cons d es)))

  abbrev pub negation : Option (FilterExpression Date) → Parse (Option (FilterExpression Date))
  negation none = fail dangling_operator
  negation (some inner) = pure (some (negate inner))

abbrev sort_or_newest : Option SortOrder → SortOrder
sort_or_newest none = SortOrder.newest
sort_or_newest (some order) = order

pub record FilterQuery (Date : Type 0) : Type 0 where
  pub expression : Option (FilterExpression Date)
  pub sort : SortOrder
  pub take : Option Take

-- The order that the modifier `last:` or `first:` scans in, or else that of the presentation.
abbrev scan_of : Option Take → SortOrder → SortOrder
scan_of none sort = sort
scan_of (some taken) sort = elim taken.end [
  | TakeEnd.newest ↦ SortOrder.newest
  | TakeEnd.oldest ↦ SortOrder.oldest
]

module _ {Date : Type 0} where
  unfoldable scan_order : FilterQuery Date → SortOrder
  scan_order query = scan_of query.take query.sort

  unfoldable requires_reversal : FilterQuery Date → Bool
  unfolding scan_order sort_eq
  requires_reversal query = not (sort_eq (scan_order query) query.sort)

module _ {Date : Type 0} (parse_date : Str → Option Date) (date_lt : Date → Date → Bool) where
  -- After the parenthesised group.
  abbrev pub close_group :
      Option (FilterExpression Date) → List Token → Parse (Option (FilterExpression Date))
  close_group inner (close_paren ∷ rest) p = done inner (advance p rest)
  close_group inner _ p = failed unbalanced_parentheses

  -- The bodies of `parse_unary` and of the two loops, over the calls that they make.
  abbrev pub unary_body :
      Parse (Option (FilterExpression Date))
      → Parse (Option (FilterExpression Date))
      → Bool
      → List Token
      → Parse (Option (FilterExpression Date))
  unary_body nested group top_level [] p = failed dangling_operator
  unary_body nested group top_level (not_word ∷ rest) p = (nested >>= negation) (advance p rest)
  unary_body nested group top_level (open_paren ∷ rest) p =
      (group >>= λ inner q. close_group inner q.tokens q) (advance p rest)
  unary_body nested group top_level (close_paren ∷ rest) p = failed unbalanced_parentheses
  unary_body nested group top_level (term key value ∷ rest) p =
      parse_term parse_date date_lt key value top_level (advance p rest)
  unary_body nested group top_level (or_word ∷ rest) p = failed dangling_operator
  unary_body nested group top_level (and_word ∷ rest) p = failed dangling_operator

  abbrev pub all_body :
      Parse (Option (FilterExpression Date))
      → (FilterExpressions Date → Parse (FilterExpressions Date))
      → FilterExpressions Date
      → List Token
      → Parse (FilterExpressions Date)
  all_body unary again conditions [] p = done conditions p
  all_body unary again conditions (or_word ∷ rest) p = done conditions p
  all_body unary again conditions (close_paren ∷ rest) p = done conditions p
  all_body unary again conditions (and_word ∷ []) p = failed dangling_operator
  all_body unary again conditions (and_word ∷ t ∷ rest) p = again conditions (advance p (t ∷ rest))
  all_body unary again conditions _ p = (unary >>= λ condition. again (push conditions condition)) p

  abbrev pub any_next :
      (FilterExpressions Date → Parse (FilterExpressions Date))
      → FilterExpressions Date
      → List Token
      → Parse (FilterExpressions Date)
  any_next again alternatives (or_word ∷ []) p = failed dangling_operator
  any_next again alternatives (or_word ∷ t ∷ rest) p = again alternatives (advance p (t ∷ rest))
  any_next again alternatives _ p = done alternatives p

  unfoldable mutual
    pub parse_unary : ℕ → Bool → Parse (Option (FilterExpression Date))
    parse_unary zero top_level p = out_of_fuel
    parse_unary (suc fuel) top_level p =
        unary_body (parse_unary fuel false)
          (λ q. (parse_any_loop fuel false nil >>= λ es. pure (gather any es)) q) top_level p.tokens
          p

    pub parse_all_loop : ℕ → Bool → FilterExpressions Date → Parse (FilterExpressions Date)
    parse_all_loop zero top_level conditions p = out_of_fuel
    parse_all_loop (suc fuel) top_level conditions p =
        all_body (parse_unary fuel top_level) (parse_all_loop fuel top_level) conditions p.tokens p

    pub parse_any_loop : ℕ → Bool → FilterExpressions Date → Parse (FilterExpressions Date)
    parse_any_loop zero top_level alternatives p = out_of_fuel
    parse_any_loop (suc fuel) top_level alternatives p =
        (parse_all_loop fuel top_level nil >>= λ es q.
        any_next (parse_any_loop fuel top_level) (push alternatives (gather all es)) q.tokens q)
          p

  -- Enough for every token list: each call chain takes a token within three calls.
  abbrev pub enough_fuel : List Token → ℕ
  enough_fuel tokens = 3 * length tokens + 3

  -- `Parser::parse_any` at the top, and the check that nothing is left.
  unfoldable pub parse_query : Parse (Option (FilterExpression Date))
  parse_query p = elim p.tokens [
    | [] ↦ failed empty
    | t ∷ rest ↦
        (parse_any_loop (enough_fuel p.tokens) true nil >>= λ es q.
        if is_empty q.tokens then done (gather any es) q else failed unbalanced_parentheses)
          p
  ]

  abbrev pub start : List Token → Parser
  start tokens = record { tokens = tokens; predicates = 0; sort = none; take = none }

  abbrev pub to_query :
      Outcome (Option (FilterExpression Date)) → Option (Result (FilterQuery Date) FilterError)
  to_query (done expression p) =
      some (ok (record { expression = expression; sort = sort_or_newest p.sort; take = p.take }))
  to_query (failed e) = some (err e)
  to_query out_of_fuel = none

  abbrev pub parse_tokens :
      Result (List Token) FilterError → Option (Result (FilterQuery Date) FilterError)
  parse_tokens (err e) = some (err e)
  parse_tokens (ok tokens) = to_query (parse_query (start tokens))

  -- `FilterQuery::parse`; `none` is the fuel running out.
  unfoldable pub parse : Str → Option (Result (FilterQuery Date) FilterError)
  parse input =
      if ltb max_filter_length (byte_len input)
      then some (err too_long)
      else parse_tokens (tokenize input)
