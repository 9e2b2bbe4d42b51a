-- ===== src/Filter/Parser/Budget.antt =====
-- The parser always comes to an end, and what it accepts is within the bounds on conditions and counts.
use silicon_briefcase.Prelude.{
  ℕ, ◌+◌, ◌≤◌, Bool, not, ◌≡◌, refl, ap, List, ◌∷◌, Option, none, some, Result, ok, err, length,
  arith, ltb, if◌then◌else◌, saturating_add, map,
}
use silicon_briefcase.Text.{Str, str_eq, codes, to_ascii_lowercase}
use silicon_briefcase.Filter.Expression.{FilterPredicate, contains, FilterExpression, predicate}
use silicon_briefcase.Filter.Lexer.{
  FilterError, invalid_value, misplaced_modifier, repeated_modifier, too_many_predicates, Token,
  close_paren,
}
use silicon_briefcase.Filter.Terms.{glob}
use silicon_briefcase.Filter.State.{
  map_predicate, Parser, Take, done, failed, ◌>>=◌, advance, SortOrder, differs, sort_eq, take_eq,
  fail, set_sort, set_take, take_of, take_count, take_modifier, modifier, add_predicate,
  add_checked, max_filter_predicates, max_filter_take, pure,
}
use silicon_briefcase.Filter.Conditions.{parse_term, condition, is_modifier}
use silicon_briefcase.Filter.Parser.{negation, close_group}
use silicon_briefcase.Filter.Parser.Progress.{
  conditions, option_conditions, Bounded, Moves, Ends, Ends-bind, Ends-if, Ends-branch,
}

abbrev no_weight : Unit {0} → ℕ
no_weight u = 0

set_sort-Ends :
    (key : Str) (order : SortOrder) (p : Parser)
    → Bounded p
    → Ends no_weight 0 0 p (set_sort key order p)
unfolding set_sort
set_sort-Ends key order p b =
    Ends-if no_weight 0 0 p (differs sort_eq p.sort order) (failed (repeated_modifier key))
      (done tt (record p { sort = some order })) (λ e. tt)
      (λ e. record {
        tokens = omega arith;
        counted = refl;
        bounded = record { few = b.few; taken = b.taken };
      })

set_take-Ends :
    (key : Str) (t : Take) (p : Parser)
    → Bounded p
    → (1 ≤ t.count) × (t.count ≤ max_filter_take)
    → Ends no_weight 0 0 p (set_take key t p)
unfolding set_take
set_take-Ends key t p b h =
    Ends-if no_weight 0 0 p (differs take_eq p.take t) (failed (repeated_modifier key))
      (done tt (record p { take = some t })) (λ e. tt)
      (λ e. record {
        tokens = omega arith;
        counted = refl;
        bounded = record { few = b.few; taken = h };
      })

take_count-bounds :
    (value : Str) (n : ℕ) → take_count value ≡ some n → (1 ≤ n) × (n ≤ max_filter_take)
unfolding take_count
take_count-bounds value n h = ground arith

take_modifier-Ends :
    (key : Str) (o : Option ℕ) (p : Parser)
    → Bounded p
    → ((n : ℕ) → o ≡ some n → (1 ≤ n) × (n ≤ max_filter_take))
    → Ends no_weight 0 0 p (take_modifier key o p)
take_modifier-Ends key none p b h = tt
take_modifier-Ends key (some n) p b h = set_take-Ends key (take_of key n) p b (h n refl)

modifier-Ends :
    (key value : Str) (top : Bool) (p : Parser)
    → Bounded p
    → Ends no_weight 0 0 p (modifier key value top p)
unfolding modifier
modifier-Ends key value top p b =
    let order = map to_ascii_lowercase value in
    let wrong = fail {A = Unit} (invalid_value key) in
    let oldest = if str_eq order (codes "oldest") then set_sort key SortOrder.oldest else wrong in
    let sorted = if str_eq order (codes "newest") then set_sort key SortOrder.newest else oldest in
    let taken = take_modifier key (take_count value) in
    Ends-branch no_weight 0 0 p (not top) (fail (misplaced_modifier key))
      (if str_eq key (codes "sort") then sorted else taken) tt
      (Ends-branch no_weight 0 0 p (str_eq key (codes "sort")) sorted taken
        (Ends-branch no_weight 0 0 p (str_eq order (codes "newest")) (set_sort key SortOrder.newest)
          oldest (set_sort-Ends key SortOrder.newest p b)
          (Ends-branch no_weight 0 0 p (str_eq order (codes "oldest"))
            (set_sort key SortOrder.oldest) wrong (set_sort-Ends key SortOrder.oldest p b) tt))
        (take_modifier-Ends key (take_count value) p b (take_count-bounds value)))

after_modifier-Ends :
    (Date : Type 0) (key value : Str) (top : Bool) (p : Parser)
    → Bounded p
    → Ends (option_conditions {Date = Date}) 0 0 p ((modifier key value top >>= λ u. pure none) p)
after_modifier-Ends Date key value top p b =
    Ends-bind no_weight (option_conditions {Date = Date}) 0 0 0 0 p (modifier key value top)
      (λ u. pure none) (modifier-Ends key value top p b)
      (λ u q m. record { tokens = m.tokens; counted = m.counted; bounded = m.bounded })

module _ {Date : Type 0} where
  add_predicate-Ends :
      (c : FilterPredicate Date) (p : Parser)
      → Bounded p
      → Ends option_conditions 0 0 p (add_predicate c p)
  unfolding add_predicate conditions
  add_predicate-Ends c p b =
      let n = saturating_add p.predicates 1 in
      let exact : n ≡ p.predicates + 1 = ground (arith, b.few) in
      Ends-if option_conditions 0 0 p (ltb max_filter_predicates n) (failed too_many_predicates)
        (done (some (predicate c)) (record p { predicates = n })) (λ e. tt)
        (λ e. record {
          tokens = omega arith;
          counted = omega (arith, exact);
          bounded = record { few = ground arith; taken = b.taken };
        })

  add_checked-Ends :
      (r : Result (FilterPredicate Date) FilterError) (p : Parser)
      → Bounded p
      → Ends option_conditions 0 0 p (add_checked r p)
  unfolding add_checked
  add_checked-Ends (ok c) p b = add_predicate-Ends c p b
  add_checked-Ends (err e) p b = tt

module _ {Date : Type 0} (parse_date : Str → Option Date) (date_lt : Date → Date → Bool) where
  pub parse_term-Ends :
      (key : Option Str) (value : Str) (top : Bool) (p : Parser)
      → Bounded p
      → Ends option_conditions 0 0 p (parse_term parse_date date_lt key value top p)
  unfolding parse_term
  parse_term-Ends none value top p b =
      add_checked-Ends (map_predicate contains (glob (codes "contains") value)) p b
  parse_term-Ends (some key) value top p b =
      Ends-branch option_conditions 0 0 p (is_modifier parse_date date_lt key)
        (modifier key value top >>= λ u. pure none)
        (add_checked (condition parse_date date_lt key value))
        (after_modifier-Ends Date key value top p b)
        (add_checked-Ends (condition parse_date date_lt key value) p b)

  -- A step over one token.
  pub step-Moves :
      (p : Parser) (t : Token) (rest : List Token)
      → p.tokens ≡ t ∷ rest
      → Bounded p
      → Moves 0 0 1 p (advance p rest)
  unfolding advance
  step-Moves p t rest e b = record {
    tokens = omega (arith, ap length e);
    counted = refl;
    bounded = record { few = b.few; taken = b.taken };
  }

  pub close_group-Ends :
      (inner : Option (FilterExpression Date)) (ts : List Token) (q : Parser)
      → q.tokens ≡ ts
      → Bounded q
      → Ends option_conditions
          (option_conditions inner)
          1
          q
          (close_group parse_date date_lt inner ts q)
  close_group-Ends inner (close_paren ∷ rest) q e b =
      let m = step-Moves q close_paren rest e b in
      record { tokens = m.tokens; counted = omega (arith, m); bounded = m.bounded }
  close_group-Ends inner _ q e b = tt

  pub negation-Ends :
      (inner : Option (FilterExpression Date)) (q : Parser)
      → Bounded q
      → Ends option_conditions (option_conditions inner) 0 q (negation inner q)
  unfolding conditions
  negation-Ends none q b = tt
  negation-Ends (some e) q b = record { tokens = omega arith; counted = refl; bounded = b }
