-- ===== src/Filter/Parser/Fuel.antt =====
-- The fuel of the parser is enough for every input, and what is accepted is within the bounds.
use silicon_briefcase.Prelude.{
  ℕ, zero, suc, ◌≤◌, Bool, true, false, ◌≡◌, refl, List, [], ◌∷◌, Option, none, some, subst, Result,
  ok, err, arith, if◌then◌else◌, ltb,
}
use silicon_briefcase.Text.{Str, is_empty, byte_len}
use silicon_briefcase.Filter.Expression.{FilterExpression, all, any, FilterExpressions, nil}
use silicon_briefcase.Filter.Lexer.{FilterError, too_long, unbalanced_parentheses, Token, tokenize}
use silicon_briefcase.Filter.State.{
  Outcome, done, failed, out_of_fuel, Parse, ◌>>=◌, max_filter_predicates, max_filter_length,
}
use silicon_briefcase.Filter.Parser.{
  push, gather, any_next, parse_unary, parse_all_loop, parse_any_loop, parse_query, start, to_query,
  parse_tokens, parse, FilterQuery, enough_fuel,
}
use silicon_briefcase.Filter.Parser.Progress.{
  all_conditions, option_conditions, push-conditions, gather-any-conditions, gather-all-conditions,
  TakeInRange, Ends, Ends-bind, Ends-from, Ends-if,
}
use silicon_briefcase.Filter.Parser.Loops.{
  Unary, AllLoop, AnyLoop, unary_body-Ends, all_body-Ends, any_next-Ends,
}

module _ {Date : Type 0} (parse_date : Str → Option Date) (date_lt : Date → Date → Bool) where
  enough :
      (fuel : ℕ)
      → Unary parse_date date_lt fuel
        × AllLoop parse_date date_lt fuel
        × AnyLoop parse_date date_lt fuel
  unfolding parse_unary all_conditions
  enough zero = (
    record { ends = λ top p b l. absurd (omega arith) },
    record { ends = λ top es p b l. absurd (omega arith) },
    record { ends = λ top es p b l. absurd (omega arith) },
  )
  enough (suc fuel) =
      let (u, a, o) = enough fuel in
      (
        record {
          ends = λ top p b l. unary_body-Ends parse_date date_lt fuel top p.tokens p refl u o b l;
        },
        record {
          ends =
              λ top es p b l. all_body-Ends parse_date date_lt fuel top es p.tokens p refl u a b l;
        },
        record {
          ends = λ top es p b l.
              let again = parse_any_loop parse_date date_lt fuel top in
              let step : FilterExpressions Date → Parse (FilterExpressions Date) =
                λ ds q. any_next parse_date date_lt again (push es (gather all ds)) q.tokens q in
              Ends-bind all_conditions all_conditions 0 (all_conditions es) 0 0 p
                (parse_all_loop parse_date date_lt fuel top nil) step
                (a.ends top nil p b (omega arith))
                (λ ds q m.
                  let pushed = push es (gather all ds) in
                  Ends-from all_conditions (all_conditions ds) 0 (all_conditions es)
                    (all_conditions pushed) 0 0 0 p q (step ds q) m
                    (any_next-Ends parse_date date_lt fuel top pushed q.tokens q refl o m.bounded
                      (omega (arith, m)))
                    (omega (arith, push-conditions es (gather all ds), gather-all-conditions ds))
                    (omega arith));
        },
      )

  query-Ends :
      (ts : List Token)
      → Ends option_conditions 0 0
          (start parse_date date_lt ts)
          (parse_query parse_date date_lt (start parse_date date_lt ts))
  unfolding parse_query all_conditions
  query-Ends [] = tt
  query-Ends (t ∷ rest) =
      let p = start parse_date date_lt (t ∷ rest) in
      let fuel = enough_fuel parse_date date_lt (t ∷ rest) in
      let (u, a, o) = enough fuel in
      let loop = parse_any_loop parse_date date_lt fuel true nil in
      let finish : FilterExpressions Date → Parse (Option (FilterExpression Date)) = λ es q.
        if is_empty q.tokens then done (gather any es) q else failed unbalanced_parentheses in
      let bound : Ends option_conditions 0 0 p ((loop >>= finish) p) =
        Ends-bind all_conditions option_conditions 0 0 0 0 p loop finish
          (o.ends true nil p (record { few = omega arith; taken = tt }) (omega arith))
          (λ es q m.
            Ends-if option_conditions 0 0 p (is_empty q.tokens) (done (gather any es) q)
              (failed unbalanced_parentheses)
              (λ h. record {
                tokens = m.tokens;
                counted = omega (arith, m.counted, gather-any-conditions es);
                bounded = m.bounded;
              })
              (λ h. tt)) in
      bound

  -- A query within the bounds.
  pub record IsModest (q : FilterQuery Date) : Type 0 where
    pub few : option_conditions q.expression ≤ max_filter_predicates
    pub taken : TakeInRange q.take

  abbrev Modest : Option (Result (FilterQuery Date) FilterError) → Type 0
  Modest none = ⊥
  Modest (some (err e)) = Unit
  Modest (some (ok q)) = IsModest q

  to_query-Modest :
      (ts : List Token) (o : Outcome (Option (FilterExpression Date)))
      → Ends option_conditions 0 0 (start parse_date date_lt ts) o
      → Modest (to_query parse_date date_lt o)
  to_query-Modest ts (done e p) m = record {
    few = omega (arith, m.counted, m.bounded.few);
    taken = m.bounded.taken;
  }
  to_query-Modest ts (failed e) m = tt
  to_query-Modest ts out_of_fuel m = m

  parse-Modest : (input : Str) → Modest (parse parse_date date_lt input)
  unfolding parse
  parse-Modest input = tokens (ltb max_filter_length (byte_len input)) (tokenize input)
    where
      tokens :
          (long : Bool) (ts : Result (List Token) FilterError)
          → Modest (if long then some (err too_long) else parse_tokens parse_date date_lt ts)
      tokens true ts = tt
      tokens false (err e) = tt
      tokens false (ok ts) =
          let p = start parse_date date_lt ts in
          to_query-Modest ts (parse_query parse_date date_lt p) (query-Ends ts)

  -- Parsing always comes to a result: the fuel is enough for every input.
  pub parse-total :
      (input : Str)
      → (r : Result (FilterQuery Date) FilterError) × (parse parse_date date_lt input ≡ some r)
  parse-total input = result (parse parse_date date_lt input) (parse-Modest input)
    where
      result :
          (o : Option (Result (FilterQuery Date) FilterError))
          → Modest o
          → (r : Result (FilterQuery Date) FilterError) × (o ≡ some r)
      result (some r) m = (r, refl)
      result none m = absurd m

  -- A query that is accepted has at most 32 conditions, and a `last:` or `first:` of 1 to 100 entries.
  pub parse-IsModest :
      (input : Str) (q : FilterQuery Date)
      → parse parse_date date_lt input ≡ some (ok q)
      → IsModest q
  parse-IsModest input q e = subst Modest e (parse-Modest input)
