-- ===== src/Filter/Parser/Loops.antt =====
-- One round of each function of the parser, when the fuel left is enough for the calls in it.
use silicon_briefcase.Prelude.{
  ℕ, suc, ◌+◌, ◌*◌, ◌≤◌, Bool, false, ◌≡◌, refl, List, [], ◌∷◌, Option, length, arith,
}
use silicon_briefcase.Text.{Str}
use silicon_briefcase.Filter.Expression.{FilterExpression, any, FilterExpressions, nil}
use silicon_briefcase.Filter.Lexer.{
  Token, open_paren, close_paren, or_word, and_word, not_word, term,
}
use silicon_briefcase.Filter.State.{Parser, Outcome, Parse, ◌>>=◌, advance, pure}
use silicon_briefcase.Filter.Conditions.{parse_term}
use silicon_briefcase.Filter.Parser.{
  push, gather, negation, close_group, unary_body, all_body, any_next, parse_unary, parse_all_loop,
  parse_any_loop,
}
use silicon_briefcase.Filter.Parser.Progress.{
  conditions, all_conditions, option_conditions, push-conditions, gather-any-conditions, Bounded,
  Moves, Ends, Ends-bind, Ends-from,
}
use silicon_briefcase.Filter.Parser.Budget.{
  parse_term-Ends, step-Moves, close_group-Ends, negation-Ends,
}

module _ {Date : Type 0} (parse_date : Str → Option Date) (date_lt : Date → Date → Bool) where
  -- What the fuel is enough for.
  pub record Unary (fuel : ℕ) : Type 0 where
    pub ends :
        (top : Bool) (p : Parser)
        → Bounded p
        → 3 * length p.tokens + 1 ≤ fuel
        → Ends option_conditions 0 1 p (parse_unary parse_date date_lt fuel top p)

  pub record AllLoop (fuel : ℕ) : Type 0 where
    pub ends :
        (top : Bool) (es : FilterExpressions Date) (p : Parser)
        → Bounded p
        → 3 * length p.tokens + 2 ≤ fuel
        → Ends all_conditions
            (all_conditions es)
            0
            p
            (parse_all_loop parse_date date_lt fuel top es p)

  pub record AnyLoop (fuel : ℕ) : Type 0 where
    pub ends :
        (top : Bool) (es : FilterExpressions Date) (p : Parser)
        → Bounded p
        → 3 * length p.tokens + 3 ≤ fuel
        → Ends all_conditions
            (all_conditions es)
            0
            p
            (parse_any_loop parse_date date_lt fuel top es p)

  abbrev group : ℕ → Parse (Option (FilterExpression Date))
  group fuel q = (parse_any_loop parse_date date_lt fuel false nil >>= λ es. pure (gather any es)) q

  group-Ends :
      (fuel : ℕ) (p : Parser)
      → AnyLoop fuel
      → Bounded p
      → 3 * length p.tokens + 3 ≤ fuel
      → Ends option_conditions 0 0 p (group fuel p)
  unfolding conditions
  group-Ends fuel p h b l =
      Ends-bind all_conditions option_conditions 0 0 0 0 p
        (parse_any_loop parse_date date_lt fuel false nil) (λ es. pure (gather any es))
        (h.ends false nil p b l)
        (λ es q m. record {
          tokens = m.tokens;
          counted = omega (arith, m.counted, gather-any-conditions es);
          bounded = m.bounded;
        })

  pub unary_body-Ends :
      (fuel : ℕ) (top : Bool) (ts : List Token) (p : Parser)
      → p.tokens ≡ ts
      → Unary fuel
      → AnyLoop fuel
      → Bounded p
      → 3 * length p.tokens + 1 ≤ suc fuel
      → Ends option_conditions 0 1 p (
          unary_body parse_date date_lt
            (parse_unary parse_date date_lt fuel false)
            (group fuel)
            top
            ts
            p)
  unary_body-Ends fuel top [] p e u a b l = tt
  unary_body-Ends fuel top (not_word ∷ rest) p e u a b l =
      let m = step-Moves parse_date date_lt p not_word rest e b in
      let q = advance p rest in
      let nested = parse_unary parse_date date_lt fuel false in
      let bound : Ends option_conditions 0 1 q ((nested >>= negation) q) =
        Ends-bind option_conditions option_conditions 0 0 1 1 q nested negation
          (u.ends false q m.bounded (omega (arith, m)))
          (λ i r n.
            Ends-from option_conditions (option_conditions i) 0 0 (option_conditions i) 1 0 1 q r
              (negation i r) n (negation-Ends parse_date date_lt i r n.bounded) (omega arith)
              (omega arith)) in
      Ends-from option_conditions 0 0 0 0 1 1 1 p q ((nested >>= negation) q) m bound refl
        (omega arith)
  unary_body-Ends fuel top (open_paren ∷ rest) p e u a b l =
      let m = step-Moves parse_date date_lt p open_paren rest e b in
      let q = advance p rest in
      let close : Option (FilterExpression Date) → Parse (Option (FilterExpression Date)) =
        λ inner r. close_group parse_date date_lt inner r.tokens r in
      let bound : Ends option_conditions 0 1 q ((group fuel >>= close) q) =
        Ends-bind option_conditions option_conditions 0 0 0 1 q (group fuel) close
          (group-Ends fuel q a m.bounded (omega (arith, m)))
          (λ i r n.
            Ends-from option_conditions (option_conditions i) 0 0 (option_conditions i) 0 1 1 q r
              (close i r) n (close_group-Ends parse_date date_lt i r.tokens r refl n.bounded)
              (omega arith) (omega arith)) in
      Ends-from option_conditions 0 0 0 0 1 1 1 p q ((group fuel >>= close) q) m bound refl
        (omega arith)
  unary_body-Ends fuel top (close_paren ∷ rest) p e u a b l = tt
  unary_body-Ends fuel top (term key value ∷ rest) p e u a b l =
      let m = step-Moves parse_date date_lt p (term key value) rest e b in
      Ends-from option_conditions 0 0 0 0 1 0 1 p (advance p rest)
        (parse_term parse_date date_lt key value top (advance p rest)) m
        (parse_term-Ends parse_date date_lt key value top (advance p rest) m.bounded) refl
        (omega arith)
  unary_body-Ends fuel top (or_word ∷ rest) p e u a b l = tt
  unary_body-Ends fuel top (and_word ∷ rest) p e u a b l = tt

  stays : (w : ℕ) (p : Parser) → Bounded p → Moves w w 0 p p
  stays w p b = record { tokens = omega arith; counted = refl; bounded = b }

  -- One more operand, and then the rest of the loop.
  operand-Ends :
      (fuel : ℕ) (top : Bool) (es : FilterExpressions Date) (p : Parser)
      → Unary fuel
      → AllLoop fuel
      → Bounded p
      → 3 * length p.tokens + 2 ≤ suc fuel
      → Ends all_conditions (all_conditions es) 0 p (
          (parse_unary parse_date date_lt fuel top >>= λ condition.
          parse_all_loop parse_date date_lt fuel top (push es condition))
            p)
  operand-Ends fuel top es p u a b l =
      let again = parse_all_loop parse_date date_lt fuel top in
      Ends-bind option_conditions all_conditions 0 (all_conditions es) 1 0 p
        (parse_unary parse_date date_lt fuel top) (λ condition. again (push es condition))
        (u.ends top p b (omega arith))
        (λ o q m.
          Ends-from all_conditions (option_conditions o) 0 (all_conditions es)
            (all_conditions (push es o)) 1 0 0 p q (again (push es o) q) m
            (a.ends top (push es o) q m.bounded (omega (arith, m)))
            (omega (arith, push-conditions es o)) (omega arith))

  -- The loop from a later token on.
  next-Ends :
      (w : ℕ) (p : Parser) (t : Token) (rest : List Token) (o : Outcome (FilterExpressions Date))
      → p.tokens ≡ t ∷ rest
      → Bounded p
      → Ends all_conditions w 0 (advance p rest) o
      → Ends all_conditions w 0 p o
  next-Ends w p t rest o e b h =
      Ends-from all_conditions 0 0 w w 1 0 0 p (advance p rest) o
        (step-Moves parse_date date_lt p t rest e b) h refl (omega arith)

  pub all_body-Ends :
      (fuel : ℕ) (top : Bool) (es : FilterExpressions Date) (ts : List Token) (p : Parser)
      → p.tokens ≡ ts
      → Unary fuel
      → AllLoop fuel
      → Bounded p
      → 3 * length p.tokens + 2 ≤ suc fuel
      → Ends all_conditions (all_conditions es) 0 p (
          all_body parse_date date_lt
            (parse_unary parse_date date_lt fuel top)
            (parse_all_loop parse_date date_lt fuel top)
            es
            ts
            p)
  all_body-Ends fuel top es [] p e u a b l = stays (all_conditions es) p b
  all_body-Ends fuel top es (or_word ∷ rest) p e u a b l = stays (all_conditions es) p b
  all_body-Ends fuel top es (close_paren ∷ rest) p e u a b l = stays (all_conditions es) p b
  all_body-Ends fuel top es (and_word ∷ []) p e u a b l = tt
  all_body-Ends fuel top es (and_word ∷ t ∷ rest) p e u a b l =
      let m = step-Moves parse_date date_lt p and_word (t ∷ rest) e b in
      let q = advance p (t ∷ rest) in
      next-Ends (all_conditions es) p and_word (t ∷ rest)
        (parse_all_loop parse_date date_lt fuel top es q) e b
        (a.ends top es q m.bounded (omega (arith, m)))
  all_body-Ends fuel top es (not_word ∷ rest) p e u a b l = operand-Ends fuel top es p u a b l
  all_body-Ends fuel top es (open_paren ∷ rest) p e u a b l = operand-Ends fuel top es p u a b l
  all_body-Ends fuel top es (term key value ∷ rest) p e u a b l = operand-Ends fuel top es p u a b l

  pub any_next-Ends :
      (fuel : ℕ) (top : Bool) (es : FilterExpressions Date) (ts : List Token) (p : Parser)
      → p.tokens ≡ ts
      → AnyLoop fuel
      → Bounded p
      → 3 * length p.tokens ≤ fuel
      → Ends all_conditions
          (all_conditions es)
          0
          p
          (any_next parse_date date_lt (parse_any_loop parse_date date_lt fuel top) es ts p)
  any_next-Ends fuel top es (or_word ∷ []) p e a b l = tt
  any_next-Ends fuel top es (or_word ∷ t ∷ rest) p e a b l =
      let m = step-Moves parse_date date_lt p or_word (t ∷ rest) e b in
      let q = advance p (t ∷ rest) in
      next-Ends (all_conditions es) p or_word (t ∷ rest)
        (parse_any_loop parse_date date_lt fuel top es q) e b
        (a.ends top es q m.bounded (omega (arith, m)))
  any_next-Ends fuel top es [] p e a b l = stays (all_conditions es) p b
  any_next-Ends fuel top es (and_word ∷ rest) p e a b l = stays (all_conditions es) p b
  any_next-Ends fuel top es (not_word ∷ rest) p e a b l = stays (all_conditions es) p b
  any_next-Ends fuel top es (open_paren ∷ rest) p e a b l = stays (all_conditions es) p b
  any_next-Ends fuel top es (close_paren ∷ rest) p e a b l = stays (all_conditions es) p b
  any_next-Ends fuel top es (term key value ∷ rest) p e a b l = stays (all_conditions es) p b
