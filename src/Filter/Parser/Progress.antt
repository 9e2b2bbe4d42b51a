-- ===== src/Filter/Parser/Progress.antt =====
-- What a step of the parser does to its state: it takes tokens, and counts the conditions that it adds.
use silicon_briefcase.Prelude.{
  ℕ, ◌+◌, ◌≤◌, Bool, true, false, ◌≡◌, refl, Option, none, some, length, arith, if◌then◌else◌,
}
use silicon_briefcase.Filter.Expression.{
  FilterExpression, predicate, negate, all, any, FilterExpressions, nil, cons,
}
use silicon_briefcase.Filter.State.{
  Parser, Take, Outcome, done, failed, out_of_fuel, Parse, ◌>>=◌, max_filter_predicates,
  max_filter_take,
}
use silicon_briefcase.Filter.Parser.{snoc, push, gather}

module _ {Date : Type 0} where
  -- The number of conditions in an expression.
  unfoldable mutual
    pub conditions : FilterExpression Date → ℕ
    conditions (predicate p) = 1
    conditions (negate inner) = conditions inner
    conditions (all children) = all_conditions children
    conditions (any children) = all_conditions children

    pub all_conditions : FilterExpressions Date → ℕ
    all_conditions nil = 0
    all_conditions (cons child children) = conditions child + all_conditions children

  abbrev pub option_conditions : Option (FilterExpression Date) → ℕ
  option_conditions none = 0
  option_conditions (some e) = conditions e

  snoc-conditions :
      (es : FilterExpressions Date) (e : FilterExpression Date)
      → all_conditions (snoc es e) ≡ all_conditions es + conditions e
  unfolding conditions
  snoc-conditions nil e = omega arith
  snoc-conditions (cons d ds) e = omega (arith, snoc-conditions ds e)

  pub push-conditions :
      (es : FilterExpressions Date) (o : Option (FilterExpression Date))
      → all_conditions (push es o) ≡ all_conditions es + option_conditions o
  push-conditions es none = omega arith
  push-conditions es (some e) = snoc-conditions es e

  pub gather-any-conditions :
      (es : FilterExpressions Date) → option_conditions (gather any es) ≡ all_conditions es
  unfolding conditions
  gather-any-conditions nil = refl
  gather-any-conditions (cons e nil) = omega arith
  gather-any-conditions (cons e (cons d es)) = refl

  pub gather-all-conditions :
      (es : FilterExpressions Date) → option_conditions (gather all es) ≡ all_conditions es
  unfolding conditions
  gather-all-conditions nil = refl
  gather-all-conditions (cons e nil) = omega arith
  gather-all-conditions (cons e (cons d es)) = refl

abbrev pub TakeInRange : Option Take → Type 0
TakeInRange none = Unit
TakeInRange (some t) = (1 ≤ t.count) × (t.count ≤ max_filter_take)

-- A state within the bounds.
pub record Bounded (p : Parser) : Type 0 where
  pub few : p.predicates ≤ max_filter_predicates
  pub taken : TakeInRange p.take

-- From `p` to `q` at least `k` tokens were taken, and the weight `w`, from the weight `c` that was there
-- before, grew by the conditions that were counted.
pub record Moves (w c k : ℕ) (p q : Parser) : Type 0 where
  pub tokens : length q.tokens + k ≤ length p.tokens
  pub counted : w + p.predicates ≡ c + q.predicates
  pub bounded : Bounded q

-- A step that succeeds moves so, and no step runs out of fuel.
abbrev pub Ends : {A : Type 0} → (A → ℕ) → ℕ → ℕ → Parser → Outcome A → Type 0
Ends w c k p (done a q) = Moves (w a) c k p q
Ends w c k p (failed e) = Unit
Ends w c k p out_of_fuel = ⊥

-- A step after another one.
pub Ends-bind :
    {A B : Type 0} (w : A → ℕ) (v : B → ℕ) (c d k j : ℕ) (p : Parser) (m : Parse A)
    (f : A → Parse B)
    → Ends w c k p (m p)
    → ((a : A) (q : Parser) → Moves (w a) c k p q → Ends v d j p (f a q))
    → Ends v d j p ((m >>= f) p)
Ends-bind {A} {B} w v c d k j p m f h g = go (m p) h
  where
    go :
        (o : Outcome A)
        → Ends w c k p o
        → Ends v d j p
            (elim o [ done a q ↦ f a q | failed e ↦ failed e | out_of_fuel ↦ out_of_fuel ])
    go (done a q) e = g a q e
    go (failed e) t = tt
    go out_of_fuel t = t

-- A step from a later state, seen from an earlier one.
pub Ends-from :
    {A : Type 0} (w : A → ℕ) (x c d e k j i : ℕ) (p q : Parser) (o : Outcome A)
    → Moves x c k p q
    → Ends w e j q o
    → e + c ≡ d + x
    → i ≤ k + j
    → Ends w d i p o
Ends-from w x c d e k j i p q (done a r) m n h l = record {
  tokens = omega (arith, m, n);
  counted = omega (arith, m, n);
  bounded = n.bounded;
}
Ends-from w x c d e k j i p q (failed f) m n h l = tt
Ends-from w x c d e k j i p q out_of_fuel m n h l = n

-- A step that branches on a test, before or after it was given the state.
pub Ends-if :
    {A : Type 0} (w : A → ℕ) (c k : ℕ) (p : Parser) (b : Bool) (m n : Outcome A)
    → (b ≡ true → Ends w c k p m)
    → (b ≡ false → Ends w c k p n)
    → Ends w c k p (if b then m else n)
Ends-if w c k p true m n h g = h refl
Ends-if w c k p false m n h g = g refl

pub Ends-branch :
    {A : Type 0} (w : A → ℕ) (c k : ℕ) (p : Parser) (b : Bool) (m n : Parse A)
    → Ends w c k p (m p)
    → Ends w c k p (n p)
    → Ends w c k p ((if b then m else n) p)
Ends-branch w c k p true m n h g = h
Ends-branch w c k p false m n h g = g
