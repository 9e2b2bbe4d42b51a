-- ===== src/Filter/Expression/Meaning.antt =====
-- What an expression means, and that the evaluation computes it.
use mathlib.Core.List.{append_assoc, append-nil}
use silicon_briefcase.Prelude.{
  Bool, true, false, not, ◌&&◌, ◌||◌, ◌≡◌, refl, sym, ap, ◌∙◌, List, [], ◌∷◌, ◌++◌, some, arith,
}
use silicon_briefcase.Permission.Rights.{EffectiveAccess}
use silicon_briefcase.Filter.Expression.{
  FilterPredicate, has_permission, FilterExpression, predicate, negate, all, any, FilterExpressions,
  nil, cons, access_contains, matches_inner, all_match, any_match, matches, when_used_up,
}

module _ {Date : Type 0} (database : FilterPredicate Date → Bool)
    (access : List EffectiveAccess) where
  abbrev predicate_holds : FilterPredicate Date → Bool
  predicate_holds (has_permission required) = access_contains access required
  predicate_holds p = database p

  -- The truth of an expression, from the truth of its predicates.
  unfoldable mutual
    pub holds : FilterExpression Date → Bool
    holds (predicate p) = predicate_holds p
    holds (negate inner) = not (holds inner)
    holds (all children) = all_hold children
    holds (any children) = any_holds children

    all_hold : FilterExpressions Date → Bool
    all_hold nil = true
    all_hold (cons child children) = holds child && all_hold children

    any_holds : FilterExpressions Date → Bool
    any_holds nil = false
    any_holds (cons child children) = holds child || any_holds children

  -- The database's answer for a predicate: none for a permission, which policy answers.
  abbrev answer_of : FilterPredicate Date → List Bool
  answer_of (has_permission required) = []
  answer_of p = database p ∷ []

  -- The answers that the database supplies, in depth-first source order.
  unfoldable mutual
    pub answers : FilterExpression Date → List Bool
    answers (predicate p) = answer_of p
    answers (negate inner) = answers inner
    answers (all children) = all_answers children
    answers (any children) = all_answers children

    all_answers : FilterExpressions Date → List Bool
    all_answers nil = []
    all_answers (cons child children) = answers child ++ all_answers children

  predicate_lem :
      (p : FilterPredicate Date) (rest : List Bool)
      → matches_inner (predicate p) access (answer_of p ++ rest) ≡ some (predicate_holds p, rest)
  unfolding matches_inner
  predicate_lem (has_permission required) rest = refl
  predicate_lem _ rest = refl

  -- The evaluation takes the answers of the expression and leaves the others.
  mutual
    unfolding matches_inner holds answers

    inner_lem :
        (e : FilterExpression Date) (rest : List Bool)
        → matches_inner e access (answers e ++ rest) ≡ some (holds e, rest)
    inner_lem (predicate p) rest = predicate_lem p rest
    inner_lem (negate inner) rest = rw (inner_lem inner rest)
    inner_lem (all children) rest = all_lem children true rest
    inner_lem (any children) rest = any_lem children false rest

    all_lem :
        (es : FilterExpressions Date) (b : Bool) (rest : List Bool)
        → all_match es b access (all_answers es ++ rest) ≡ some ((b && all_hold es), rest)
    all_lem nil b rest = ground arith
    all_lem (cons child children) b rest =
        rw
          (
            append_assoc (answers child) (all_answers children) rest,
            inner_lem child (all_answers children ++ rest),
          )
          (all_lem children (b && holds child) rest ∙ ground arith)

    any_lem :
        (es : FilterExpressions Date) (b : Bool) (rest : List Bool)
        → any_match es b access (all_answers es ++ rest) ≡ some ((b || any_holds es), rest)
    any_lem nil b rest = ground arith
    any_lem (cons child children) b rest =
        rw
          (
            append_assoc (answers child) (all_answers children) rest,
            inner_lem child (all_answers children ++ rest),
          )
          (any_lem children (b || holds child) rest ∙ ground arith)

  -- Given the database's answers to the predicates in source order, none for a permission, the evaluation
  -- takes them all and finds the truth of the expression.
  pub matches-holds : (e : FilterExpression Date) → matches e access (answers e) ≡ some (holds e)
  unfolding matches
  matches-holds e =
      ap (λ (l : List Bool). when_used_up (matches_inner e access l)) (sym (append-nil (answers e)))
      ∙ ap when_used_up (inner_lem e [])
