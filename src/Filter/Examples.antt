-- ===== src/Filter/Examples.antt =====
-- Filters as a caller writes them (src/domain/filter.rs), with days as numbers.
use silicon_briefcase.Prelude.{
  ℕ, ◌≡◌, Bool, false, refl, List, [], ◌∷◌, Option, none, some, Result, ok, err, ltb,
}
use silicon_briefcase.Text.{
  Str, codes, to_ascii_lowercase, ends_with_char, trim_matches, contains_char, byte_len, len_utf8,
  is_whitespace, str_eq, split_once, trim, parse_u16, parse_digits, is_ascii_digit,
}
use silicon_briefcase.Permission.Rights.{EffectiveAccess}
use silicon_briefcase.Filter.Expression.{
  FilterPredicate, has_permission, contains, FilterExpression, predicate, negate, any, nil, cons,
  matches,
}
use silicon_briefcase.Filter.Expression.Meaning.{holds, answers, matches-holds}
use silicon_briefcase.Filter.Lexer.{FilterError, unterminated_quote, term, tokenize, word_token}
use silicon_briefcase.Filter.Lexer.Quotes.{tokenize-leading_quote, tokenize-quoted_value}
use silicon_briefcase.Filter.State.{
  TakeEnd, SortOrder, add_checked, advance, modifier, take_count, set_take,
}
use silicon_briefcase.Filter.Conditions.{parse_term}
use silicon_briefcase.Filter.Parser.{FilterQuery, parse, parse_query, parse_any_loop}
use silicon_briefcase.Filter.Parser.Fuel.{IsModest, parse-total, parse-IsModest}
use silicon_briefcase.Filter.Terms.{glob}
use silicon_briefcase.Filter.Glob.{prefix_pattern}
use silicon_briefcase.Filter.Glob.Pieces.{literal, pieces, prefix_pattern-percent}

-- Days are written as one letter, `a` the first.
abbrev parse_letter : Str → Option ℕ
parse_letter (c ∷ []) = some c
parse_letter s = none

-- "cat or not permission:read"
abbrev expression : FilterExpression ℕ
expression = any (
    cons (predicate (contains (codes "cat")))
      (cons (negate (predicate (has_permission EffectiveAccess.read))) nil))

abbrev nothing_found : FilterPredicate ℕ → Bool
nothing_found p = false

abbrev readable : List EffectiveAccess
readable = EffectiveAccess.read ∷ []

matches-holds_example :
    matches expression readable (answers nothing_found readable expression)
    ≡ some (holds nothing_found readable expression)
matches-holds_example = matches-holds nothing_found readable expression

tokenize-leading_quote_example : tokenize (codes "'apple'") ≡ err unterminated_quote
unfolding contains_char is_whitespace
tokenize-leading_quote_example =
    tokenize-leading_quote (codes "apple") (refl, (refl, (refl, (refl, (refl, tt)))))

tokenize-quoted_value_example :
    tokenize (codes "Name:'a (b) or c'") ≡ ok (term (some (codes "name")) (codes "a (b) or c") ∷ [])
unfolding contains_char is_whitespace to_ascii_lowercase
tokenize-quoted_value_example =
    tokenize-quoted_value b'N' (codes "ame") (codes "a (b) or c") (refl, (refl, (refl, (refl, tt))))
      (λ e. cc e) refl refl

abbrev input : Str
input = codes "cat last:5"

abbrev query : FilterQuery ℕ
query = record {
  expression = some (predicate (contains (codes "cat")));
  sort = SortOrder.newest;
  take = some (record { end = TakeEnd.newest; count = 5 });
}

parse-total_example :
    (r : Result (FilterQuery ℕ) FilterError) × (parse parse_letter ltb input ≡ some r)
parse-total_example = parse-total parse_letter ltb input

parse-IsModest_example : IsModest parse_letter ltb query
unfolding parse byte_len len_utf8 tokenize is_whitespace parse_query parse_any_loop word_token
    str_eq to_ascii_lowercase split_once parse_term add_checked glob trim advance modifier
    take_count set_take parse_u16 parse_digits is_ascii_digit
parse-IsModest_example = parse-IsModest parse_letter ltb input query refl

prefix_pattern-percent_example :
    pieces false (prefix_pattern (codes "/a/5%/"))
    ≡ literal b'a' ∷ literal b'/' ∷ literal b'5' ∷ literal b'%' ∷ []
unfolding ends_with_char trim_matches
prefix_pattern-percent_example = prefix_pattern-percent (codes "/a/5%/") refl
