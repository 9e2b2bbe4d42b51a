-- ===== src/Filter/Lexer.antt =====
-- src/domain/filter.rs: the tokens of a filter (`tokenize`, `word_token`, `unquote`).
pub mod Quotes
use silicon_briefcase.Prelude.{
  ℕ, ◌-◌, Bool, true, false, not, ◌&&◌, ◌||◌, List, [], ◌∷◌, ◌++◌, map, Option, none, some, Result,
  ok, err, map_ok, ltb, leb, ◌==◌, if◌then◌else◌,
}
use silicon_briefcase.Text.{
  Str, trim, byte_len, is_empty, is_whitespace, to_ascii_lowercase, str_eq, codes, split_once,
  starts_with_char, ends_with_char, drop_last,
}

pub data FilterError : Type 0 where
  too_long too_many_predicates unterminated_quote unbalanced_parentheses : FilterError
  dangling_operator empty : FilterError
  unknown_key invalid_value misplaced_modifier repeated_modifier : Str → FilterError

pub data Token : Type 0 where
  open_paren close_paren or_word and_word not_word : Token
  term : Option Str → Str → Token

abbrev quote_char : ℕ
quote_char = b'\''

abbrev double_quote_char : ℕ
double_quote_char = b'"'

abbrev drop_first : Str → Str
drop_first [] = []
drop_first (c ∷ s) = s

abbrev quoted_by : ℕ → Str → Bool
quoted_by quote s = leb 2 (byte_len s) && starts_with_char quote s && ends_with_char quote s

unfoldable pub unquote : Str → Str
unquote value =
    let trimmed = trim value in
    if quoted_by quote_char trimmed
    then drop_last (drop_first trimmed)
    else if quoted_by double_quote_char trimmed
    then drop_last (drop_first trimmed)
    else trimmed

abbrev keyed_term : Str → Option (Str × Str) → Token
keyed_term raw none = term none (unquote raw)
keyed_term raw (some (key, value)) =
    if is_empty key
    then term none (unquote raw)
    else term (some (map to_ascii_lowercase key)) (unquote value)

unfoldable pub word_token : Str → Token
unfolding unquote
word_token raw =
    let lowered = map to_ascii_lowercase raw in
    if str_eq lowered (codes "or")
    then or_word
    else if str_eq lowered (codes "and")
    then and_word
    else if str_eq lowered (codes "not")
    then not_word
    else keyed_term raw (split_once b':' raw)

-- Where the two nested loops stand: between tokens, or in a word with its text so far and the quote
-- that is open in it.
pub data Mode : Type 0 where
  between : Mode
  in_word : Str → Option ℕ → Mode

-- A character between tokens: the tokens that it gives at once, and the mode after it.
abbrev between_step : ℕ → List Token × Mode
between_step c =
    if is_whitespace c
    then ([], between)
    else if c == b'('
    then (open_paren ∷ [], between)
    else if c == b')'
    then (close_paren ∷ [], between)
    else if c == b'-'
    then (not_word ∷ [], between)
    else ([], in_word (c ∷ []) none)

-- A character after a word's text `raw`, in the inner loop. Where that loop breaks, the word is a
-- token and the outer loop takes the character.
abbrev word_step : Str → Option ℕ → ℕ → List Token × Mode
word_step raw none c =
    if c == quote_char || c == double_quote_char
    then ([], in_word (raw ++ c ∷ []) (some c))
    else if c == b')' || c == b'(' || is_whitespace c
    then (let (tokens, mode) = between_step c in (word_token raw ∷ tokens, mode))
    else ([], in_word (raw ++ c ∷ []) none)
word_step raw (some opened) c =
    if c == opened
    then ([], in_word (raw ++ c ∷ []) none)
    else ([], in_word (raw ++ c ∷ []) (some opened))

abbrev pub lex_step : Mode → ℕ → List Token × Mode
lex_step between c = between_step c
lex_step (in_word raw quote) c = word_step raw quote c

-- The end of the text.
abbrev lex_end : Mode → Result (List Token) FilterError
lex_end between = ok []
lex_end (in_word raw none) = ok (word_token raw ∷ [])
lex_end (in_word raw (some opened)) = err unterminated_quote

unfoldable pub lex : Mode → Str → Result (List Token) FilterError
lex mode [] = lex_end mode
lex mode (c ∷ s) = map_ok (λ tokens. (lex_step mode c).0 ++ tokens) (lex (lex_step mode c).1 s)

unfoldable pub tokenize : Str → Result (List Token) FilterError
unfolding lex
tokenize input = lex between input
