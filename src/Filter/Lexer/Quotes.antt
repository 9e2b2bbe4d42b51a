-- ===== src/Filter/Lexer/Quotes.antt =====
-- How quotes are read.
use mathlib.Core.List.{append_assoc, append-nil}
use silicon_briefcase.Prelude.{
  ℕ, ◌≤◌, Bool, true, false, not, ◌&&◌, ◌≡◌, ◌≢◌, refl, ap, ◌∙◌, List, [], ◌∷◌, ◌++◌, map, none,
  some, Result, ok, err, map_ok, arith, ◌==◌, All, Bool-cases, inl, inr, ==_refl, le→leb,
}
use silicon_briefcase.Text.{
  Str, trim, is_whitespace, byte_len, contains_char, split_once, to_ascii_lowercase, str_eq, codes,
  ends_with_char, drop_last, len_utf8, trim_end_matches,
}
use silicon_briefcase.Text.Trim.{str_eq_sound, is_empty-append, trim_of_Clean, trim_end-append}
use silicon_briefcase.Filter.Lexer.{
  FilterError, unterminated_quote, Token, term, quote_char, double_quote_char, unquote, quoted_by,
  word_token, Mode, between, in_word, lex_step, lex, tokenize,
}

-- A character that stays in a word: no white space, quote or parenthesis.
abbrev pub stays : ℕ → Bool
stays c =
    not (is_whitespace c)
    && not (c == quote_char)
    && not (c == double_quote_char)
    && not (c == b'(')
    && not (c == b')')

abbrev Stays : Str → Type 0
Stays = All (λ c. stays c ≡ true)

map_ok_same : (r : Result (List Token) FilterError) → map_ok (λ tokens. [] ++ tokens) r ≡ r
map_ok_same (ok a) = refl
map_ok_same (err e) = refl

lex_on : (m n : Mode) (c : ℕ) (s : Str) → lex_step m c ≡ ([], n) → lex m (c ∷ s) ≡ lex n s
unfolding lex
lex_on m n c s h =
    ap (λ (p : List Token × Mode). map_ok (λ tokens. p.0 ++ tokens) (lex p.1 s)) h
    ∙ map_ok_same (lex n s)

word_stays :
    (raw : Str) (c : ℕ)
    → stays c ≡ true
    → lex_step (in_word raw none) c ≡ ([], in_word (raw ++ c ∷ []) none)
word_stays raw c h = ground arith

lex-Stays :
    (raw w t : Str) → Stays w → lex (in_word raw none) (w ++ t) ≡ lex (in_word (raw ++ w) none) t
lex-Stays raw [] t h = rw append-nil
lex-Stays raw (c ∷ w) t (h, hs) =
    lex_on (in_word raw none) (in_word (raw ++ c ∷ []) none) c (w ++ t) (word_stays raw c h)
    ∙ lex-Stays (raw ++ c ∷ []) w t hs
    ∙ ap (λ (x : Str). lex (in_word x none) t) (append_assoc raw (c ∷ []) w)

lex-quoted :
    (raw v t : Str) (q : ℕ)
    → contains_char q v ≡ false
    → lex (in_word raw (some q)) (v ++ t) ≡ lex (in_word (raw ++ v) (some q)) t
unfolding contains_char
lex-quoted raw [] t q h = rw append-nil
lex-quoted raw (c ∷ v) t q h =
    lex_on (in_word raw (some q)) (in_word (raw ++ c ∷ []) (some q)) c (v ++ t) (ground arith)
    ∙ lex-quoted (raw ++ c ∷ []) v t q (ground arith)
    ∙ ap (λ (x : Str). lex (in_word x (some q)) t) (append_assoc raw (c ∷ []) v)

-- A word without white space, quotes or parentheses, put between single quotes and standing alone, is
-- refused as an unterminated quote: the leading quote opens nothing, and the closing one does.
pub tokenize-leading_quote :
    (w : Str) → Stays w → tokenize (quote_char ∷ w ++ quote_char ∷ []) ≡ err unterminated_quote
unfolding tokenize is_whitespace
tokenize-leading_quote w h =
    lex_on between (in_word (quote_char ∷ []) none) quote_char (w ++ quote_char ∷ []) refl
    ∙ lex-Stays (quote_char ∷ []) w (quote_char ∷ []) h
    ∙ lex_on (in_word (quote_char ∷ w) none)
        (in_word ((quote_char ∷ w) ++ quote_char ∷ []) (some quote_char)) quote_char [] refl
    ∙ unfold lex in refl

contains-append : (c : ℕ) (s t : Str) → contains_char c (s ++ c ∷ t) ≡ true
unfolding contains_char
contains-append c [] t = ground arith
contains-append c (d ∷ s) t = ground (arith, contains-append c s t)

colon_lowered :
    (s : Str) → contains_char b':' s ≡ true → contains_char b':' (map to_ascii_lowercase s) ≡ true
unfolding contains_char to_ascii_lowercase
colon_lowered [] h = cc
colon_lowered (c ∷ s) h = ground (arith, colon_lowered s)

-- A word with a colon is none of the operator words.
not_operator :
    (s word : Str)
    → contains_char b':' s ≡ true
    → contains_char b':' word ≡ false
    → str_eq (map to_ascii_lowercase s) word ≡ false
not_operator s word h n = elim (Bool-cases (str_eq (map to_ascii_lowercase s) word)) [
  | inr f ↦ f
  | inl t ↦ absurd (
      cc (
        colon_lowered s h,
        n,
        ap (contains_char b':') (str_eq_sound (map to_ascii_lowercase s) word t),
      ))
]

no_colon :
    (contains_char b':' (codes "or") ≡ false)
    × (contains_char b':' (codes "and") ≡ false)
    × (contains_char b':' (codes "not") ≡ false)
unfolding contains_char
no_colon = (refl, refl, refl)

colon_stays : stays b':' ≡ true
unfolding is_whitespace
colon_stays = refl

first_step : (k : ℕ) → stays k ≡ true → k ≢ b'-' → lex_step between k ≡ ([], in_word (k ∷ []) none)
first_step k h d = ground arith

lex_last : (raw : Str) → lex (in_word raw none) [] ≡ ok (word_token raw ∷ [])
unfolding lex
lex_last raw = refl

split_once-append :
    (c : ℕ) (s t : Str) → contains_char c s ≡ false → split_once c (s ++ c ∷ t) ≡ some (s, t)
unfolding split_once contains_char
split_once-append c [] t h = rw (==_refl c)
split_once-append c (d ∷ s) t h = ground (arith, split_once-append c s t)

drop_last-append : (s : Str) (c : ℕ) → drop_last (s ++ c ∷ []) ≡ s
unfolding drop_last
drop_last-append [] c = refl
drop_last-append (d ∷ s) c =
    rw (is_empty-append s (c ∷ []) refl) (ap (λ (x : Str). d ∷ x) (drop_last-append s c))

ends-append : (s : Str) (c : ℕ) → ends_with_char c (s ++ c ∷ []) ≡ true
unfolding ends_with_char
ends-append [] c = ==_refl c
ends-append (d ∷ s) c = rw (is_empty-append s (c ∷ []) refl) (ends-append s c)

byte_len-append_pos : (s : Str) (c : ℕ) → 1 ≤ byte_len (s ++ c ∷ [])
unfolding byte_len len_utf8
byte_len-append_pos [] c = ground arith
byte_len-append_pos (d ∷ s) c = omega (arith, byte_len-append_pos s c)

abbrev in_quotes : Str → Str
in_quotes v = quote_char ∷ (v ++ quote_char ∷ [])

in_quotes-trim : (v : Str) → trim (in_quotes v) ≡ in_quotes v
unfolding is_whitespace trim_end_matches
in_quotes-trim v =
    trim_of_Clean (in_quotes v)
      (refl, trim_end-append is_whitespace (quote_char ∷ v) (quote_char ∷ []) refl refl)

quoted_by_quote : (v : Str) → quoted_by quote_char (in_quotes v) ≡ true
unfolding byte_len len_utf8
quoted_by_quote v =
    rw (le→leb 2 (byte_len (in_quotes v)) (omega (arith, byte_len-append_pos v quote_char)))
      (ends-append (quote_char ∷ v) quote_char)

unquote_lem : (v : Str) → unquote (in_quotes v) ≡ v
unfolding unquote
unquote_lem v = rw (in_quotes-trim v) (rw (quoted_by_quote v) (drop_last-append v quote_char))

word_token_lem :
    (k : ℕ) (key v : Str)
    → contains_char b':' (k ∷ key) ≡ false
    → word_token ((k ∷ key) ++ b':' ∷ in_quotes v)
      ≡ term (some (map to_ascii_lowercase (k ∷ key))) v
unfolding word_token
word_token_lem k key v c =
    let raw = (k ∷ key) ++ b':' ∷ in_quotes v in
    let colon = contains-append b':' (k ∷ key) (in_quotes v) in
    rw
      (
        not_operator raw (codes "or") colon no_colon.0,
        not_operator raw (codes "and") colon no_colon.1,
        not_operator raw (codes "not") colon no_colon.2,
      )
      (rw (split_once-append b':' (k ∷ key) (in_quotes v) c) (rw (unquote_lem v)))

-- After a key that holds no white space, quote, parenthesis or colon and begins with no `-`, a value in
-- single quotes is read whole: whatever it holds besides single quotes, spaces, parentheses and operators
-- included, it becomes the value of one term, under the key in lower case.
pub tokenize-quoted_value :
    (k : ℕ) (key value : Str)
    → Stays (k ∷ key)
    → k ≢ b'-'
    → contains_char b':' (k ∷ key) ≡ false
    → contains_char quote_char value ≡ false
    → tokenize ((k ∷ key) ++ b':' ∷ quote_char ∷ (value ++ quote_char ∷ []))
      ≡ ok (term (some (map to_ascii_lowercase (k ∷ key))) value ∷ [])
unfolding tokenize
tokenize-quoted_value k key value (h, hs) d c q =
    let w0 = k ∷ key in
    let w1 = w0 ++ b':' ∷ [] in
    let w2 = w1 ++ quote_char ∷ [] in
    let whole : (w2 ++ value) ++ quote_char ∷ [] ≡ w0 ++ b':' ∷ in_quotes value =
      simp append_assoc in
    lex_on between (in_word (k ∷ []) none) k (key ++ b':' ∷ in_quotes value) (first_step k h d)
    ∙ lex-Stays (k ∷ []) key (b':' ∷ in_quotes value) hs
    ∙ lex_on (in_word w0 none) (in_word w1 none) b':' (in_quotes value)
        (word_stays w0 b':' colon_stays)
    ∙ lex_on (in_word w1 none) (in_word w2 (some quote_char)) quote_char (value ++ quote_char ∷ [])
        refl
    ∙ lex-quoted w2 value (quote_char ∷ []) quote_char q
    ∙ lex_on (in_word (w2 ++ value) (some quote_char))
        (in_word ((w2 ++ value) ++ quote_char ∷ []) none) quote_char [] refl
    ∙ lex_last ((w2 ++ value) ++ quote_char ∷ [])
    ∙ ap (λ (r : Str). ok (word_token r ∷ [])) whole
    ∙ ap (λ (t : Token). ok (t ∷ [])) (word_token_lem k key value c)
