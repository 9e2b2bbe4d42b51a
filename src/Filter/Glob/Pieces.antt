-- ===== src/Filter/Glob/Pieces.antt =====
-- What the patterns of a term stand for.
use mathlib.Core.List.{append_assoc, append-nil}
use silicon_briefcase.Prelude.{
  ℕ, Bool, true, false, subst, ◌≡◌, refl, sym, ap, ◌∙◌, List, [], ◌∷◌, ◌++◌, map, arith, ◌==◌,
  if◌then◌else◌,
}
use silicon_briefcase.Text.{Str, trim_matches, starts_with_char, ends_with_char}
use silicon_briefcase.Filter.Expression.{GlobTerm}
use silicon_briefcase.Filter.Glob.{escaped_char, escaped, like_pattern, prefix_pattern}

-- A piece of a `LIKE` pattern, with the backslash as its escape.
pub data Piece : Type 0 where
  any_text any_char : Piece
  literal : ℕ → Piece

abbrev plain_piece : ℕ → Piece
plain_piece c = if c == b'%' then any_text else if c == b'_' then any_char else literal c

-- The pieces of a pattern, the flag saying that a backslash came before.
unfoldable pub pieces : Bool → Str → List Piece
pieces pending [] = []
pieces true (c ∷ s) = literal c ∷ pieces false s
pieces false (c ∷ s) =
    let quoted = pieces true s in
    let rest = pieces false s in if c == b'\\' then quoted else plain_piece c ∷ rest

-- A character of a term: the star is any text, the others are themselves.
abbrev term_piece : ℕ → Piece
term_piece c = if c == b'*' then any_text else literal c

pieces-escaped_char :
    (c : ℕ) (t : Str) → pieces false (escaped_char c ++ t) ≡ term_piece c ∷ pieces false t
unfolding pieces
pieces-escaped_char c t = ground arith

pieces-escaped : (s t : Str) → pieces false (escaped s ++ t) ≡ map term_piece s ++ pieces false t
unfolding escaped
pieces-escaped [] t = refl
pieces-escaped (c ∷ s) t =
    ap (pieces false) (append_assoc (escaped_char c) (escaped s) t)
    ∙ pieces-escaped_char c (escaped s ++ t)
    ∙ ap (λ l. term_piece c ∷ l) (pieces-escaped s t)

abbrev wild_unless : Bool → List Piece
wild_unless b = if b then [] else any_text ∷ []

abbrev percent_unless : Bool → Str
percent_unless b = if b then [] else b'%' ∷ []

-- The pattern of a term stands for its characters as they are, the star as any text, with any text
-- before and after them unless the term has a star there.
pub like_pattern-pieces :
    (g : GlobTerm)
    → pieces false (like_pattern g)
      ≡ wild_unless (starts_with_char b'*' g)
        ++ map term_piece g
        ++ wild_unless (ends_with_char b'*' g)
unfolding like_pattern pieces
like_pattern-pieces g = framed (starts_with_char b'*' g) (ends_with_char b'*' g)
  where
    after : (e : Bool) → pieces false (percent_unless e) ≡ wild_unless e
    after true = refl
    after false = refl

    framed :
        (s e : Bool)
        → pieces false (percent_unless s ++ escaped g ++ percent_unless e)
          ≡ wild_unless s ++ map term_piece g ++ wild_unless e
    framed true e = pieces-escaped g (percent_unless e) ∙ ap (λ l. map term_piece g ++ l) (after e)
    framed false e =
        ap (λ l. any_text ∷ l)
          (pieces-escaped g (percent_unless e) ∙ ap (λ l. map term_piece g ++ l) (after e))

ends-append : (k : ℕ) (x y : Str) → ends_with_char k y ≡ true → ends_with_char k (x ++ y) ≡ true
unfolding ends_with_char
ends-append k [] y h = h
ends-append k (c ∷ []) [] h = absurd (cc)
ends-append k (c ∷ []) (d ∷ y) h = h
ends-append k (c ∷ d ∷ x) y h = ends-append k (d ∷ x) y h

ends-escaped_char : (c : ℕ) → (c == b'%') ≡ true → ends_with_char b'%' (escaped_char c) ≡ true
unfolding ends_with_char
ends-escaped_char c h = ground arith

ends-escaped : (s : Str) → ends_with_char b'%' s ≡ true → ends_with_char b'%' (escaped s) ≡ true
unfolding ends_with_char escaped
ends-escaped [] h = h
ends-escaped (c ∷ []) h =
    subst (λ l. ends_with_char b'%' l ≡ true) (sym (append-nil (escaped_char c)))
      (ends-escaped_char c h)
ends-escaped (c ∷ d ∷ s) h =
    ends-append b'%' (escaped_char c) (escaped (d ∷ s)) (ends-escaped (d ∷ s) h)

-- A location that ends, its slashes trimmed, in a percent sign has a pattern with nothing after its own
-- characters: it is no prefix pattern, because the escaped percent sign is taken for a wildcard.
pub prefix_pattern-percent :
    (g : GlobTerm)
    → ends_with_char b'%' (trim_matches (λ c. c == b'/') g) ≡ true
    → pieces false (prefix_pattern g) ≡ map term_piece (trim_matches (λ c. c == b'/') g)
unfolding prefix_pattern pieces
prefix_pattern-percent g h =
    let t = trim_matches (λ c. c == b'/') g in
    rw (ends-escaped t h) (
      ap (pieces false) (sym (append-nil (escaped t)))
      ∙ pieces-escaped t []
      ∙ append-nil (map term_piece t))
