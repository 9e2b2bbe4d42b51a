-- ===== src/Text/Trim.antt =====
-- Trimmed texts stay as they are.
use silicon_briefcase.Prelude.{
  ℕ, Bool, true, false, ◌≡◌, refl, [], ◌∷◌, inl, inr, arith, Bool-cases, subst, ◌++◌, ◌&&◌, ◌==◌,
}
use silicon_briefcase.Text.{
  Str, trim_start_matches, trim_end_matches, trim_matches, trim, is_whitespace, is_empty, str_eq,
  contains_char,
}

trim_end_idem :
    (p : ℕ → Bool) (s : Str) → trim_end_matches p (trim_end_matches p s) ≡ trim_end_matches p s
unfolding trim_end_matches
trim_end_idem p [] = refl
trim_end_idem p (c ∷ s) = ground (arith, trim_end_idem p s)

-- A text that does not begin with a matching character.
abbrev StartsFree : (ℕ → Bool) → Str → Type 0
StartsFree p [] = Unit
StartsFree p (c ∷ s) = p c ≡ false

trim_start-StartsFree : (p : ℕ → Bool) (s : Str) → StartsFree p (trim_start_matches p s)
unfolding trim_start_matches
trim_start-StartsFree p [] = tt
trim_start-StartsFree p (c ∷ s) = elim (Bool-cases (p c)) [
  | inl m ↦ rw m (trim_start-StartsFree p s)
  | inr n ↦ rw n n
]

trim_start_of_StartsFree : (p : ℕ → Bool) (s : Str) → StartsFree p s → trim_start_matches p s ≡ s
unfolding trim_start_matches
trim_start_of_StartsFree p [] h = refl
trim_start_of_StartsFree p (c ∷ s) h = rw h

trim_end-StartsFree :
    (p : ℕ → Bool) (s : Str) → StartsFree p s → StartsFree p (trim_end_matches p s)
unfolding trim_end_matches
trim_end-StartsFree p [] h = tt
trim_end-StartsFree p (c ∷ s) h = rw h h

trim_matches_idem : (p : ℕ → Bool) (s : Str) → trim_matches p (trim_matches p s) ≡ trim_matches p s
unfolding trim_matches
trim_matches_idem p s =
    let t = trim_start_matches p s in
    rw
      (trim_start_of_StartsFree p (trim_end_matches p t)
        (trim_end-StartsFree p t (trim_start-StartsFree p s)))
      (trim_end_idem p t)

pub trim_idem : (s : Str) → trim (trim s) ≡ trim s
unfolding trim
trim_idem s = trim_matches_idem is_whitespace s

pub str_eq_refl : (s : Str) → str_eq s s ≡ true
unfolding str_eq
str_eq_refl [] = refl
str_eq_refl (c ∷ s) = ground (arith, str_eq_refl s)

pub str_eq_sound : (s t : Str) → str_eq s t ≡ true → s ≡ t
unfolding str_eq
str_eq_sound [] [] h = refl
str_eq_sound [] (d ∷ t) h = cc
str_eq_sound (c ∷ s) [] h = cc
str_eq_sound (c ∷ s) (d ∷ t) h = ground (arith, str_eq_sound s t)

-- Neither end of the text matches, so that trimming changes nothing.
abbrev pub Clean : (ℕ → Bool) → Str → Type 0
Clean p s = StartsFree p s × (trim_end_matches p s ≡ s)

pub trim_matches_of_Clean : (p : ℕ → Bool) (s : Str) → Clean p s → trim_matches p s ≡ s
unfolding trim_matches
trim_matches_of_Clean p s (a, b) = rw (trim_start_of_StartsFree p s a) b

trim_matches-Clean : (p : ℕ → Bool) (s : Str) → Clean p (trim_matches p s)
unfolding trim_matches
trim_matches-Clean p s = (
  trim_end-StartsFree p (trim_start_matches p s) (trim_start-StartsFree p s),
  trim_end_idem p (trim_start_matches p s),
)

pub Clean-of_trim : (s : Str) → trim s ≡ s → Clean is_whitespace s
unfolding trim
Clean-of_trim s h = subst (Clean is_whitespace) h (trim_matches-Clean is_whitespace s)

pub trim_of_Clean : (s : Str) → Clean is_whitespace s → trim s ≡ s
unfolding trim
trim_of_Clean s h = trim_matches_of_Clean is_whitespace s h

pub Clean-of_free : (c : ℕ) (s : Str) → contains_char c s ≡ false → Clean (λ d. d == c) s
unfolding contains_char trim_end_matches
Clean-of_free c [] h = (tt, refl)
Clean-of_free c (d ∷ s) h =
    let (a, b) = Clean-of_free c s (ground arith) in (ground arith, ground arith)

and_false : (b : Bool) → (b && false) ≡ false
and_false true = refl
and_false false = refl

pub is_empty-append : (s t : Str) → is_empty t ≡ false → is_empty (s ++ t) ≡ false
is_empty-append [] t h = h
is_empty-append (c ∷ s) t h = refl

pub trim_end-append :
    (p : ℕ → Bool) (s t : Str)
    → is_empty t ≡ false
    → trim_end_matches p t ≡ t
    → trim_end_matches p (s ++ t) ≡ s ++ t
unfolding trim_end_matches
trim_end-append p [] t n h = h
trim_end-append p (c ∷ s) t n h =
    rw (trim_end-append p s t n h, is_empty-append s t n, and_false (p c))

-- Two clean texts, neither empty, with a character between them.
pub Clean-append :
    (p : ℕ → Bool) (s t : Str) (c : ℕ)
    → is_empty s ≡ false
    → Clean p s
    → is_empty t ≡ false
    → Clean p t
    → Clean p (s ++ c ∷ t)
Clean-append p [] t c e a n b = absurd (cc)
Clean-append p (d ∷ s) t c e a n b =
    (a.0, trim_end-append p (d ∷ s) (c ∷ t) refl (trim_end-append p (c ∷ []) t n b.1))
