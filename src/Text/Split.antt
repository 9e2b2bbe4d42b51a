-- ===== src/Text/Split.antt =====
-- Splitting a text that was joined gives the parts back.
use mathlib.Core.List.{append_assoc}
use silicon_briefcase.Prelude.{
  ℕ, false, ◌≡◌, refl, sym, ap, ◌∙◌, List, [], ◌∷◌, ◌++◌, none, some, arith, ◌==◌, ==_refl, All,
  Bool-cases, inl, inr,
}
use silicon_briefcase.Text.{Str, contains_char, split, split_cons, join_with, rsplit_once}

abbrev pub Free : ℕ → Str → Type 0
Free sep s = contains_char sep s ≡ false

pub split-Free : (sep : ℕ) (s : Str) → Free sep s → split sep s ≡ s ∷ []
unfolding split contains_char
split-Free sep [] h = refl
split-Free sep (c ∷ s) h = ground (arith, split-Free sep s)

split-append : (sep : ℕ) (s t : Str) → Free sep s → split sep (s ++ sep ∷ t) ≡ s ∷ split sep t
unfolding split contains_char
split-append sep [] t h = rw (==_refl sep)
split-append sep (c ∷ s) t h = ground (arith, split-append sep s t)

-- The parts of a joined text, where no part holds the separator.
pub split-join_with :
    (sep : ℕ) (p : Str) (ps : List Str)
    → All (Free sep) (p ∷ ps)
    → split sep (join_with sep (p ∷ ps)) ≡ p ∷ ps
unfolding join_with
split-join_with sep p [] h = split-Free sep p h.0
split-join_with sep p (q ∷ qs) h =
    split-append sep p (join_with sep (q ∷ qs)) h.0 ∙ ap (λ x. p ∷ x) (split-join_with sep q qs h.1)

pub rsplit-Free : (sep : ℕ) (s : Str) → Free sep s → rsplit_once sep s ≡ none
unfolding rsplit_once contains_char
rsplit-Free sep [] h = refl
rsplit-Free sep (c ∷ s) h = ground (arith, rsplit-Free sep s)

pub rsplit_once-append :
    (sep : ℕ) (s t : Str) → Free sep t → rsplit_once sep (s ++ sep ∷ t) ≡ some (s, t)
unfolding rsplit_once
rsplit_once-append sep [] t h = rw (rsplit-Free sep t h, ==_refl sep)
rsplit_once-append sep (c ∷ s) t h = rw (rsplit_once-append sep s t h)

-- One part more at the end.
pub join_with-snoc :
    (sep : ℕ) (p : Str) (ps : List Str) (q : Str)
    → join_with sep ((p ∷ ps) ++ q ∷ []) ≡ join_with sep (p ∷ ps) ++ sep ∷ q
unfolding join_with
join_with-snoc sep p [] q = refl
join_with-snoc sep p (r ∷ rs) q =
    ap (λ (x : Str). p ++ sep ∷ x) (join_with-snoc sep r rs q)
    ∙ sym (append_assoc p (sep ∷ join_with sep (r ∷ rs)) (sep ∷ q))

split_cons-eq : (c : ℕ) (l : List Str) → (p : Str) × (ps : List Str) × (split_cons c l ≡ p ∷ ps)
split_cons-eq c [] = (c ∷ [], [], refl)
split_cons-eq c (p ∷ ps) = (c ∷ p, ps, refl)

-- There is always a first part.
pub split-eq-cons : (sep : ℕ) (s : Str) → (p : Str) × (ps : List Str) × (split sep s ≡ p ∷ ps)
unfolding split
split-eq-cons sep [] = ([], [], refl)
split-eq-cons sep (c ∷ s) = elim (Bool-cases (c == sep)) [
  | inl e ↦ ([], split sep s, rw e)
  | inr n ↦ let (p, ps, e) = split_cons-eq c (split sep s) in (p, ps, rw n e)
]
