-- ===== src/Identity/Account/Circle.antt =====
-- Custodian circles divide the accounts (`same_circle`, `is_custodian_of`).
use silicon_briefcase.Prelude.{
  Bool, true, false, ◌≡◌, ◌≢◌, refl, sym, ap, ◌∙◌, Option, none, some, arith, Bool-cases, ◌⊎◌,
  subst, inl, inr, if◌then◌else◌,
}
use silicon_briefcase.Text.{str_eq}
use silicon_briefcase.Text.Trim.{str_eq_refl, str_eq_sound}
use silicon_briefcase.Identity.Reference.{carbon, silicon, kind_eq}
use silicon_briefcase.Identity.Account.{
  AccountUuid, CustodyFacts, anchor, same_anchor, same_circle, is_custodian_of, anchor_of,
}

-- Two accounts are in one circle exactly when they are one account, or have one anchor.
abbrev Related : CustodyFacts → CustodyFacts → Type 0
Related l r = (l.uuid ≡ r.uuid) ⊎ ((a : AccountUuid) × (anchor l ≡ some a) × (anchor r ≡ some a))

same_anchor_sound :
    (x y : Option AccountUuid)
    → same_anchor x y ≡ true
    → (a : AccountUuid) × (x ≡ some a) × (y ≡ some a)
same_anchor_sound (some a) (some b) h = (a, refl, ap some (sym (str_eq_sound a b h)))
same_anchor_sound (some a) none h = absurd (cc)
same_anchor_sound none y h = absurd (cc)

Related-of_same : (l r : CustodyFacts) → same_circle l r ≡ true → Related l r
unfolding same_circle
Related-of_same l r h = elim (Bool-cases (str_eq l.uuid r.uuid)) [
  | inl e ↦ inl (str_eq_sound l.uuid r.uuid e)
  | inr n ↦ inr (same_anchor_sound (anchor l) (anchor r) (rw n at h))
]

if_true : (b : Bool) → (if b then true else true) ≡ true
if_true true = refl
if_true false = refl

same_of_Related : (l r : CustodyFacts) → Related l r → same_circle l r ≡ true
unfolding same_circle
same_of_Related l r (inl e) = rw (ap (str_eq l.uuid) (sym e) ∙ str_eq_refl l.uuid)
same_of_Related l r (inr (a, p, q)) =
    rw (p, q) (rw (str_eq_refl a) (if_true (str_eq l.uuid r.uuid)))

-- A directory that gives each account its facts.
module _ (facts : AccountUuid → CustodyFacts) (keyed : (u : AccountUuid) → (facts u).uuid ≡ u) where
  Related-trans :
      (a b c : AccountUuid)
      → Related (facts a) (facts b)
      → Related (facts b) (facts c)
      → Related (facts a) (facts c)
  Related-trans a b c (inl e) q =
      subst (λ u. Related (facts u) (facts c)) (sym (keyed b) ∙ sym e ∙ keyed a) q
  Related-trans a b c (inr p) (inl e) =
      subst (λ u. Related (facts a) (facts u)) (sym (keyed b) ∙ e ∙ keyed c) (inr p)
  Related-trans a b c (inr (x, p, q)) (inr (y, r, s)) = inr (x, p, s ∙ sym r ∙ q)

  -- Among the accounts of one directory, circles are disjoint: two accounts that are each in the circle
  -- of a third one are in one circle.
  pub same_circle-transitive :
      (a b c : AccountUuid)
      → same_circle (facts a) (facts b) ≡ true
      → same_circle (facts b) (facts c) ≡ true
      → same_circle (facts a) (facts c) ≡ true
  same_circle-transitive a b c h k = same_of_Related (facts a) (facts c) (
      Related-trans a b c (Related-of_same (facts a) (facts b) h)
        (Related-of_same (facts b) (facts c) k))

-- A Silicon whose custodian is unknown.
abbrev pub IsStray : CustodyFacts → Type 0
IsStray facts = (facts.kind ≡ silicon) × (facts.custodian ≡ none)

unrelated :
    (l r : CustodyFacts)
    → l.uuid ≢ r.uuid
    → ((l.kind ≡ carbon) × (r.kind ≡ carbon)) ⊎ (IsStray l ⊎ IsStray r)
    → ¬ Related l r
unfolding anchor
unrelated l r n h (inl e) = n e
unrelated l r n (inl (a, b)) (inr (x, p, q)) =
    n (cc (ap (λ k. anchor_of k l.uuid l.custodian) a, ap (λ k. anchor_of k r.uuid r.custodian) b))
unrelated l r n (inr (inl (a, b))) (inr (x, p, q)) = cc (ap (λ k. anchor_of k l.uuid l.custodian) a)
unrelated l r n (inr (inr (a, b))) (inr (x, p, q)) = cc (ap (λ k. anchor_of k r.uuid r.custodian) a)

-- Two different Carbons are never in one circle, and a Silicon whose custodian is unknown is in one
-- with no other account, whichever of the two arguments it is.
pub same_circle-separates :
    (l r : CustodyFacts)
    → l.uuid ≢ r.uuid
    → ((l.kind ≡ carbon) × (r.kind ≡ carbon)) ⊎ (IsStray l ⊎ IsStray r)
    → same_circle l r ≡ false
unfolding anchor
same_circle-separates l r n h = elim (Bool-cases (same_circle l r)) [
  | inr f ↦ f
  | inl t ↦ absurd (unrelated l r n h (Related-of_same l r t))
]

-- The custodian of a Silicon, as a Carbon, is in its circle.
pub is_custodian_of-same_circle :
    (carbon_facts silicon_facts : CustodyFacts)
    → carbon_facts.kind ≡ carbon
    → is_custodian_of carbon_facts.uuid silicon_facts ≡ true
    → same_circle carbon_facts silicon_facts ≡ true
unfolding is_custodian_of anchor kind_eq
is_custodian_of-same_circle c s k h =
    let (a, p, q) = same_anchor_sound s.custodian (some c.uuid) (ground arith) in
    let w : s.kind ≡ silicon = ground arith in
    same_of_Related c s (
      inr (
        c.uuid,
        ap (λ t. anchor_of t c.uuid c.custodian) k,
        ap (λ t. anchor_of t s.uuid s.custodian) w ∙ p ∙ sym q,
      ))
