-- ===== src/Content/Calls/Steps.antt =====
-- What a chain of fallible steps did, from its result.
use silicon_briefcase.Prelude.{◌≡◌, refl, ◌∙◌, sym, ap, Result, ok, err}
use silicon_briefcase.Content.Calls.{Calls, Action, try}

module _ {A B E : Type 0} (step : Action (Result A E)) (next : A → Action (Result B E)) where
  -- The chain from the result of its first step.
  try_from : Calls → Result A E → Calls → Result B E × Calls
  try_from calls result after = try (λ _. (result, after)) next calls

  module _ (calls : Calls) where
    -- A step that was passed.
    abbrev pub Passed : Result B E × Calls → Result A E → Calls → Type 0
    Passed run result after = (a : A) × (result ≡ ok a) × (run ≡ next a after)

    passed :
        (result : Result A E) (after : Calls) {b : B}
        → (try_from calls result after).0 ≡ ok b
        → Passed (try_from calls result after) result after
    unfolding try_from
    passed (ok a) after e = (a, refl, refl)
    passed (err _) after e = absurd (cc)

    -- A chain that succeeds passed its first step.
    pub try-ok :
        {b : B}
        → (try step next calls).0 ≡ ok b
        → Passed (try step next calls) (step calls).0 (step calls).1
    unfolding try_from
    try-ok e = passed (step calls).0 (step calls).1 e

    -- Its first value, and the result of what followed.
    pub try-values :
        {b : B}
        → (try step next calls).0 ≡ ok b
        → (a : A) × ((step calls).0 ≡ ok a) × ((next a (step calls).1).0 ≡ ok b)
    try-values e = let (a, passed, run) = try-ok e in (a, passed, sym (ap (λ r. r.0) run) ∙ e)

    keeps :
        (P : Result B E → Type 0) (Q : Calls → Type 0) (result : Result A E) (after : Calls)
        → Q after
        → ((a : A) → result ≡ ok a → P (next a after).0 → Q (next a after).1)
        → P (try_from calls result after).0
        → Q (try_from calls result after).1
    unfolding try_from
    keeps P Q (ok a) after first rest p = rest a refl p
    keeps P Q (err _) after first rest p = first

    -- What the first step leaves true, and every continuation of it, the chain leaves true.
    pub try-keeps :
        (P : Result B E → Type 0) (Q : Calls → Type 0)
        → Q (step calls).1
        → ((a : A)
            → (step calls).0 ≡ ok a
            → P (next a (step calls).1).0
            → Q (next a (step calls).1).1)
        → P (try step next calls).0
        → Q (try step next calls).1
    unfolding try_from
    try-keeps P Q first rest p = keeps P Q (step calls).0 (step calls).1 first rest p

    resumed :
        (result : Result A E) (after : Calls) {a : A}
        → result ≡ ok a
        → try_from calls result after ≡ next a after
    unfolding try_from
    resumed (ok b) after e = ap (λ r. next r after) (cc)
    resumed (err _) after e = absurd (cc)

    -- A chain goes on from a step that succeeded.
    pub try-of_ok : {a : A} → (step calls).0 ≡ ok a → try step next calls ≡ next a (step calls).1
    unfolding try_from
    try-of_ok e = resumed (step calls).0 (step calls).1 e
