-- ===== src/Main/Args.antt =====
-- The arguments of the example program (`matches`, the loop of `main`).
use hashtable_linux_kernel.Common.{
  ℕ, ◌≡◌, ◌≢◌, ◌↔◌, refl, true, ◌==◌, if◌then◌else◌, Bool-cases, inl, inr, List, [], ◌∷◌, ◌++◌,
  arith,
}
use hashtable_linux_kernel.Main.{matches_from, matches, is_help, Config, Outcome, usage, runs}

matches_from-prefix : (prefix rest : List ℕ) → matches_from prefix (prefix ++ rest) ≡ true
unfolding matches_from
matches_from-prefix [] [] = refl
matches_from-prefix [] (c ∷ rest) = refl
matches_from-prefix (p ∷ prefix) rest =
    let e : (p == p) ≡ true = ground arith in rw e (matches_from-prefix prefix rest)

matches_from-split :
    (prefix string : List ℕ)
    → matches_from prefix string ≡ true
    → (rest : List ℕ) × (string ≡ prefix ++ rest)
unfolding matches_from
matches_from-split [] [] e = ([], refl)
matches_from-split [] (c ∷ string) e = (c ∷ string, refl)
matches_from-split (p ∷ prefix) [] e = absurd (ground (arith, e))
matches_from-split (p ∷ prefix) (c ∷ string) e = elim (Bool-cases (p == c)) [
  | inl t ↦
      let (rest, s) = matches_from-split prefix string (ground (arith, e, t)) in
      let same : c ≡ p = ground (arith, t) in (rest, rw (same, s) refl)
  | inr f ↦ absurd (ground (arith, e, f))
]

-- `matches` tells whether a string that is not empty is the beginning of another.
pub matches-prefix :
    (prefix string : List ℕ)
    → (matches prefix string ≡ true)
      ↔ ((prefix ≢ []) × ((rest : List ℕ) × (string ≡ prefix ++ rest)))
unfolding matches
matches-prefix [] string = (λ e. absurd (ground (arith, e)), λ h. absurd (h.0 refl))
matches-prefix (p ∷ prefix) string = (
  λ e. (λ n. ground (arith, n), matches_from-split (p ∷ prefix) string e),
  λ h. rw h.1.1 (matches_from-prefix (p ∷ prefix) h.1.0),
)

module _ {Float : Type 0} (atoi : List ℕ → ℕ) (atof : List ℕ → Float) where
  -- The arguments in groups of three: the bits, the density, the frequency; a group may end early.
  abbrev pub groups : List (List ℕ) → Config Float → Outcome Float
  groups [] c = runs c
  groups (a ∷ []) c = if is_help a then usage else runs (record c { bits = atoi a })
  groups (a ∷ d ∷ []) c =
      if is_help a then usage else runs (record c { bits = atoi a; density = atof d })
  groups (a ∷ d ∷ f ∷ args) c =
      if is_help a
      then usage
      else groups args (record { bits = atoi a; density = atof d; print_freq_density = atof f })
