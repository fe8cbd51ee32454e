-- ===== src/Prelude/Lists.antt =====
-- Lists measured by native numbers, and Boolean folds that run in tests.
use Prim.Native.Nat.{ℕ, suc, ◌+◌}
use mathlib.Core.Path.{◌≡◌, refl, subst}
use mathlib.Core.Logic.{◌⊎◌, inl, inr}
use mathlib.Core.Bool.{Bool, true, false, ◌&&◌, ◌||◌}
use mathlib.Core.List.{List, [], ◌∷◌, ◌++◌}
use mathlib.Core.Option.{Option, none, some}
use native.Mathlib.Omega.{arith}
use vicoop_bridge.Prelude.Tests.{if◌then◌else◌}

module _ {ℓ} {A : Type ℓ} where
  abbrev pub length : List A → ℕ
  length [] = 0
  length (x ∷ xs) = suc (length xs)

  -- `xs.filter(p)`
  abbrev pub keep : (A → Bool) → List A → List A
  keep p [] = []
  keep p (x ∷ xs) = let rest = keep p xs in if p x then x ∷ rest else rest

  -- `xs.find(p)`
  abbrev pub find_first : (A → Bool) → List A → Option A
  find_first p [] = none
  find_first p (x ∷ xs) = let rest = find_first p xs in if p x then some x else rest

  abbrev pub exists : (A → Bool) → List A → Bool
  exists p [] = false
  exists p (x ∷ xs) = p x || exists p xs

  abbrev pub forall_in : (A → Bool) → List A → Bool
  forall_in p [] = true
  forall_in p (x ∷ xs) = p x && forall_in p xs

  pub length-append : (xs ys : List A) → length (xs ++ ys) ≡ length xs + length ys
  length-append [] ys = omega arith
  length-append (x ∷ xs) ys = omega (arith, length-append xs ys)

-- The empty type at every level.
pub data Never {ℓ} : Type ℓ where

-- Predicates by recursion, which compute to tuples and sums.
module _ {ℓ} {A : Type ℓ} where
  abbrev pub All {κ} : (A → Type κ) → List A → Type κ
  All P [] = Unit
  All P (x ∷ xs) = P x × All P xs

  abbrev pub Contains : A → List A → Type ℓ
  Contains a [] = Never
  Contains a (x ∷ xs) = (x ≡ a) ⊎ Contains a xs

  abbrev pub IsNodup : List A → Type ℓ
  IsNodup [] = Unit
  IsNodup (x ∷ xs) = (¬ Contains x xs) × IsNodup xs

  pub All-map {κ μ} :
      {P : A → Type κ} {Q : A → Type μ} (xs : List A) → ((x : A) → P x → Q x) → All P xs → All Q xs
  All-map [] f h = tt
  All-map (x ∷ xs) f h = (f x h.0, All-map xs f h.1)

  pub All-contains {κ} : (P : A → Type κ) {a : A} (xs : List A) → All P xs → Contains a xs → P a
  All-contains P [] h c = elim c [ ]
  All-contains P (x ∷ xs) h (inl e) = subst P e h.0
  All-contains P (x ∷ xs) h (inr c) = All-contains P xs h.1 c

  pub All-append {κ} : (P : A → Type κ) (xs ys : List A) → All P xs → All P ys → All P (xs ++ ys)
  All-append P [] ys h k = k
  All-append P (x ∷ xs) ys h k = (h.0, All-append P xs ys h.1 k)

-- The numbers follow each other, and `n` is the one after them.
abbrev pub IsChain : List ℕ → ℕ → Type 0
IsChain [] n = Unit
IsChain (a ∷ rest) n = (a + suc (length rest) ≡ n) × IsChain rest n

-- Both cases of a match on a list may use what it found.
pub list_cases {ℓ κ μ} :
    {A : Type ℓ} {B : Type κ} (Q : B → Type μ) (xs : List A) {d : B} {f : A → List A → B}
    → (xs ≡ [] → Q d)
    → ((x : A) (rest : List A) → xs ≡ x ∷ rest → Q (f x rest))
    → Q (elim xs [ [] ↦ d | x ∷ rest ↦ f x rest ])
list_cases Q [] on_empty on_cons = on_empty refl
list_cases Q (x ∷ rest) on_empty on_cons = on_cons x rest refl
