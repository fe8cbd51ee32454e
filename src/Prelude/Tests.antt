-- ===== src/Prelude/Tests.antt =====
-- Boolean tests on the native numbers, the conditional, and case splits that keep the equation.
use Prim.Native.Nat.{ℕ, compare, Ordering}
use mathlib.Core.Path.{◌≡◌, refl}
use mathlib.Core.Logic.{◌⊎◌, inl, inr}
use mathlib.Core.Bool.{Bool, true, false, ◌&&◌}
use mathlib.Core.Option.{Option, none, some}

abbrev pub ltb : ℕ → ℕ → Bool
ltb a b = elim (compare a b) [ Ordering.lt ↦ true | _ ↦ false ]

abbrev pub leb : ℕ → ℕ → Bool
leb a b = elim (compare a b) [ Ordering.gt ↦ false | _ ↦ true ]

infix 1 if◌then◌else◌
abbrev pub if◌then◌else◌ {ℓ} : {A : Type ℓ} → Bool → A → A → A
if true then x else y = x
if false then x else y = y

pub Bool-cases : (b : Bool) → (b ≡ true) ⊎ (b ≡ false)
Bool-cases true = inl refl
Bool-cases false = inr refl

pub Option-cases {ℓ} : {A : Type ℓ} (o : Option A) → (o ≡ none) ⊎ ((a : A) × (o ≡ some a))
Option-cases none = inl refl
Option-cases (some a) = inr (a, refl)

-- `o !== undefined`
abbrev pub is_some {ℓ} : {A : Type ℓ} → Option A → Bool
is_some none = false
is_some (some a) = true

-- `o ?? d`
abbrev pub get_or {ℓ} : {A : Type ℓ} → Option A → A → A
get_or none d = d
get_or (some a) d = a

-- What holds of both branches holds of the test.
pub if_both {ℓ κ} :
    {B : Type ℓ} (Q : B → Type κ) (c : Bool) {s t : B} → Q s → Q t → Q (if c then s else t)
if_both Q false on_true on_false = on_false
if_both Q true on_true on_false = on_true

-- What holds of both branches holds of a match on an optional value.
pub option_both {ℓ κ μ} :
    {A : Type ℓ} {B : Type κ} (Q : B → Type μ) (o : Option A) {d : B} {f : A → B}
    → Q d
    → ((a : A) → o ≡ some a → Q (f a))
    → Q (elim o [ none ↦ d | some a ↦ f a ])
option_both Q none on_none on_some = on_none
option_both Q (some a) on_none on_some = on_some a refl

-- What holds of the second branch holds of a test that fails.
pub if_else {ℓ κ} :
    {B : Type ℓ} (Q : B → Type κ) (c : Bool) (s : B) {t : B}
    → c ≡ false
    → Q t
    → Q (if c then s else t)
if_else Q c s e h = rw e h

-- A branch may use what its test found.
pub if_cases {ℓ κ} :
    {B : Type ℓ} (Q : B → Type κ) (c : Bool) {s t : B}
    → (c ≡ true → Q s)
    → (c ≡ false → Q t)
    → Q (if c then s else t)
if_cases Q true on_true on_false = on_true refl
if_cases Q false on_true on_false = on_false refl

-- What holds of the result for a value holds of a match on an option that has it.
pub option_at {ℓ κ μ} :
    {A : Type ℓ} {B : Type κ} (Q : B → Type μ) (o : Option A) (d : B) (f : A → B) {a : A}
    → o ≡ some a
    → Q (f a)
    → Q (elim o [ none ↦ d | some a ↦ f a ])
option_at Q o d f e h = rw e h

-- What holds of the first branch holds of a test that passes.
pub if_then {ℓ κ} :
    {B : Type ℓ} (Q : B → Type κ) (c : Bool) {s : B} (t : B)
    → c ≡ true
    → Q s
    → Q (if c then s else t)
if_then Q c t e h = rw e h

-- Both cases of a match on an optional value may use what it found.
pub option_cases {ℓ κ μ} :
    {A : Type ℓ} {B : Type κ} (Q : B → Type μ) (o : Option A) {d : B} {f : A → B}
    → (o ≡ none → Q d)
    → ((a : A) → o ≡ some a → Q (f a))
    → Q (elim o [ none ↦ d | some a ↦ f a ])
option_cases Q none on_none on_some = on_none refl
option_cases Q (some a) on_none on_some = on_some a refl

-- A match that gives a value has found the one that it is made of.
pub option_from {ℓ κ} :
    {A : Type ℓ} {B : Type κ} (o : Option A) (f : A → Option B) (b : B)
    → elim o [ none ↦ none | some a ↦ f a ] ≡ some b
    → (a : A) × (o ≡ some a) × (f a ≡ some b)
option_from none f b h = cc
option_from (some a) f b h = (a, refl, h)

-- A guarded value that is there has passed its guard.
pub if_some {ℓ} :
    {A : Type ℓ} (c : Bool) (a b : A) → (if c then some a else none) ≡ some b → (c ≡ true) × (b ≡ a)
if_some true a b h = (refl, cc)
if_some false a b h = cc

pub if_not {ℓ} :
    {A : Type ℓ} (c : Bool) (o : Option A) (b : A)
    → (if c then none else o) ≡ some b
    → (c ≡ false) × (o ≡ some b)
if_not true o b h = cc
if_not false o b h = (refl, h)

pub and_both : (a b : Bool) → (a && b) ≡ true → (a ≡ true) × (b ≡ true)
and_both true b h = (refl, h)
and_both false b h = cc
