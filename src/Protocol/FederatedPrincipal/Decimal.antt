-- ===== src/Protocol/FederatedPrincipal/Decimal.antt =====
-- The lengths of packages/protocol/src/federated-principal.ts: what is printed of a number is read
-- back as that number.
use vicoop_bridge.Prelude.{
  ℕ, zero, suc, ◌+◌, ◌-◌, ◌*◌, ◌/◌, ◌%◌, ◌≤◌, ◌<◌, ◌≡◌, refl, Bool, true, false, ◌&&◌, [], ◌∷◌,
  ◌++◌, nat_eq, ltb, leb, forall_in, arith, inl, inr, Bool-cases,
}
use vicoop_bridge.Protocol.FederatedPrincipal.{
  Text, is_digit, digits_from, digits, value_from, is_length,
}

value_from-append :
    (acc : ℕ) (s : Text) (c : ℕ) → value_from acc (s ++ c ∷ []) ≡ value_from acc s * 10 + (c - b'0')
value_from-append acc [] c = refl
value_from-append acc (d ∷ s) c = value_from-append (acc * 10 + (d - b'0')) s c

value_from-digits_from : (fuel n : ℕ) → n < fuel → value_from 0 (digits_from fuel n) ≡ n
value_from-digits_from zero n h = absurd (omega arith)
value_from-digits_from (suc fuel) n h = elim (Bool-cases (ltb n 10)) [
  | inl small ↦ rw small (omega arith)
  | inr large ↦
      let le : 10 ≤ n = ground (arith, large) in
      let front = value_from-digits_from fuel (n / 10) (omega (arith, le, h)) in
      rw (large, value_from-append 0 (digits_from fuel (n / 10)) (b'0' + n % 10), front)
        (omega arith)
]

-- The number of a decimal text, but for the sign of its first digit
abbrev pub is_canonical : Text → Bool
is_canonical [] = false
is_canonical (c ∷ s) = leb b'1' c && leb c b'9' && forall_in is_digit s

forall_in-append :
    (s : Text) (c : ℕ)
    → forall_in is_digit s ≡ true
    → is_digit c ≡ true
    → forall_in is_digit (s ++ c ∷ []) ≡ true
forall_in-append [] c h k = ground (arith, k)
forall_in-append (d ∷ s) c h k = ground (arith, h, forall_in-append s c (ground (arith, h)) k)

is_canonical-append :
    (s : Text) (c : ℕ)
    → is_canonical s ≡ true
    → is_digit c ≡ true
    → is_canonical (s ++ c ∷ []) ≡ true
is_canonical-append [] c h k = cc
is_canonical-append (d ∷ s) c h k = ground (arith, h, forall_in-append s c (ground (arith, h)) k)

digits_from-IsCanonical : (fuel n : ℕ) → n < fuel → 0 < n → is_canonical (digits_from fuel n) ≡ true
digits_from-IsCanonical zero n h p = absurd (omega arith)
digits_from-IsCanonical (suc fuel) n h p = elim (Bool-cases (ltb n 10)) [
  | inl small ↦ rw small (ground (arith, small))
  | inr large ↦
      let le : 10 ≤ n = ground (arith, large) in
      rw large (
        is_canonical-append (digits_from fuel (n / 10)) (b'0' + n % 10)
          (digits_from-IsCanonical fuel (n / 10) (omega (arith, le, h)) (omega (arith, le)))
          (ground arith))
]

is_canonical-length : (s : Text) → is_canonical s ≡ true → is_length s ≡ true
is_canonical-length [] h = cc
is_canonical-length (c ∷ s) h = ground (arith, h)

-- A positive number is printed as a length, which is read back as that number.
pub digits-IsLength : (n : ℕ) → 0 < n → is_length (digits n) ≡ true
digits-IsLength n p =
    is_canonical-length (digits n) (digits_from-IsCanonical (suc n) n (omega arith) p)

pub value_from-digits : (n : ℕ) → value_from 0 (digits n) ≡ n
value_from-digits n = value_from-digits_from (suc n) n (omega arith)

forall_in-canonical : (s : Text) → is_canonical s ≡ true → forall_in is_digit s ≡ true
forall_in-canonical [] h = cc
forall_in-canonical (c ∷ s) h = ground (arith, h)

-- It holds no colon.
pub digits-all : (n : ℕ) → 0 < n → forall_in is_digit (digits n) ≡ true
digits-all n p = forall_in-canonical (digits n) (digits_from-IsCanonical (suc n) n (omega arith) p)
