-- ===== src/Prelude/Word.antt =====
-- Go's int64: an integer in the range of 64 bits, with wrap-around after each operation.
use Prim.Native.Nat.{ℕ, ◌+◌, ◌-◌, ◌*◌, ◌/◌, ◌%◌, ◌<◌, ◌≤◌}
use mathlib.Core.Path.{◌≡◌}
use native.Mathlib.Omega.{arith}
use mathlib.Core.Logic.{inl, inr}
use walnut_billing.Prelude.Tests.{ltb, if◌then◌else◌, Bool-cases}
use walnut_billing.Prelude.Int.{ℤ, pos, negsuc, pos_part, neg_part, ◌+ℤ◌, ◌-ℤ◌, neg, int_laws}

abbrev half : ℕ
half = 9223372036854775808

abbrev modulus : ℕ
modulus = 18446744073709551616

-- The value of the 64 low bits of an integer, read in two's complement.
unfoldable pub wrap64 : ℤ → ℤ
wrap64 (pos n) =
    if ltb (n % modulus) half then pos (n % modulus) else negsuc (modulus - 1 - n % modulus)
wrap64 (negsuc n) =
    if ltb (n % modulus) half then negsuc (n % modulus) else pos (modulus - 1 - n % modulus)

unfoldable pub add64 : ℤ → ℤ → ℤ
add64 a b = wrap64 (a +ℤ b)

unfoldable pub sub64 : ℤ → ℤ → ℤ
sub64 a b = wrap64 (a -ℤ b)

unfoldable pub neg64 : ℤ → ℤ
neg64 a = wrap64 (neg a)

-- An integer that 64 bits hold.
abbrev pub IsInt64 : ℤ → Type 0
IsInt64 a = (pos_part a < half) × (neg_part a ≤ half)

pub wrap64_id : (a : ℤ) → IsInt64 a → wrap64 a ≡ a
unfolding wrap64
wrap64_id a h = ground arith

pub wrap64-IsInt64 : (a : ℤ) → IsInt64 (wrap64 a)
unfolding wrap64
wrap64-IsInt64 a = ground arith

-- `wrap64` changes an integer by a multiple of 2 ^ 64.
wrap64_turns :
    (a : ℤ)
    → (up : ℕ) × (down : ℕ) × (pos_part (wrap64 a) + neg_part a + up * modulus
        ≡ neg_part (wrap64 a) + pos_part a + down * modulus)
unfolding wrap64
wrap64_turns (pos n) = elim (Bool-cases (ltb (n % modulus) half)) [
  | inl low ↦ (n / modulus, 0, rw low (ground arith))
  | inr high ↦ (n / modulus + 1, 0, rw high (ground arith))
]
wrap64_turns (negsuc n) = elim (Bool-cases (ltb (n % modulus) half)) [
  | inl low ↦ (0, n / modulus, rw low (ground arith))
  | inr high ↦ (0, n / modulus + 1, rw high (ground arith))
]

-- Integers that differ by a multiple of 2 ^ 64 wrap to the same value.
pub wrap64-congr :
    (a b : ℤ) (up down : ℕ)
    → pos_part a + neg_part b + up * modulus ≡ neg_part a + pos_part b + down * modulus
    → wrap64 a ≡ wrap64 b
unfolding wrap64
wrap64-congr a b up down h = ground arith

pub wrap64-add_left : (a b : ℤ) → wrap64 (wrap64 a +ℤ b) ≡ wrap64 (a +ℤ b)
wrap64-add_left a b =
    let (up, down, e) = wrap64_turns a in
    wrap64-congr (wrap64 a +ℤ b) (a +ℤ b) up down (omega (int_laws, e))

pub wrap64-sub_left : (a b : ℤ) → wrap64 (wrap64 a -ℤ b) ≡ wrap64 (a -ℤ b)
wrap64-sub_left a b =
    let (up, down, e) = wrap64_turns a in
    wrap64-congr (wrap64 a -ℤ b) (a -ℤ b) up down (omega (int_laws, e))

pub wrap64-add_right : (a b : ℤ) → wrap64 (a +ℤ wrap64 b) ≡ wrap64 (a +ℤ b)
wrap64-add_right a b =
    let (up, down, e) = wrap64_turns b in
    wrap64-congr (a +ℤ wrap64 b) (a +ℤ b) up down (omega (int_laws, e))

pub wrap64-sub_right : (a b : ℤ) → wrap64 (a -ℤ wrap64 b) ≡ wrap64 (a -ℤ b)
wrap64-sub_right a b =
    let (up, down, e) = wrap64_turns b in
    wrap64-congr (a -ℤ wrap64 b) (a -ℤ b) down up (omega (int_laws, e))
