-- ===== src/Prelude/Word.antt =====
-- Go's 64-bit unsigned integers, and the bit sets that the replicas keep in them.
use Prim.Native.Nat.{ℕ, zero, suc, ◌+◌, ◌*◌, ◌/◌, ◌%◌, ◌^◌, ◌<◌, bit_or}
use mathlib.Core.Path.{◌≡◌, refl}
use mathlib.Core.Logic.{◌≢◌}
use mathlib.Core.Bool.{Bool, true, false}
use native.Mathlib.Omega.{arith}
use go_phat.Prelude.Tests.{◌==◌, ltb, if◌then◌else◌}

abbrev pub u64_mod : ℕ
u64_mod = 2 ^ 64

-- The value of a 64-bit unsigned expression.
abbrev pub u64 : ℕ → ℕ
u64 n = n % u64_mod

-- `(1 << i) & x`, digit by digit: is the bit set?
digit_at : ℕ → ℕ → Bool
digit_at zero x = x % 2 == 1
digit_at (suc i) x = digit_at i (x / 2)

-- `x | (1 << i)`, digit by digit.
with_digit : ℕ → ℕ → ℕ
with_digit zero x = x / 2 * 2 + 1
with_digit (suc i) x = with_digit i (x / 2) * 2 + x % 2

-- A shift by 64 or more gives 0, so that the test fails and the write changes nothing.
unfoldable pub has_bit : ℕ → ℕ → Bool
unfolding digit_at
has_bit x i = if ltb i 64 then digit_at i x else false

unfoldable pub set_bit : ℕ → ℕ → ℕ
unfolding with_digit
set_bit x i = if ltb i 64 then with_digit i x else x

digit_at-with_digit : (i x : ℕ) → digit_at i (with_digit i x) ≡ true
unfolding digit_at with_digit
digit_at-with_digit zero x = ground arith
digit_at-with_digit (suc i) x =
    let e : (with_digit i (x / 2) * 2 + x % 2) / 2 ≡ with_digit i (x / 2) = omega arith in
    rw e (digit_at-with_digit i (x / 2))

digit_at-with_digit_ne : (i j x : ℕ) → i ≢ j → digit_at j (with_digit i x) ≡ digit_at j x
unfolding digit_at with_digit
digit_at-with_digit_ne zero zero x h = absurd (h refl)
digit_at-with_digit_ne zero (suc j) x h = let e : (x / 2 * 2 + 1) / 2 ≡ x / 2 = omega arith in rw e
digit_at-with_digit_ne (suc i) zero x h =
    let e : (with_digit i (x / 2) * 2 + x % 2) % 2 ≡ x % 2 = omega arith in rw e
digit_at-with_digit_ne (suc i) (suc j) x h =
    let e : (with_digit i (x / 2) * 2 + x % 2) / 2 ≡ with_digit i (x / 2) = omega arith in
    rw e (digit_at-with_digit_ne i j (x / 2) (λ p. h (omega arith)))

digit_at-zero : (i : ℕ) → digit_at i 0 ≡ false
unfolding digit_at
digit_at-zero zero = refl
digit_at-zero (suc i) = digit_at-zero i

pub has_bit-zero : (i : ℕ) → has_bit 0 i ≡ false
unfolding has_bit
has_bit-zero i = ground (arith, digit_at-zero i)

pub has_bit-set_bit :
    (x i j : ℕ) → i < 64 → has_bit (set_bit x i) j ≡ (if i == j then true else has_bit x j)
unfolding has_bit set_bit
has_bit-set_bit x i j h = ground (arith, digit_at-with_digit i x, digit_at-with_digit_ne i j x)

-- The digit recursions are the native bit operations.
set_bit-bit_or : set_bit 5 3 ≡ bit_or 5 (2 ^ 3)
unfolding set_bit
set_bit-bit_or = refl

set_bit-bit_or_again : set_bit 13 3 ≡ bit_or 13 (2 ^ 3)
unfolding set_bit
set_bit-bit_or_again = refl
