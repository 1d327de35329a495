-- ===== src/Base/Bits.antt =====
-- Laws of `^ 1` and of `& (1 << j)`, from the digit recursion that the operations stand for.
use Prim.Native.Nat.{
  ℕ, zero, suc, ◌+◌, ◌-◌, ◌*◌, ◌/◌, ◌%◌, ◌^◌, ◌≤◌, ◌<◌, min, bit_and, bit_xor, digits, differ,
  bit_and-bitwise, bit_xor-bitwise,
}
use mathlib.Core.Path.{◌≡◌, refl, sym, ap, ◌∙◌}
use native.Mathlib.Omega.{arith}
use native.Mathlib.Nat.{div-div-eq-div-mul, pow-suc, pow-succ', one-le-pow, zero-div}

-- `n >> (k + 1)` is `n >> k >> 1`.
pub shift_suc : (n k : ℕ) → n / 2 ^ suc k ≡ n / 2 ^ k / 2
shift_suc n k = ap (λ m. n / m) (pow-suc 2 k) ∙ sym (div-div-eq-div-mul n (2 ^ k) 2)

pub shift_half : (n k : ℕ) → n / 2 ^ suc k ≡ n / 2 / 2 ^ k
shift_half n k = ap (λ m. n / m) (pow-succ' 2 k) ∙ sym (div-div-eq-div-mul n 2 (2 ^ k))

pub two-pow-pos : (k : ℕ) → 0 < 2 ^ k
two-pow-pos k = one-le-pow k 2 (omega arith)

differ-zero : (d : ℕ) → differ d 0 ≡ d
differ-zero zero = refl
differ-zero (suc d) = refl

differ-one : (d : ℕ) → d < 2 → differ d 1 ≡ 1 - d
differ-one zero h = refl
differ-one (suc zero) h = refl
differ-one (suc (suc d)) h = absurd (omega arith)

xor_digits-zero : (n a : ℕ) → a ≤ n → digits (λ b. b) differ n a 0 ≡ a
xor_digits-zero zero zero h = refl
xor_digits-zero zero (suc a) h = absurd (omega arith)
xor_digits-zero (suc n) zero h = refl
xor_digits-zero (suc n) (suc a) h =
    omega (arith, xor_digits-zero n (suc a / 2) (omega arith), differ-zero (suc a % 2))

-- `a ^ 1` flips the lowest digit.
pub bit_xor-one : (a : ℕ) → bit_xor a 1 ≡ a / 2 * 2 + (1 - a % 2)
bit_xor-one zero = refl
bit_xor-one (suc a) = omega (
  arith,
  bit_xor-bitwise (suc a) 1,
  xor_digits-zero a (suc a / 2) (omega arith),
  differ-one (suc a % 2) (omega arith),
)

and_digits-zero : (n a : ℕ) → digits (λ b. 0) min n a 0 ≡ 0
and_digits-zero zero a = refl
and_digits-zero (suc n) zero = refl
and_digits-zero (suc n) (suc a) = omega (arith, and_digits-zero n (suc a / 2))

and_digits-pow : (n a j : ℕ) → a ≤ n → digits (λ b. 0) min n a (2 ^ j) ≡ (a / 2 ^ j) % 2 * 2 ^ j
and_digits-pow zero zero j h = rw zero-div (omega arith)
and_digits-pow zero (suc a) j h = absurd (omega arith)
and_digits-pow (suc n) zero j h = rw zero-div (omega arith)
and_digits-pow (suc n) (suc a) zero h = omega (arith, and_digits-zero n (suc a / 2))
and_digits-pow (suc n) (suc a) (suc j) h =
    let half : 2 ^ suc j / 2 ≡ 2 ^ j = omega (arith, pow-suc 2 j) in
    let even : 2 ^ suc j % 2 ≡ 0 = omega (arith, pow-suc 2 j) in
    rw (half, even, shift_half (suc a) j, pow-suc 2 j)
      (omega (arith, and_digits-pow n (suc a / 2) j (omega arith)))

-- `a & (1 << j)` is the digit at `j`, in its place.
pub bit_and-pow : (a j : ℕ) → bit_and a (2 ^ j) ≡ (a / 2 ^ j) % 2 * 2 ^ j
bit_and-pow a j = bit_and-bitwise a (2 ^ j) ∙ and_digits-pow a a j (omega arith)
