-- ===== src/Base/Bits.antt =====
-- Facts about `bit_and` and `bit_or`, which the library has only at numerals.
use Prim.Native.Nat.{
  ℕ, zero, suc, ◌+◌, ◌*◌, ◌/◌, ◌%◌, ◌^◌, ◌≤◌, ◌<◌, min, max, bit_and, bit_or, digits,
  bit_and-bitwise, bit_or-bitwise,
}
use mathlib.Core.Path.{◌≡◌, refl, ap}
use native.Mathlib.Nat.{pow-suc}
use mathlib.Core.Bool.{Bool, true, ◌&&◌}
use native.Mathlib.Omega.{arith}

-- A test of every number below a bound, by evaluation.
unfoldable pub every : (ℕ → Bool) → ℕ → Bool
every test zero = true
every test (suc bound) = every test bound && test bound

pub every-holds :
    (test : ℕ → Bool) (bound i : ℕ) → i < bound → every test bound ≡ true → test i ≡ true
unfolding every
every-holds test zero i lt ok = absurd (omega arith)
every-holds test (suc bound) i lt ok = ground (arith, every-holds test bound i)

-- The digit recursion that the native operations stand for does not depend on spare fuel.
digits_spare :
    (z : ℕ → ℕ) (f : ℕ → ℕ → ℕ) (n m a b : ℕ) → a ≤ n → a ≤ m → digits z f n a b ≡ digits z f m a b
digits_spare z f zero zero zero b p q = refl
digits_spare z f zero (suc m) zero b p q = refl
digits_spare z f (suc n) zero zero b p q = refl
digits_spare z f (suc n) (suc m) zero b p q = refl
digits_spare z f zero m (suc a) b p q = absurd (omega arith)
digits_spare z f (suc n) zero (suc a) b p q = absurd (omega arith)
digits_spare z f (suc n) (suc m) (suc a) b p q =
    ap (λ d. d * 2 + f (suc a % 2) (b % 2))
      (digits_spare z f n m (suc a / 2) (b / 2) (omega arith) (omega arith))

-- The lowest digit apart from the others.
pub bit_or_split : (a b : ℕ) → bit_or a b ≡ bit_or (a / 2) (b / 2) * 2 + max (a % 2) (b % 2)
bit_or_split zero b = omega (arith, bit_or-bitwise 0 b, bit_or-bitwise 0 (b / 2))
bit_or_split (suc a) b = omega (
  arith,
  bit_or-bitwise (suc a) b,
  bit_or-bitwise (suc a / 2) (b / 2),
  digits_spare (λ b. b) max a (suc a / 2) (suc a / 2) (b / 2) (omega arith) (omega arith),
)

pub bit_and_split : (a b : ℕ) → bit_and a b ≡ bit_and (a / 2) (b / 2) * 2 + min (a % 2) (b % 2)
bit_and_split zero b = omega (arith, bit_and-bitwise 0 b, bit_and-bitwise 0 (b / 2))
bit_and_split (suc a) b = omega (
  arith,
  bit_and-bitwise (suc a) b,
  bit_and-bitwise (suc a / 2) (b / 2),
  digits_spare (λ b. zero) min a (suc a / 2) (suc a / 2) (b / 2) (omega arith) (omega arith),
)

-- A number of at most `n` has no digit in common with 0.
bit_and-zero : (n a : ℕ) → a ≤ n → bit_and a 0 ≡ 0
bit_and-zero n zero h = bit_and-bitwise 0 0
bit_and-zero zero (suc a) h = absurd (omega arith)
bit_and-zero (suc n) (suc a) h =
    omega (arith, bit_and_split (suc a) 0, bit_and-zero n (suc a / 2) (omega arith))

-- `a & 1` tests the lowest digit.
pub bit_and-one : (a : ℕ) → bit_and a 1 ≡ a % 2
bit_and-one a = omega (arith, bit_and_split a 1, bit_and-zero a (a / 2) (omega arith))

-- Shifting both numbers by one digit, the first by a zero.
or_up : (y f : ℕ) → bit_or y (f / 2) ≡ y + f / 2 → bit_or (2 * y) f ≡ 2 * y + f
or_up y f h = omega (arith, bit_or_split (2 * y) f, ap (λ t. bit_or t (f / 2)) (halve y))
  where
    halve : (y : ℕ) → 2 * y / 2 ≡ y
    halve y = omega arith

bit_or-zero : (a n : ℕ) → a ≤ n → bit_or a 0 ≡ a
bit_or-zero zero n h = bit_or-bitwise 0 0
bit_or-zero (suc a) zero h = absurd (omega arith)
bit_or-zero (suc a) (suc n) h =
    omega (arith, bit_or_split (suc a) 0, bit_or-zero (suc a / 2) n (omega arith))

pub bit_or-one : (a : ℕ) → bit_or a 1 ≡ a / 2 * 2 + 1
bit_or-one a = omega (arith, bit_or_split a 1, bit_or-zero (a / 2) a (omega arith))

-- `k` low digits put beside a number that has none of them.
pub bit_or_low : (k y f : ℕ) → f < 2 ^ k → bit_or (2 ^ k * y) f ≡ 2 ^ k * y + f
bit_or_low zero y f h =
    let e : f ≡ 0 = omega arith in rw e (omega (arith, bit_or-zero (1 * y) (1 * y) (omega arith)))
bit_or_low (suc k) y f h =
    let low : f / 2 < 2 ^ k = omega (arith, pow-suc 2 k) in
    let twice : 2 ^ suc k * y ≡ 2 * (2 ^ k * y) =
      omega (arith, ap (λ (t : ℕ). t * y) (pow-suc 2 k)) in
    rw twice (or_up (2 ^ k * y) f (bit_or_low k y (f / 2) low))

-- A digit that has been set is found set.
pub bit_and-bit_or : (k f : ℕ) → 0 < bit_and (bit_or f (2 ^ k)) (2 ^ k)
bit_and-bit_or zero f = omega (arith, bit_and-one (bit_or f 1), bit_or-one f)
bit_and-bit_or (suc k) f = omega (
  arith,
  pow-suc 2 k,
  bit_or_split f (2 ^ suc k),
  bit_and_split (bit_or f (2 ^ suc k)) (2 ^ suc k),
  ap (bit_or (f / 2)) (half k),
  ap (λ x. bit_and x (2 ^ suc k / 2)) (upper k f),
  ap (bit_and (bit_or (f / 2) (2 ^ k))) (half k),
  bit_and-bit_or k (f / 2),
)
  where
    half : (k : ℕ) → 2 ^ suc k / 2 ≡ 2 ^ k
    half k = omega (arith, pow-suc 2 k)

    upper : (k f : ℕ) → bit_or f (2 ^ suc k) / 2 ≡ bit_or (f / 2) (2 ^ k)
    upper k f = omega (arith, pow-suc 2 k, bit_or_split f (2 ^ suc k), ap (bit_or (f / 2)) (half k))
