-- ===== src/Printf/Width.antt =====
-- The length that vprintf of kernel/kernel.c pads a number by.
use dmaos.Base.{
  ℕ, zero, suc, ◌+◌, ◌-◌, ◌*◌, ◌/◌, ◌%◌, ◌^◌, ◌≤◌, ◌<◌, ◌≡◌, refl, ◌==◌, inl, inr, Bool-cases,
  false, if◌then◌else◌, length, arith, ltb, ltb→lt, ==_ne, ◌∙◌, ap, sym, subst,
}
use native.Mathlib.Omega.{pow_step}
use native.Mathlib.Nat.{le-div_iff_mul-le, pow-le-pow_right}
use dmaos.Printf.{digits, find_div, unsigned_digits, decimal, number_length, count_digits}
use dmaos.Printf.Decimal.{find_div-power, power_pos}

-- The loop from a power of ten on puts out a digit for each power down to one.
length-digits : (k rounds m : ℕ) → k + 2 ≤ rounds → length (digits rounds m (10 ^ k)) ≡ suc k
unfolding digits
length-digits k zero m enough = absurd (omega arith)
length-digits zero (suc zero) m enough = absurd (omega arith)
length-digits zero (suc (suc rounds)) m enough = refl
length-digits (suc k) (suc rounds) m enough =
    let d = 10 ^ suc k in
    let pos = power_pos (suc k) in
    let nonzero : (d == 0) ≡ false = ==_ne d 0 (λ z. omega arith) in
    let next : d / 10 ≡ 10 ^ k = let s = pow_step 10 k in omega arith in
    rw (nonzero, next) (ap suc (length-digits k rounds (m % d) (omega arith)))

-- The search for the first digit does not pass the number.
find_div-le : (rounds m div : ℕ) → div ≤ m → find_div rounds m div ≤ m
unfolding find_div
find_div-le zero m div le = le
find_div-le (suc rounds) m zero le =
    let ih = find_div-le rounds m 0 le in
    elim (Bool-cases (ltb 9 (m / 0))) [ inl e ↦ rw e ih | inr e ↦ rw e le ]
find_div-le (suc rounds) m (suc d) le = elim (Bool-cases (ltb 9 (m / suc d))) [
  | inl e ↦
      let x = (le-div_iff_mul-le {k = suc d} (omega arith)).0 (ltb→lt 9 (m / suc d) e) in
      rw e (find_div-le rounds m (suc d * 10 % 2 ^ 32) (omega arith))
  | inr e ↦ rw e le
]

count_digits-zero : (rounds : ℕ) → count_digits rounds 0 ≡ 0
unfolding count_digits
count_digits-zero zero = refl
count_digits-zero (suc rounds) = refl

-- The count of the digits of a number between two powers of ten.
count_digits-power :
    (k rounds m : ℕ) → 10 ^ k ≤ m → m < 10 ^ suc k → k < rounds → count_digits rounds m ≡ suc k
unfolding count_digits
count_digits-power k zero m low high enough = absurd (omega arith)
count_digits-power zero (suc rounds) m low high enough =
    let nonzero : (m == 0) ≡ false = ==_ne m 0 (λ z. omega arith) in
    let last : m / 10 ≡ 0 = omega arith in rw (nonzero, last) (ap suc (count_digits-zero rounds))
count_digits-power (suc k) (suc rounds) m low high enough =
    let pos = power_pos (suc k) in
    let nonzero : (m == 0) ≡ false = ==_ne m 0 (λ z. omega arith) in
    let s = pow_step 10 k in
    let t = pow_step 10 (suc k) in
    rw nonzero
      (ap suc (count_digits-power k rounds (m / 10) (omega arith) (omega arith) (omega arith)))

-- A power of ten that a 32-bit number reaches.
exponent-lt : (k m : ℕ) → 10 ^ k ≤ m → m < 2 ^ 32 → k < 10
exponent-lt k m low w = elim (Bool-cases (ltb k 10)) [
  | inl e ↦ ltb→lt k 10 e
  | inr e ↦
      let far : 10 ≤ k = ground arith in
      let x = pow-le-pow_right {n = 10} (omega arith) far in absurd (omega arith)
]

-- Zero is put out as one digit.
length-digits_zero : 1 ≡ length (unsigned_digits 0)
unfolding unsigned_digits digits find_div
length-digits_zero = refl

length-unsigned_digits :
    (m : ℕ) → m < 2 ^ 32 → (if m == 0 then 1 else count_digits 10 m) ≡ length (unsigned_digits m)
unfolding unsigned_digits
length-unsigned_digits zero w = length-digits_zero
length-unsigned_digits (suc m) w =
    let (k, at, lt, le) = find_div-power 10 0 (suc m) (omega arith) w in
    let low = find_div-le 10 (suc m) 1 (omega arith) in
    let low' : 10 ^ k ≤ suc m = subst (λ d. d ≤ suc m) at low in
    let nonzero : (suc m == 0) ≡ false = ==_ne (suc m) 0 (λ z. omega arith) in
    let counted = count_digits-power k 10 (suc m) low' lt (exponent-lt k (suc m) low' w) in
    let put = length-digits k 12 (suc m) (omega arith) in rw (nonzero, at) (counted ∙ sym put)

-- The length that `vprintf` pads a `%d` by, for an argument given as its 32 bits, is the number of the
-- bytes that it puts out for it, the sign included.
pub number_length-decimal :
    (value : ℕ) → value < 2 ^ 32 → number_length value ≡ length (decimal value)
unfolding number_length decimal
number_length-decimal value w = elim (Bool-cases (ltb value (2 ^ 31))) [
  | inl e ↦ let x = length-unsigned_digits value w in rw e (omega arith)
  | inr e ↦
      let mag : (2 ^ 32 - value) % 2 ^ 32 ≡ 2 ^ 32 - value = ground arith in
      let small : 2 ^ 32 - value < 2 ^ 32 = ground arith in
      let x = length-unsigned_digits (2 ^ 32 - value) small in rw (e, mag) (omega arith)
]
