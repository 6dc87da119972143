-- ===== src/Printf/Decimal.antt =====
-- The decimal numbers that vprintf of kernel/kernel.c puts out.
use dmaos.Base.{
  ℕ, zero, suc, ◌+◌, ◌-◌, ◌*◌, ◌/◌, ◌%◌, ◌^◌, ◌≤◌, ◌<◌, ◌≡◌, refl, ◌==◌, inl, inr, Bool-cases,
  false, if◌then◌else◌, List, [], ◌∷◌, arith, sub_ℕ, ℤ, pos, signed32, ltb, ltb→lt, ==_ne, subst,
  ◌∙◌, ap, length, ◌⊎◌,
}
use native.Mathlib.Omega.{pow_step}
use native.Mathlib.Nat.{mod-lt, mod-eq_of_lt, le-div_iff_mul-le, div-add-mod', div-lt_iff_lt-mul}
use dmaos.Printf.{digits, find_div, unsigned_digits, decimal}

-- The number that a row of digits stands for, after `acc`.
unfoldable pub read_digits : ℕ → List ℕ → ℕ
read_digits acc [] = acc
read_digits acc (c ∷ s) = read_digits (acc * 10 + (c - b'0')) s

pub power_pos : (k : ℕ) → 0 < 10 ^ k
power_pos zero = omega arith
power_pos (suc k) = let x = power_pos k in let y = pow_step 10 k in omega arith

horner : (acc q e r m : ℕ) → q * e + r ≡ m → (acc * 10 + q) * e + r ≡ acc * (10 * e) + m
horner acc q e r m h = omega arith

-- The loop from a power of ten on, for a number with one digit more than the power's exponent.
digits-read :
    (k rounds m acc : ℕ)
    → m < 10 ^ suc k
    → k + 2 ≤ rounds
    → read_digits acc (digits rounds m (10 ^ k)) ≡ acc * 10 ^ suc k + m
unfolding digits read_digits
digits-read k zero m acc lt enough = absurd (omega arith)
digits-read zero (suc zero) m acc lt enough = absurd (omega arith)
digits-read zero (suc (suc rounds)) m acc lt enough = omega arith
digits-read (suc k) (suc rounds) m acc lt enough =
    let d = 10 ^ suc k in
    let pos = power_pos (suc k) in
    let nonzero : (d == 0) ≡ false = ==_ne d 0 (λ z. omega arith) in
    let next : d / 10 ≡ 10 ^ k = let s = pow_step 10 k in omega arith in
    let small = mod-lt m pos in
    let ih = digits-read k rounds (m % d) (acc * 10 + m / d) small (omega arith) in
    let parts = div-add-mod' m d in
    let step = pow_step 10 (suc k) in
    let code : b'0' + m / d - b'0' ≡ m / d = omega arith in
    rw (nonzero, next, code, step) (ih ∙ horner acc (m / d) d (m % d) m parts)

-- The bytes '0' to '9'.
abbrev pub AreDigits : List ℕ → Type 0
AreDigits [] = Unit
AreDigits (c ∷ s) = ((b'0' ≤ c) × (c ≤ b'9')) × AreDigits s

-- One digit or more.
abbrev pub IsNumber : List ℕ → Type 0
IsNumber s = (0 < length s) × AreDigits s

quotient-lt : (m d : ℕ) → 0 < d → m < 10 * d → m / d < 10
quotient-lt m d above lt = (div-lt_iff_lt-mul {x = m} {y = 10} above).1 lt

digits-IsNumber :
    (k rounds m : ℕ) → m < 10 ^ suc k → k + 2 ≤ rounds → IsNumber (digits rounds m (10 ^ k))
unfolding digits
digits-IsNumber k zero m lt enough = absurd (omega arith)
digits-IsNumber zero (suc zero) m lt enough = absurd (omega arith)
digits-IsNumber zero (suc (suc rounds)) m lt enough =
    (omega arith, ((omega arith, omega arith), tt))
digits-IsNumber (suc k) (suc rounds) m lt enough =
    let d = 10 ^ suc k in
    let pos = power_pos (suc k) in
    let nonzero : (d == 0) ≡ false = ==_ne d 0 (λ z. omega arith) in
    let next : d / 10 ≡ 10 ^ k = let s = pow_step 10 k in omega arith in
    let small = mod-lt m pos in
    let (_, rest) = digits-IsNumber k rounds (m % d) small (omega arith) in
    let first = quotient-lt m d pos (let s = pow_step 10 (suc k) in omega arith) in
    rw (nonzero, next) (omega arith, ((omega arith, omega arith), rest))

-- The power of ten that the search for the first digit ends at.
pub find_div-power :
    (rounds j m : ℕ)
    → m < 10 ^ (j + rounds)
    → m < 2 ^ 32
    → (k : ℕ) × (find_div rounds m (10 ^ j) ≡ 10 ^ k) × (m < 10 ^ suc k) × (k ≤ j + rounds)
unfolding find_div
find_div-power zero j m lt w = (
  j,
  refl,
  let s = pow_step 10 j in
      let p = power_pos j in
      let same : j + 0 ≡ j = omega arith in
      let lt' = subst (λ x. m < 10 ^ x) same lt in omega arith,
  omega arith,
)
find_div-power (suc rounds) j m lt w =
    let pos = power_pos j in
    let step = pow_step 10 j in
    elim (Bool-cases (ltb 9 (m / 10 ^ j))) [
      | inl e ↦
          let big : 10 ^ suc j ≤ m =
            let x = (le-div_iff_mul-le pos).0 (ltb→lt 9 (m / 10 ^ j) e) in omega arith in
          let same : 10 ^ j * 10 % 2 ^ 32 ≡ 10 ^ suc j =
            let x = mod-eq_of_lt {n = 10 ^ j * 10} {m = 2 ^ 32} (omega arith) in omega arith in
          let same_power : j + suc rounds ≡ suc j + rounds = omega arith in
          let lt1 = subst (λ x. m < 10 ^ x) same_power lt in
          let (k, at, lt', le) = find_div-power rounds (suc j) m lt1 w in
          (k, rw (e, same) at, lt', omega arith)
      | inr e ↦ (
        j,
        rw e refl,
        let x = (div-lt_iff_lt-mul {x = m} {y = 10} pos).0 (ground arith) in omega arith,
        omega arith,
      )
    ]

-- The digits that `vprintf` puts out for the magnitude of a `%d`, read in base ten, are that number.
pub unsigned_digits-read : (m : ℕ) → m < 2 ^ 32 → read_digits 0 (unsigned_digits m) ≡ m
unfolding unsigned_digits
unsigned_digits-read m w =
    let (k, at, lt, le) = find_div-power 10 0 m (omega arith) w in
    let r = digits-read k 12 m 0 lt (omega arith) in rw at (omega arith)

-- The number that the output of a `%d` stands for.
unfoldable pub read_decimal : List ℕ → ℤ
read_decimal [] = pos 0
read_decimal (c ∷ s) = if c == b'-' then sub_ℕ 0 (read_digits 0 s) else pos (read_digits 0 (c ∷ s))

-- The first digit is no sign.
digits-head :
    (rounds mag div : ℕ)
    → read_decimal (digits rounds mag div) ≡ pos (read_digits 0 (digits rounds mag div))
unfolding digits read_decimal read_digits
digits-head zero mag div = refl
digits-head (suc rounds) mag div = elim (Bool-cases (div == 0)) [
  | inl e ↦ rw e refl
  | inr e ↦ rw e (rw (==_ne (b'0' + mag / div) b'-' (λ z. omega arith)) refl)
]

unsigned_digits-IsNumber : (m : ℕ) → m < 2 ^ 32 → IsNumber (unsigned_digits m)
unfolding unsigned_digits
unsigned_digits-IsNumber m w =
    let (k, at, lt, le) = find_div-power 10 0 m (omega arith) w in
    rw at (digits-IsNumber k 12 m lt (omega arith))

-- Digits, or a minus sign and digits.
abbrev pub IsNumeral : List ℕ → Type 0
IsNumeral s = IsNumber s ⊎ ((t : List ℕ) × (s ≡ b'-' ∷ t) × IsNumber t)

decimal-IsNumeral : (value : ℕ) → value < 2 ^ 32 → IsNumeral (decimal value)
unfolding decimal
decimal-IsNumeral value w = elim (Bool-cases (ltb value (2 ^ 31))) [
  | inl e ↦ rw e (inl (unsigned_digits-IsNumber value w))
  | inr e ↦
      let mag : (2 ^ 32 - value) % 2 ^ 32 ≡ 2 ^ 32 - value = ground arith in
      rw (e, mag) (inr (_, refl, unsigned_digits-IsNumber (2 ^ 32 - value) (ground arith)))
]

decimal-value : (value : ℕ) → value < 2 ^ 32 → read_decimal (decimal value) ≡ signed32 value
unfolding decimal unsigned_digits read_decimal
decimal-value value w = elim (Bool-cases (ltb value (2 ^ 31))) [
  | inl e ↦
      rw e (digits-head 12 value (find_div 10 value 1) ∙ ap pos (unsigned_digits-read value w))
  | inr e ↦
      let mag : (2 ^ 32 - value) % 2 ^ 32 ≡ 2 ^ 32 - value = ground arith in
      let r = unsigned_digits-read (2 ^ 32 - value) (ground arith) in rw (e, mag, r) (ground arith)
]

-- The text that a `%d` puts out is a minus sign, if any, and one decimal digit or more, and reads as the
-- value of its argument, an `int` given as its 32 bits.
pub decimal-read :
    (value : ℕ)
    → value < 2 ^ 32
    → IsNumeral (decimal value) × (read_decimal (decimal value) ≡ signed32 value)
decimal-read value w = (decimal-IsNumeral value w, decimal-value value w)
