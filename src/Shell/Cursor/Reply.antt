-- ===== src/Shell/Cursor/Reply.antt =====
-- The answer of a terminal to the query of get_cursor_column of user/sh/shell.c.
use dmaos.Base.{
  ℕ, zero, suc, ◌+◌, ◌-◌, ◌*◌, ◌/◌, ◌%◌, ◌^◌, ◌==◌, ==_ne, ◌≡◌, ◌<◌, refl, ap, ◌∙◌, true, false,
  some, List, [], ◌∷◌, ◌++◌, arith, pos, signed32,
}
use native.Mathlib.Omega.{pow_step}
use native.Mathlib.Nat.{mod-lt, div-lt_iff_lt-mul}
use dmaos.Printf.{unsigned_digits, digits}
use dmaos.Printf.Decimal.{find_div-power, power_pos, read_digits, unsigned_digits-read}
use dmaos.Shell.Cursor.{is_digit, read_col, skip_line, after_escape, get_cursor_column}

abbrev pub AreDigits : List ℕ → Type 0
AreDigits [] = Unit
AreDigits (c ∷ s) = (is_digit c ≡ true) × AreDigits s

skip_line-digits :
    (s rest : List ℕ) → AreDigits s → skip_line (s ++ (b';' ∷ rest)) ≡ read_col 0 rest
unfolding skip_line
skip_line-digits [] rest h = refl
skip_line-digits (c ∷ s) rest h =
    rw (==_ne c b';' (λ x. ground (arith, h.0)), h.0) (skip_line-digits s rest h.1)

read_digits-mod :
    (s : List ℕ) (a b : ℕ)
    → a % 2 ^ 32 ≡ b % 2 ^ 32
    → read_digits a s % 2 ^ 32 ≡ read_digits b s % 2 ^ 32
unfolding read_digits
read_digits-mod [] a b h = h
read_digits-mod (c ∷ s) a b h =
    read_digits-mod s (a * 10 + (c - b'0')) (b * 10 + (c - b'0')) (omega arith)

read_col-digits :
    (s rest : List ℕ) (col : ℕ)
    → AreDigits s
    → col < 2 ^ 32
    → read_col col (s ++ (b'R' ∷ rest)) ≡ some (signed32 (read_digits col s % 2 ^ 32), rest)
unfolding read_col read_digits
read_col-digits [] rest col h lt = ap (λ n. some (signed32 n, rest)) (omega arith)
read_col-digits (c ∷ s) rest col h lt =
    let next = (col * 10 + (c - b'0')) % 2 ^ 32 in
    let ih = read_col-digits s rest next h.1 (omega arith) in
    rw (==_ne c b'R' (λ x. ground (arith, h.0)), h.0)
      (ih
        ∙ ap (λ n. some (signed32 n, rest))
            (read_digits-mod s next (col * 10 + (c - b'0')) (omega arith)))

digits-AreDigits : (k rounds m : ℕ) → m < 10 ^ suc k → AreDigits (digits rounds m (10 ^ k))
unfolding digits
digits-AreDigits k zero m lt = tt
digits-AreDigits zero (suc zero) m lt = (ground arith, tt)
digits-AreDigits zero (suc (suc rounds)) m lt = (ground arith, tt)
digits-AreDigits (suc k) (suc rounds) m lt =
    let d = 10 ^ suc k in
    let pos = power_pos (suc k) in
    let nonzero : (d == 0) ≡ false = ==_ne d 0 (λ z. omega arith) in
    let next : d / 10 ≡ 10 ^ k = let s = pow_step 10 k in omega arith in
    let s = pow_step 10 (suc k) in
    let small : m / d < 10 = (div-lt_iff_lt-mul {x = m} {y = 10} pos).1 (omega arith) in
    rw (nonzero, next) (ground arith, digits-AreDigits k rounds (m % d) (mod-lt m pos))

unsigned_digits-AreDigits : (m : ℕ) → m < 2 ^ 32 → AreDigits (unsigned_digits m)
unfolding unsigned_digits
unsigned_digits-AreDigits m w =
    let (k, at, lt, le) = find_div-power 10 0 m (omega arith) w in
    rw at (digits-AreDigits k 12 m lt)

-- The shell finds the column in the terminal's answer to its query, "\033[<line>;<col>R" in decimal, and leaves
-- what is typed behind it.
pub get_cursor_column-reply :
    (line col : ℕ) (rest : List ℕ)
    → line < 2 ^ 32
    → col < 2 ^ 31
    → get_cursor_column
        (27 ∷ b'[' ∷ (unsigned_digits line ++ (b';' ∷ (unsigned_digits col ++ (b'R' ∷ rest)))))
      ≡ some (pos col, rest)
unfolding get_cursor_column after_escape
get_cursor_column-reply line col rest lw cw =
    let a =
      skip_line-digits (unsigned_digits line) (unsigned_digits col ++ (b'R' ∷ rest))
        (unsigned_digits-AreDigits line lw) in
    let b =
      read_col-digits (unsigned_digits col) rest 0 (unsigned_digits-AreDigits col (omega arith))
        (omega arith) in
    let e = unsigned_digits-read col (omega arith) in
    let same : read_digits 0 (unsigned_digits col) % 2 ^ 32 ≡ col = omega arith in
    let v : signed32 col ≡ pos col = ground arith in
    a ∙ b ∙ ap (λ n. some (signed32 n, rest)) same ∙ ap (λ n. some (n, rest)) v
