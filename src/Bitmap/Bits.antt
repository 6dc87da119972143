-- ===== src/Bitmap/Bits.antt =====
-- The bits of the free map: mark_bit and clear_bit, of balloc and bfree in kernel/fs.c.
use dmaos.Base.{
  ℕ, ◌+◌, ◌-◌, ◌*◌, ◌/◌, ◌%◌, ◌^◌, ◌<◌, ◌≡◌, refl, ◌==◌, Bool, Bool-cases, inl, inr, true, false,
  not, ◌&&◌, ◌||◌, bit_and, bit_or, Bytes, arith, ==_refl, sym,
}
use dmaos.Base.Bits.{every, every-holds}
use dmaos.Bitmap.{bit_clear, mark_bit, clear_bit}

abbrev same : Bool → Bool → Bool
same true b = b
same false b = not b

same-eq : (a b : Bool) → same a b ≡ true → a ≡ b
same-eq true b h = cc
same-eq false true h = cc
same-eq false false h = refl

-- The byte, the bit that is changed and the bit that is read, in one number below 16384.
abbrev mark_test : ℕ → Bool
mark_test n =
    same (bit_and (bit_or (n / 64) (2 ^ (n / 8 % 8))) (2 ^ (n % 8)) == 0)
      (not (n / 8 % 8 == n % 8) && (bit_and (n / 64) (2 ^ (n % 8)) == 0))

abbrev clear_test : ℕ → Bool
clear_test n =
    same (bit_and (bit_and (n / 64) (255 - 2 ^ (n / 8 % 8))) (2 ^ (n % 8)) == 0)
      ((n / 8 % 8 == n % 8) || (bit_and (n / 64) (2 ^ (n % 8)) == 0))

mark_test-every : every mark_test 16384 ≡ true
unfolding every
mark_test-every = refl

clear_test-every : every clear_test 16384 ≡ true
unfolding every
clear_test-every = refl

eq-bool : (a b : Bool) → (a ≡ true → b ≡ true) → (b ≡ true → a ≡ true) → a ≡ b
eq-bool true b f g = sym (f refl)
eq-bool false true f g = g refl
eq-bool false false f g = refl

-- Within one byte the numbers of the bits tell the blocks apart.
same_byte : (b c : ℕ) → b / 8 ≡ c / 8 → (b % 8 == c % 8) ≡ (b == c)
same_byte b c h = eq-bool _ _ (ground arith) (ground arith)

module _ (buf : Bytes) (b c : ℕ) (byte : buf (b / 8) < 256) where
  abbrev code : ℕ
  code = buf (b / 8) * 64 + b % 8 * 8 + c % 8

  mark_bit-byte :
      bit_and (bit_or (buf (b / 8)) (2 ^ (b % 8))) (2 ^ (c % 8)) == 0
      ≡ (not (b % 8 == c % 8) && (bit_and (buf (b / 8)) (2 ^ (c % 8)) == 0))
  mark_bit-byte =
      let v : code / 64 ≡ buf (b / 8) = omega arith in
      let i : code / 8 % 8 ≡ b % 8 = omega arith in
      let j : code % 8 ≡ c % 8 = omega arith in
      same-eq _ _ (rw (v, i, j) at (every-holds mark_test 16384 code (omega arith) mark_test-every))

  clear_bit-byte :
      bit_and (bit_and (buf (b / 8)) (255 - 2 ^ (b % 8))) (2 ^ (c % 8)) == 0
      ≡ ((b % 8 == c % 8) || (bit_and (buf (b / 8)) (2 ^ (c % 8)) == 0))
  clear_bit-byte =
      let v : code / 64 ≡ buf (b / 8) = omega arith in
      let i : code / 8 % 8 ≡ b % 8 = omega arith in
      let j : code % 8 ≡ c % 8 = omega arith in
      same-eq _ _
        (rw (v, i, j) at (every-holds clear_test 16384 code (omega arith) clear_test-every))

  pub mark_bit-clear_bit :
      (bit_clear (mark_bit buf b) c ≡ (not (b == c) && bit_clear buf c))
      × (bit_clear (clear_bit buf b) c ≡ ((b == c) || bit_clear buf c))
  mark_bit-clear_bit = elim (Bool-cases (b / 8 == c / 8)) [
    | inl e ↦
        let at : b / 8 ≡ c / 8 = ground arith in
        let num = same_byte b c at in
        (
          rw (← at, ==_refl (b / 8), mark_bit-byte, num) refl,
          rw (← at, ==_refl (b / 8), clear_bit-byte, num) refl,
        )
    | inr e ↦
        let ne : (b == c) ≡ false = ground arith in
        let far : (c / 8 == b / 8) ≡ false = ground arith in (rw (far, ne) refl, rw (far, ne) refl)
  ]
