-- ===== src/Printf.antt =====
-- The kernel's messages: kputc and vprintf of kernel/kernel.c, over the buffer that SYSCALL_KMESG
-- reads. `va` is the words that `va_arg` takes in order, and `text` the C string at an address.
pub mod Decimal
pub mod Buffer
pub mod Width
use dmaos.Base.{
  ℕ, zero, suc, ◌+◌, ◌-◌, ◌*◌, ◌/◌, ◌%◌, ◌^◌, ltb, ◌==◌, if◌then◌else◌, Bool, true, false, not,
  List, [], ◌∷◌, ◌++◌, length, replicate, Bytes, upd, ℤ, pos, negsuc, signed32, is_neg,
}
use dmaos.Machine.{Kmesg}
use dmaos.Str.{peek, strlen}

abbrev pub kmesg_size : ℕ
kmesg_size = 4096

unfoldable pub kputc : ℕ → Kmesg → Kmesg
kputc ch m =
    if ltb m.len (kmesg_size - 1)
    then record { len = m.len + 1; buf = upd (upd m.buf m.len ch) (m.len + 1) 0 }
    else m

-- `kputc` of each of the bytes.
unfoldable pub kputs : List ℕ → Kmesg → Kmesg
kputs [] m = m
kputs (c ∷ s) m = kputs s (kputc c m)

-- `width - len` spaces, if that is positive.
unfoldable pub padding : ℤ → ℕ → List ℕ
padding (pos width) len = replicate (width - len) b' '
padding (negsuc _) len = []

-- A text in its field.
abbrev pub in_field : Bool → ℤ → ℕ → List ℕ → List ℕ
in_field left_align width len s =
    if left_align then s ++ padding width len else padding width len ++ s

-- `mag`: the magnitude of an `int`, given as its 32 bits.
abbrev pub magnitude : ℕ → ℕ
magnitude value = if is_neg (signed32 value) then (2 ^ 32 - value) % 2 ^ 32 else value

-- `while (temp > 0) { ++len; temp /= 10; }`.
unfoldable pub count_digits : ℕ → ℕ → ℕ
count_digits zero temp = 0
count_digits (suc rounds) temp =
    let rest = count_digits rounds (temp / 10) in if temp == 0 then 0 else suc rest

-- `while (mag / div > 9) div *= 10;`
unfoldable pub find_div : ℕ → ℕ → ℕ → ℕ
find_div zero mag div = div
find_div (suc rounds) mag div =
    let rest = find_div rounds mag (div * 10 % 2 ^ 32) in if ltb 9 (mag / div) then rest else div

-- `while (div > 0) { kputc('0' + mag / div); mag %= div; div /= 10; }`.
unfoldable pub digits : ℕ → ℕ → ℕ → List ℕ
digits zero mag div = []
digits (suc rounds) mag div =
    let rest = digits rounds (mag % div) (div / 10) in
    if div == 0 then [] else (b'0' + mag / div) ∷ rest

-- A 32-bit number has at most 10 digits.
unfoldable pub unsigned_digits : ℕ → List ℕ
unsigned_digits mag = digits 12 mag (find_div 10 mag 1)

unfoldable pub number_length : ℕ → ℕ
number_length value =
    let mag = magnitude value in
    (if is_neg (signed32 value) then 1 else 0) + (if mag == 0 then 1 else count_digits 10 mag)

unfoldable pub decimal : ℕ → List ℕ
decimal value =
    let s = unsigned_digits (magnitude value) in if is_neg (signed32 value) then b'-' ∷ s else s

-- `"0123456789abcdef"[nibble]`.
abbrev pub hex_digit : ℕ → ℕ
hex_digit nibble = if ltb nibble 10 then b'0' + nibble else b'a' + (nibble - 10)

-- The nibbles below `i`, the highest first.
unfoldable pub hex : ℕ → ℕ → List ℕ
hex zero val = []
hex (suc i) val = hex_digit (val / 16 ^ i % 16) ∷ hex i val

-- The rest of the format after a '-', and whether it was there.
unfoldable pub align_flag : List ℕ → Bool × List ℕ
align_flag [] = (false, [])
align_flag (c ∷ fmt) = if c == b'-' then (true, fmt) else (false, c ∷ fmt)

module _ (va : ℕ → ℕ) (text : ℕ → List ℕ) where
  -- The width, the next argument and the rest of the format, after a '*' or without one.
  unfoldable pub field_width : ℕ → List ℕ → ℤ × ℕ × List ℕ
  field_width arg [] = (pos 0, arg, [])
  field_width arg (c ∷ fmt) =
      if c == b'*' then (signed32 (va arg), arg + 1, fmt) else (pos 0, arg, c ∷ fmt)

  -- What a conversion puts out, and the next argument.
  unfoldable pub conversion : Bool → ℤ → ℕ → ℕ → List ℕ × ℕ
  conversion left_align width arg c =
      if c == b'%'
      then (b'%' ∷ [], arg)
      else if c == b's'
      then (in_field left_align width (length (text (va arg))) (text (va arg)), arg + 1)
      else if c == b'd'
      then (in_field left_align width (number_length (va arg)) (decimal (va arg)), arg + 1)
      else if c == b'x'
      then (hex 8 (va arg), arg + 1)
      else ([], arg)

  -- The conversion character; a format that ends in its place puts out a '%'.
  unfoldable pub after_width : (ℕ → List ℕ → List ℕ) → Bool → ℤ × ℕ × List ℕ → List ℕ
  after_width rest left_align (width, arg, []) = b'%' ∷ []
  after_width rest left_align (width, arg, c ∷ fmt) =
      let (out, arg') = conversion left_align width arg c in out ++ rest arg' fmt

  unfoldable pub directive : (ℕ → List ℕ → List ℕ) → ℕ → Bool × List ℕ → List ℕ
  directive rest arg (left_align, fmt) = after_width rest left_align (field_width arg fmt)

  -- The bytes that `vprintf` passes to `kputc`, in order; each round takes a byte of the format.
  unfoldable pub format : ℕ → ℕ → List ℕ → List ℕ
  format zero arg fmt = []
  format (suc rounds) arg [] = []
  format (suc rounds) arg (c ∷ fmt) =
      if c == b'%'
      then directive (λ a f. format rounds a f) arg (align_flag fmt)
      else c ∷ format rounds arg fmt

  unfoldable pub vprintf : List ℕ → Kmesg → Kmesg
  vprintf fmt m = kputs (format (length fmt) 0 fmt) m
