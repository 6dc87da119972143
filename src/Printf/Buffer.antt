-- ===== src/Printf/Buffer.antt =====
-- The buffer of the kernel's messages, kernel/kernel.c.
use dmaos.Machine.{Kmesg}
use dmaos.Base.{
  ℕ, zero, suc, ◌+◌, ◌-◌, ◌≤◌, ◌<◌, ◌≡◌, refl, ap, sym, ◌∙◌, ltb, ltb→lt, inl, inr, Bool-cases,
  if◌then◌else◌, List, [], ◌∷◌, ◌++◌, take, length, Bytes, upd, upd_self, arith,
}
use dmaos.Printf.{format, vprintf, kputc, kputs, kmesg_size}
use dmaos.Io.{bytes_out}

-- The message ends within the buffer, in a NUL.
pub record IsTerminated (m : Kmesg) : Type 0 where
  pub fits : m.len < kmesg_size
  pub ends : m.buf m.len ≡ 0

-- The message, without its NUL.
abbrev pub message : Kmesg → List ℕ
message m = bytes_out m.buf m.len 0

kputc-IsTerminated : (c : ℕ) (m : Kmesg) → IsTerminated m → IsTerminated (kputc c m)
unfolding kputc
kputc-IsTerminated c m t = elim (Bool-cases (ltb m.len (kmesg_size - 1))) [
  | inl e ↦ rw e (record { fits = ground arith; ends = upd_self (upd m.buf m.len c) (m.len + 1) 0 })
  | inr e ↦ rw e t
]

-- Bytes outside the range do not matter.
bytes_out-same :
    (f g : Bytes) (n i : ℕ)
    → ((o : ℕ) → i ≤ o → o < i + n → f o ≡ g o)
    → bytes_out f n i ≡ bytes_out g n i
bytes_out-same f g zero i same = refl
bytes_out-same f g (suc n) i same =
    let x = same i (omega arith) (omega arith) in
    let y = bytes_out-same f g n (i + 1) (λ o a b. same o (omega arith) (omega arith)) in cc

bytes_out-last : (f : Bytes) (n i : ℕ) → bytes_out f (suc n) i ≡ bytes_out f n i ++ (f (i + n) ∷ [])
bytes_out-last f zero i = let e : i + 0 ≡ i = omega arith in rw e refl
bytes_out-last f (suc n) i =
    let e : i + 1 + n ≡ i + suc n = omega arith in
    let ih = bytes_out-last f n (i + 1) in
    ap (λ l. f i ∷ l) (ih ∙ ap (λ x. bytes_out f n (i + 1) ++ (f x ∷ [])) e)

length-bytes_out : (f : Bytes) (n i : ℕ) → length (bytes_out f n i) ≡ n
length-bytes_out f zero i = refl
length-bytes_out f (suc n) i = ap suc (length-bytes_out f n (i + 1))

kputc-kept : (c o : ℕ) (m : Kmesg) → kmesg_size ≤ o → (kputc c m).buf o ≡ m.buf o
unfolding kputc
kputc-kept c o m le = elim (Bool-cases (ltb m.len (kmesg_size - 1))) [
  | inl e ↦ rw e (ground arith)
  | inr e ↦ rw e refl
]

kputs-kept : (s : List ℕ) (o : ℕ) (m : Kmesg) → kmesg_size ≤ o → (kputs s m).buf o ≡ m.buf o
unfolding kputs
kputs-kept [] o m le = refl
kputs-kept (c ∷ s) o m le = kputs-kept s o (kputc c m) le ∙ kputc-kept c o m le

-- The next byte is put behind the message, or dropped if the buffer is full.
kputc-message :
    (c : ℕ) (m : Kmesg)
    → message (kputc c m)
      ≡ (if ltb m.len (kmesg_size - 1) then message m ++ (c ∷ []) else message m)
unfolding kputc
kputc-message c m = elim (Bool-cases (ltb m.len (kmesg_size - 1))) [
  | inl e ↦
      let b = upd (upd m.buf m.len c) (m.len + 1) 0 in
      let n : m.len + 1 ≡ suc m.len = omega arith in
      let here : b (0 + m.len) ≡ c = ground arith in
      let before = bytes_out-same b m.buf m.len 0 (λ o p q. ground arith) in
      rw e (
        ap (λ x. bytes_out b x 0) n
        ∙ bytes_out-last b m.len 0
        ∙ ap (λ l. l ++ (b (0 + m.len) ∷ [])) before
        ∙ ap (λ x. message m ++ (x ∷ [])) here)
  | inr e ↦ rw e refl
]

kputc-len :
    (c : ℕ) (m : Kmesg)
    → (kputc c m).len ≡ (if ltb m.len (kmesg_size - 1) then m.len + 1 else m.len)
unfolding kputc
kputc-len c m = elim (Bool-cases (ltb m.len (kmesg_size - 1))) [
  | inl e ↦ rw e refl
  | inr e ↦ rw e refl
]

append-nil : (xs : List ℕ) → xs ++ [] ≡ xs
append-nil [] = refl
append-nil (x ∷ xs) = ap (λ l. x ∷ l) (append-nil xs)

snoc-append : (xs ys : List ℕ) (c : ℕ) → (xs ++ (c ∷ [])) ++ ys ≡ xs ++ (c ∷ ys)
snoc-append [] ys c = refl
snoc-append (x ∷ xs) ys c = ap (λ l. x ∷ l) (snoc-append xs ys c)

take-nil : (n : ℕ) → take {A = ℕ} n [] ≡ []
take-nil zero = refl
take-nil (suc n) = refl

-- What fits of a byte and the bytes after it.
kputc-then :
    (c : ℕ) (s : List ℕ) (m : Kmesg)
    → IsTerminated m
    → message (kputc c m) ++ take (kmesg_size - 1 - (kputc c m).len) s
      ≡ message m ++ take (kmesg_size - 1 - m.len) (c ∷ s)
kputc-then c s m t = elim (Bool-cases (ltb m.len (kmesg_size - 1))) [
  | inl e ↦
      let lt = ltb→lt m.len (kmesg_size - 1) e in
      let left : kmesg_size - 1 - m.len ≡ suc (kmesg_size - 1 - (m.len + 1)) = omega arith in
      let last = rw e at (kputc-message c m) in
      let len = rw e at (kputc-len c m) in
      rw (last, len, left) (snoc-append (message m) (take (kmesg_size - 1 - (m.len + 1)) s) c)
  | inr e ↦
      let none_left : kmesg_size - 1 - m.len ≡ 0 = let f = t.fits in ground arith in
      let last = rw e at (kputc-message c m) in
      let len = rw e at (kputc-len c m) in rw (last, len, none_left) refl
]

kputs-message :
    (s : List ℕ) (m : Kmesg)
    → IsTerminated m
    → IsTerminated (kputs s m)
      × (message (kputs s m) ≡ message m ++ take (kmesg_size - 1 - m.len) s)
unfolding kputs
kputs-message [] m t =
    (t, sym (ap (λ l. message m ++ l) (take-nil (kmesg_size - 1 - m.len)) ∙ append-nil (message m)))
kputs-message (c ∷ s) m t =
    let ih = kputs-message s (kputc c m) (kputc-IsTerminated c m t) in
    (ih.0, ih.1 ∙ kputc-then c s m t)

module _ (va : ℕ → ℕ) (text : ℕ → List ℕ) where
  -- `vprintf` changes no byte from the end of the buffer of 4096 bytes on, and leaves the buffer terminated
  -- by a NUL: the message is the old one with the text put out behind it, cut off where the buffer is full.
  pub vprintf-message :
      (fmt : List ℕ) (m : Kmesg)
      → IsTerminated m
      → IsTerminated (vprintf va text fmt m)
        × (message (vprintf va text fmt m)
            ≡ message m ++ take (kmesg_size - 1 - m.len) (format va text (length fmt) 0 fmt))
        × ((o : ℕ) → kmesg_size ≤ o → (vprintf va text fmt m).buf o ≡ m.buf o)
  unfolding vprintf
  vprintf-message fmt m t =
      let out = format va text (length fmt) 0 fmt in
      let (ends, says) = kputs-message out m t in (ends, says, λ o le. kputs-kept out o m le)
