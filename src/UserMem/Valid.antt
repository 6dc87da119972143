-- ===== src/UserMem/Valid.antt =====
-- The checks of user buffers in kernel/kernel.c.
use dmaos.Base.{
  ℕ, zero, suc, ◌+◌, ◌-◌, ◌*◌, ◌/◌, ◌^◌, ◌≤◌, ◌<◌, ◌≡◌, refl, ◌↔◌, ◌≢◌, bit_and, ==_ne, inl, inr,
  ltb, Bool-cases, Bool, true, false, arith, subst, add32,
}
use dmaos.Machine.Consts.{page_size}
use dmaos.PageTable.{slot, leaf, vpn1, vpn0}
use dmaos.UserMem.{
  page_ok, pages_ok, page_floor, page_ceil, user_top, validate_user_buffer,
  validate_user_write_buffer, validate_user_read_buffer,
}

module _ (words : ℕ → ℕ) (t1 : ℕ) (write : Bool) where
  -- Only the page of an address counts.
  page_ok-page :
      (a b : ℕ)
      → a / page_size ≡ b / page_size
      → page_ok words t1 write a ≡ page_ok words t1 write b
  unfolding page_ok
  page_ok-page a b h =
      let hi : vpn1 a ≡ vpn1 b = omega arith in
      let lo : vpn0 a ≡ vpn0 b = omega arith in rw (hi, lo)

  pages_ok-each :
      (rounds va i : ℕ)
      → pages_ok words t1 write rounds va ≡ true
      → i < rounds
      → page_ok words t1 write (va + i * page_size) ≡ true
  unfolding pages_ok
  pages_ok-each zero va i h lt = absurd (omega arith)
  pages_ok-each (suc rounds) va zero h lt =
      let e : va + 0 * page_size ≡ va = omega arith in rw e (ground arith)
  pages_ok-each (suc rounds) va (suc i) h lt =
      let e : va + suc i * page_size ≡ va + page_size + i * page_size = omega arith in
      rw e (pages_ok-each rounds (va + page_size) i (ground arith) (omega arith))

  each-pages_ok :
      (rounds va : ℕ)
      → ((i : ℕ) → i < rounds → page_ok words t1 write (va + i * page_size) ≡ true)
      → pages_ok words t1 write rounds va ≡ true
  unfolding pages_ok
  each-pages_ok zero va h = refl
  each-pages_ok (suc rounds) va h =
      let e : va + 0 * page_size ≡ va = omega arith in
      let first : page_ok words t1 write va ≡ true = rw e at (h 0 (omega arith)) in
      let rest = each-pages_ok rounds (va + page_size) (λ i lt.
        let e : va + suc i * page_size ≡ va + page_size + i * page_size = omega arith in
        rw e at (h (suc i) (omega arith))) in
      ground arith

-- The entries of the page of `a` have the bits PAGE_V, 1, and the second one PAGE_U, 16, and PAGE_W, 4, if
-- `write`.
abbrev pub IsMapped : (ℕ → ℕ) → ℕ → Bool → ℕ → Type 0
IsMapped words t1 write a =
    (bit_and (words (slot t1 (vpn1 a))) 1 ≢ 0)
    × ((bit_and (leaf words t1 a) 1 ≢ 0)
        × ((bit_and (leaf words t1 a) 16 ≢ 0) × (write ≡ true → bit_and (leaf words t1 a) 4 ≢ 0)))

page_ok→IsMapped :
    (words : ℕ → ℕ) (t1 : ℕ) (write : Bool) (a : ℕ)
    → page_ok words t1 write a ≡ true
    → IsMapped words t1 write a
unfolding page_ok
page_ok→IsMapped words t1 write a h =
    (λ e. ground arith, (λ e. ground arith, (λ e. ground arith, λ w e. ground arith)))

IsMapped→page_ok :
    (words : ℕ → ℕ) (t1 : ℕ) (write : Bool) (a : ℕ)
    → IsMapped words t1 write a
    → page_ok words t1 write a ≡ true
unfolding page_ok
IsMapped→page_ok words t1 true a (root, (valid, (user, writes))) =
    let w = writes refl in rw (==_ne _ 0 root, ==_ne _ 0 valid, ==_ne _ 0 user, ==_ne _ 0 w) refl
IsMapped→page_ok words t1 false a (root, (valid, (user, writes))) =
    rw (==_ne _ 0 root, ==_ne _ 0 valid, ==_ne _ 0 user) refl

-- The buffer ends at 2 GB or below, and each of its bytes lies in a page that passes the test.
abbrev Passes : (ℕ → ℕ) → ℕ → Bool → ℕ → ℕ → Type 0
Passes words t1 write start len =
    (start + len ≤ user_top)
    × ((a : ℕ) → start ≤ a → a < start + len → page_ok words t1 write a ≡ true)

valid→Passes :
    (words : ℕ → ℕ) (t1 : ℕ) (write : Bool) (start len : ℕ)
    → start < 2 ^ 32
    → len < 2 ^ 32
    → validate_user_buffer words t1 write start len ≡ true
    → Passes words t1 write start len
unfolding validate_user_buffer
valid→Passes words t1 write start len hs hl h = elim (Bool-cases (ltb (add32 start len) start)) [
  | inl e ↦ absurd (ground arith)
  | inr e ↦ elim (Bool-cases (ltb user_top (add32 start len))) [
    | inl f ↦ absurd (ground arith)
    | inr f ↦
        let inside : add32 start len ≡ start + len = ground arith in
        let le : start + len ≤ user_top = ground arith in
        let all = rw (e, f) at h in
        (
          le,
          λ a p q.
              let i : ℕ = (a - page_floor start) / page_size in
              let ok_i = pages_ok-each words t1 write _ (page_floor start) i all (omega arith) in
              subst (λ b. b ≡ true) (page_ok-page words t1 write _ a (omega arith)) ok_i,
        )
  ]
]

Passes→valid :
    (words : ℕ → ℕ) (t1 : ℕ) (write : Bool) (start len : ℕ)
    → 0 < len
    → Passes words t1 write start len
    → validate_user_buffer words t1 write start len ≡ true
unfolding validate_user_buffer
Passes→valid words t1 write start len pos_len (le, each) =
    let inside : add32 start len ≡ start + len = omega arith in
    let all =
      each-pages_ok words t1 write ((page_ceil (start + len) - page_floor start) / page_size)
        (page_floor start)
        (λ i lt. elim (Bool-cases (ltb (page_floor start + i * page_size) start)) [
          | inl e ↦
              subst (λ b. b ≡ true) (page_ok-page words t1 write start _ (ground arith))
                (each start (omega arith) (omega arith))
          | inr e ↦ each _ (ground arith) (ground arith)
        ]) in
    rw inside (ground arith)

-- The buffer ends at 2 GB or below, and each of its bytes lies in a page that is mapped with PAGE_U,
-- and with PAGE_W if `write`.
abbrev pub Accessible : (ℕ → ℕ) → ℕ → Bool → ℕ → ℕ → Type 0
Accessible words t1 write start len =
    (start + len ≤ user_top) × ((a : ℕ) → start ≤ a → a < start + len → IsMapped words t1 write a)

valid-Accessible :
    (words : ℕ → ℕ) (t1 : ℕ) (write : Bool) (start len : ℕ)
    → start < 2 ^ 32
    → len < 2 ^ 32
    → 0 < len
    → (validate_user_buffer words t1 write start len ≡ true) ↔ Accessible words t1 write start len
valid-Accessible words t1 write start len hs hl pos_len = (
  λ h.
      let (le, each) = valid→Passes words t1 write start len hs hl h in
      (le, λ a p q. page_ok→IsMapped words t1 write a (each a p q)),
  λ h.
      let (le, each) = h in
      Passes→valid words t1 write start len pos_len
        (le, λ a p q. IsMapped→page_ok words t1 write a (each a p q)),
)

-- A buffer of at least one byte passes `validate_user_read_buffer` exactly if it ends at 2 GB or below
-- and each of its bytes lies in a page that is mapped with PAGE_U, and `validate_user_write_buffer`
-- exactly if these pages have PAGE_W as well. The end is the sum without wrap-around; address and
-- length are 32 bits wide.
pub validate_user-Accessible :
    (words : ℕ → ℕ) (t1 start len : ℕ)
    → start < 2 ^ 32
    → len < 2 ^ 32
    → 0 < len
    → ((validate_user_write_buffer words t1 start len ≡ true) ↔ Accessible words t1 true start len)
      × ((validate_user_read_buffer words t1 start len ≡ true)
          ↔ Accessible words t1 false start len)
unfolding validate_user_write_buffer validate_user_read_buffer
validate_user-Accessible words t1 start len hs hl pos_len = (
  valid-Accessible words t1 true start len hs hl pos_len,
  valid-Accessible words t1 false start len hs hl pos_len,
)
