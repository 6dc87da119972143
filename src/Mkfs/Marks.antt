-- ===== src/Mkfs/Marks.antt =====
-- The free map of an image of tools/mkfs.c.
use dmaos.Base.{
  ℕ, ◌+◌, ◌*◌, ◌/◌, ◌%◌, ◌^◌, ◌∙◌, ltb→lt, ◌≤◌, ◌<◌, ◌≡◌, ◌==◌, ltb, leb, refl, inl, inr, Bool,
  true, false, Bool-cases, if◌then◌else◌, Option, none, some, Bytes, bit_or, arith,
}
use dmaos.Machine.{Dinode}
use dmaos.Bitmap.{bit_clear, mark_bit}
use dmaos.Bitmap.Bits.{mark_bit-clear_bit}
use dmaos.Base.Bits.{every, every-holds}
use dmaos.Mkfs.{Mkfs, Tool, pure, exit, and_then, ◌>>=◌, get_state, modify}
use dmaos.Mkfs.Store.{
  balloc, hand_out, write_block, take_inode, set_inode, mark_allocated, disk_size_blocks,
}

-- What holds at the end of a run that does not exit.
pub data Ends {ℓ κ} {A : Type ℓ} (P : A → Mkfs → Type κ) : Option (A × Mkfs) → Type (ℓ ⊔ κ) where
  ended : {a : A} {s : Mkfs} → P a s → Ends P (some (a, s))
  exited : Ends P none

pub bind {ℓ κ ι μ} :
    {A : Type ℓ} {B : Type ι} {P : A → Mkfs → Type κ} {Q : B → Mkfs → Type μ}
    {r : Option (A × Mkfs)} {f : A → Tool B}
    → Ends P r
    → ((a : A) (s : Mkfs) → P a s → Ends Q (f a s))
    → Ends Q (and_then r f)
bind (ended p) next = next _ _ p
bind exited next = exited

pub either {ℓ κ} :
    {A : Type ℓ} {P : A → Mkfs → Type κ} (b : Bool) (m n : Tool A) {s : Mkfs}
    → Ends P (m s)
    → Ends P (n s)
    → Ends P ((if b then m else n) s)
either true m n p q = p
either false m n p q = q

-- The free map marks the blocks below the next one to hand out, and no others.
pub record IsMarked (s : Mkfs) : Type 0 where
  pub bytes : (i : ℕ) → s.free_bitmap i < 256
  pub bits : (b : ℕ) → bit_clear s.free_bitmap b ≡ leb s.freeblock b
  pub fits : s.freeblock ≤ disk_size_blocks

abbrev pub Marks {ℓ} : {A : Type ℓ} → Tool A → Type ℓ
Marks m = (s : Mkfs) → IsMarked s → Ends (λ _ s'. IsMarked s') (m s)

pub pure-Marks {ℓ} : {A : Type ℓ} (a : A) → Marks (pure a)
pure-Marks a s h = ended h

pub bind-Marks {ℓ κ} :
    {A : Type ℓ} {B : Type κ} {m : Tool A} {f : A → Tool B}
    → Marks m
    → ((a : A) → Marks (f a))
    → Marks (m >>= f)
bind-Marks p q s h = bind (p s h) (λ a s' h'. q a s' h')

pub if-Marks {ℓ} :
    {A : Type ℓ} (b : Bool) {m n : Tool A} → Marks m → Marks n → Marks (if b then m else n)
if-Marks true p q = p
if-Marks false p q = q

pub exit-Marks {ℓ} : {A : Type ℓ} → Marks (exit {A = A})
exit-Marks s h = exited

pub get-Marks : Marks get_state
get-Marks s h = ended h

-- A change of the rest of the data.
pub modify-Marks :
    (f : Mkfs → Mkfs)
    → ((s : Mkfs) → (f s).free_bitmap ≡ s.free_bitmap)
    → ((s : Mkfs) → (f s).freeblock ≡ s.freeblock)
    → Marks (modify f)
modify-Marks f map next s h = ended (record {
  bytes = λ i. let e = map s in rw e (h.bytes i);
  bits = λ b. let e = map s in let e' = next s in rw (e, e') (h.bits b);
  fits = let e = next s in omega (arith, h.fits);
})

abbrev or_test : ℕ → Bool
or_test n = ltb (bit_or (n / 8) (2 ^ (n % 8))) 256

or_test-every : every or_test 2048 ≡ true
unfolding every
or_test-every = refl

-- A byte stays a byte when a bit is set.
bit_or-byte : (v b : ℕ) → v < 256 → bit_or v (2 ^ (b % 8)) < 256
bit_or-byte v b h =
    let code = v * 8 + b % 8 in
    let a : code / 8 ≡ v = omega arith in
    let c : code % 8 ≡ b % 8 = omega arith in
    ltb→lt _ 256 (rw (a, c) at (every-holds or_test 2048 code (omega arith) or_test-every))

pub mark_bit-bytes :
    (buf : Bytes) (b : ℕ) → ((i : ℕ) → buf i < 256) → (i : ℕ) → mark_bit buf b i < 256
mark_bit-bytes buf b h i = elim (Bool-cases (i == b / 8)) [
  | inl e ↦ rw e (bit_or-byte (buf (b / 8)) b (h (b / 8)))
  | inr e ↦ rw e (h i)
]

-- The next block is marked.
pub mark_bit-next :
    (buf : Bytes) (b : ℕ)
    → ((i : ℕ) → buf i < 256)
    → ((c : ℕ) → bit_clear buf c ≡ leb b c)
    → (c : ℕ) → bit_clear (mark_bit buf b) c ≡ leb (b + 1) c
mark_bit-next buf b bytes bits c =
    (mark_bit-clear_bit buf b c (bytes (b / 8))).0 ∙ rw (bits c) (ground arith)

hand_out-Marks :
    (s : Mkfs)
    → IsMarked s
    → s.freeblock < disk_size_blocks
    → Ends (λ _ s'. IsMarked s') (hand_out s.freeblock s)
unfolding hand_out mark_allocated
hand_out-Marks s h lt = ended (record {
  bytes = mark_bit-bytes s.free_bitmap s.freeblock h.bytes;
  bits = mark_bit-next s.free_bitmap s.freeblock h.bytes h.bits;
  fits = omega arith;
})

pub balloc-Marks : Marks balloc
unfolding balloc
balloc-Marks s h = elim (Bool-cases (leb disk_size_blocks s.freeblock)) [
  | inl e ↦ rw e exited
  | inr e ↦ rw e (hand_out-Marks s h (ground arith))
]

pub write_block-Marks : (block : ℕ) (buf : Bytes) → Marks (write_block block buf)
unfolding write_block
write_block-Marks block buf = modify-Marks _ (λ s. refl) (λ s. refl)

pub set_inode-Marks : (inum : ℕ) (d : Dinode) → Marks (set_inode inum d)
unfolding set_inode
set_inode-Marks inum d = modify-Marks _ (λ s. refl) (λ s. refl)

pub take_inode-Marks : Marks take_inode
unfolding take_inode
take_inode-Marks = bind-Marks get-Marks (λ s.
    bind-Marks
      (modify-Marks (λ s. record s { freeinode = s.freeinode + 1 }) (λ s. refl) (λ s. refl))
      (λ _. if-Marks (leb 64 s.freeinode) exit-Marks (pure-Marks s.freeinode)))
