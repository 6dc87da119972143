-- ===== src/Tables.antt =====
-- Code that leaves the table of files and the processes alone, and that this is so for all of
-- kernel/fs.c below the calls on descriptors.
pub mod Content
pub mod Names
pub mod Tree
use dmaos.Base.{
  ℕ, zero, suc, ap, ◌≡◌, refl, sym, ◌∙◌, Bool, true, false, if◌then◌else◌, Option, none, some,
  Bytes, arith,
}
use dmaos.Machine.{Kernel, Inode, File, Process, ok, M, pure, stop, ◌>>=◌, ◌>>◌, get_state, modify}
use dmaos.Machine.Post.{bind-ok, ok-state}
use dmaos.Block.{read_block, write_block}
use dmaos.Inode.{
  inode_of, set_inode, update_inode, iget, iput, ilock, iupdate, iget_scan, ialloc, ialloc_scan,
  bump_ref, claimed,
}

-- The two states have the same tables.
abbrev pub SameTables : Kernel → Kernel → Type 0
SameTables k k' =
    (k'.file_table ≡ k.file_table)
    × (k'.procs ≡ k.procs)
    × (k'.current_proc ≡ k.current_proc)
    × (k'.idle_proc ≡ k.idle_proc)

same_state : {k k' : Kernel} → k ≡ k' → SameTables k k'
same_state e = (
  ap (λ x. x.file_table) (sym e),
  ap (λ x. x.procs) (sym e),
  ap (λ x. x.current_proc) (sym e),
  ap (λ x. x.idle_proc) (sym e),
)

pub record Leaves {ℓ} {A : Type ℓ} (m : M A) : Type ℓ where
  pub same : (k : Kernel) (r : A) (k' : Kernel) → m k ≡ ok r k' → SameTables k k'

module _ {ℓ} {A : Type ℓ} where
  pub pure-Leaves : (a : A) → Leaves (pure a)
  pure-Leaves a = record { same = λ k r k' h. same_state (ok-state h) }

  pub stop-Leaves : Leaves (stop {A = A})
  stop-Leaves = record { same = λ k r k' h. cc }

  pub if-Leaves : (b : Bool) {m n : M A} → Leaves m → Leaves n → Leaves (if b then m else n)
  if-Leaves true p q = p
  if-Leaves false p q = q

  pub bind-Leaves {κ} :
      {B : Type κ} {m : M A} {f : A → M B} → Leaves m → ((a : A) → Leaves (f a)) → Leaves (m >>= f)
  bind-Leaves {m} {f} p q = record {
    same = λ k r k' h.
        let (a, k1, e1, h1) = bind-ok (m k) f h in
        let (x, y, z, w) = p.same k a k1 e1 in
        let (x', y', z', w') = (q a).same k1 r k' h1 in (x' ∙ x, y' ∙ y, z' ∙ z, w' ∙ w);
  }

pub get-Leaves : Leaves get_state
get-Leaves = record { same = λ k r k' h. same_state (ok-state h) }

pub inode_of-Leaves : (ip : ℕ) → Leaves (inode_of ip)
unfolding inode_of
inode_of-Leaves ip = record { same = λ k r k' h. same_state (ok-state h) }

pub set_inode-Leaves : (ip : ℕ) (v : Inode) → Leaves (modify (set_inode ip v))
set_inode-Leaves ip v = record { same = λ k r k' h. ground arith }

pub update_inode-Leaves : (ip : ℕ) (change : Inode → Inode) → Leaves (update_inode ip change)
unfolding update_inode
update_inode-Leaves ip change = record { same = λ k r k' h. ground arith }

pub read_block-Leaves : (dev b : ℕ) → Leaves (read_block dev b)
unfolding read_block
read_block-Leaves dev b = record { same = λ k r k' h. ground arith }

pub write_block-Leaves : (dev b : ℕ) (buf : Bytes) → Leaves (write_block dev b buf)
unfolding write_block
write_block-Leaves dev b buf = record { same = λ k r k' h. ground arith }

-- The rules for code that touches neither table.
pub ruleset leaving = (
  pure-Leaves, stop-Leaves, if-Leaves, bind-Leaves, get-Leaves, inode_of-Leaves, set_inode-Leaves,
  update_inode-Leaves, read_block-Leaves, write_block-Leaves,
)

pub ilock-Leaves : (ip : Option ℕ) → Leaves (ilock ip)
unfolding ilock
ilock-Leaves none = stop-Leaves
ilock-Leaves (some ip) = search leaving depth 20

pub iput-Leaves : (ip : Option ℕ) → Leaves (iput ip)
unfolding iput
iput-Leaves none = pure-Leaves tt
iput-Leaves (some ip) = search leaving depth 20

pub iupdate-Leaves : (ip : ℕ) → Leaves (iupdate ip)
unfolding iupdate
iupdate-Leaves ip = search leaving depth 20

pub iget-Leaves : (dev inum : ℕ) → Leaves (iget dev inum)
unfolding iget
iget-Leaves dev inum = record { same = λ k r k' h. ground arith }

ialloc_scan-Leaves : (dev type rounds inum : ℕ) → Leaves (ialloc_scan dev type rounds inum)
unfolding ialloc_scan
ialloc_scan-Leaves dev type zero inum = pure-Leaves none
ialloc_scan-Leaves dev type (suc rounds) inum =
    search (leaving, iget-Leaves, ialloc_scan-Leaves dev type rounds) depth 20

pub ialloc-Leaves : (dev type : ℕ) → Leaves (ialloc dev type)
unfolding ialloc
ialloc-Leaves dev type = search (leaving, ialloc_scan-Leaves) depth 20
