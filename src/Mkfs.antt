-- ===== src/Mkfs.antt =====
-- The disk image tool, tools/mkfs.c. A run that ends in exit(1) is `none`; the files and directories of the
-- host are a tree, in the order in which readdir gives them. What is printed is left out.
pub mod Store
pub mod Dirs
pub mod Contents
pub mod Image
pub mod Marks
pub mod Marked
pub mod Layout
use dmaos.Base.{ℕ, Option, none, some, List, Bytes, ◌≡◌}
use dmaos.Machine.{Dinode}

-- `struct mkfs_dir`; an entry is an inode number and a name.
pub record MkfsDir : Type 0 where
  pub inum : ℕ
  pub path : List ℕ
  pub entries : List (ℕ × List ℕ)

-- The static data: the disk by blocks, the free map, the next block and inode, the inodes, and `dirs`.
pub record Mkfs : Type 0 where
  pub disk : ℕ → Bytes
  pub free_bitmap : Bytes
  pub freeblock : ℕ
  pub freeinode : ℕ
  pub file_inodes : ℕ → Dinode
  pub dirs : List MkfsDir

abbrev pub Tool {ℓ} : Type ℓ → Type ℓ
Tool A = Mkfs → Option (A × Mkfs)

abbrev pub pure {ℓ} : {A : Type ℓ} → A → Tool A
pure a s = some (a, s)

-- `exit(1)`.
abbrev pub exit {ℓ} : {A : Type ℓ} → Tool A
exit s = none

abbrev pub and_then {ℓ κ} :
    {A : Type ℓ} {B : Type κ} → Option (A × Mkfs) → (A → Tool B) → Option (B × Mkfs)
and_then none f = none
and_then (some (a, s)) f = f a s

infixl 5 ◌>>=◌ ◌>>◌
abbrev pub ◌>>=◌ {ℓ κ} : {A : Type ℓ} {B : Type κ} → Tool A → (A → Tool B) → Tool B
◌>>=◌ m f s = and_then (m s) f

abbrev pub ◌>>◌ {ℓ κ} : {A : Type ℓ} {B : Type κ} → Tool A → Tool B → Tool B
m >> n = m >>= λ _. n

abbrev pub get_state : Tool Mkfs
get_state s = some (s, s)

abbrev pub modify : (Mkfs → Mkfs) → Tool (Unit {0})
modify f s = some (tt, f s)
