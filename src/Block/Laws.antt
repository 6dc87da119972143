-- ===== src/Block/Laws.antt =====
-- What is on a disk after blocks are read and written.
use dmaos.Base.{ℕ, ◌+◌, ◌*◌, ◌<◌, ◌^◌, ◌≡◌, ◌⊎◌, ◌≢◌, arith, Bytes, copy_bytes}
use dmaos.Machine.{Kernel, ok}
use dmaos.Block.{first_sector, read_block, write_block, join_halves, store_sector, second_half}

-- Both sectors of the block can be read and written.
pub record Usable (k : Kernel) (dev block : ℕ) : Type 0 where
  pub device : dev < 2
  pub small : block < 2 ^ 31
  pub inside : block * 2 + 1 < k.capacity dev
  pub first : k.status dev (block * 2) ≡ 0
  pub second : k.status dev (block * 2 + 1) ≡ 0

-- The bytes of a block.
abbrev pub block_at : Kernel → ℕ → ℕ → Bytes
block_at k dev b = join_halves (k.sectors dev (b * 2)) (k.sectors dev (b * 2 + 1))

first_sector-small : (b : ℕ) → b < 2 ^ 31 → first_sector b ≡ b * 2
first_sector-small b h = omega arith

-- `read_block` of a usable block changes nothing and fills the buffer with the block's bytes.
pub read_block-eq :
    (k : Kernel) (dev b : ℕ) → Usable k dev b → read_block dev b k ≡ ok (block_at k dev b) k
unfolding read_block
read_block-eq k dev b u = let e = first_sector-small b u.small in rw e (ground arith)

-- The state after `write_block`.
abbrev pub stored : Kernel → ℕ → ℕ → Bytes → Kernel
stored k dev b buf =
    let lo = store_sector dev (b * 2) (copy_bytes (k.sectors dev (b * 2)) 0 buf 0 512) k in
    store_sector dev (b * 2 + 1) (copy_bytes (lo.sectors dev (b * 2 + 1)) 0 (second_half buf) 0 512)
      lo

pub write_block-eq :
    (k : Kernel) (dev b : ℕ) (buf : Bytes)
    → Usable k dev b
    → write_block dev b buf k ≡ ok tt (stored k dev b buf)
unfolding write_block
write_block-eq k dev b buf u = let e = first_sector-small b u.small in rw e (ground arith)

-- What was written is read back.
pub block_at-stored_self :
    (k : Kernel) (dev b : ℕ) (buf : Bytes) (o : ℕ)
    → o < 1024
    → block_at (stored k dev b buf) dev b o ≡ buf o
block_at-stored_self k dev b buf o h = ground arith

-- Other blocks keep their bytes.
pub block_at-stored_ne :
    (k : Kernel) (dev b : ℕ) (buf : Bytes) (d c o : ℕ)
    → (d ≢ dev) ⊎ (c ≢ b)
    → block_at (stored k dev b buf) d c o ≡ block_at k d c o
block_at-stored_ne k dev b buf d c o h = ground arith
