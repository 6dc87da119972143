-- ===== src/Bitmap.antt =====
-- The free map of a disk, one bit to a block: balloc and bfree of kernel/fs.c.
pub mod Bits
use dmaos.Base.{
  ℕ, zero, suc, ◌+◌, ◌-◌, ◌/◌, ◌%◌, ◌^◌, ◌==◌, if◌then◌else◌, Bool, Option, none, some, Bytes, upd,
  bit_and, bit_or,
}
use dmaos.Machine.{M, pure, stop, ◌>>=◌, ◌>>◌, get_state}
use dmaos.Block.{read_block, write_block}

-- `(buf[b / 8] & (1 << (b % 8))) == 0`.
abbrev pub bit_clear : Bytes → ℕ → Bool
bit_clear buf b = bit_and (buf (b / 8)) (2 ^ (b % 8)) == 0

-- `buf[b / 8] |= 1 << (b % 8)`.
abbrev pub mark_bit : Bytes → ℕ → Bytes
mark_bit buf b = upd buf (b / 8) (bit_or (buf (b / 8)) (2 ^ (b % 8)))

-- `buf[b / 8] &= ~(1 << (b % 8))`.
abbrev pub clear_bit : Bytes → ℕ → Bytes
clear_bit buf b = upd buf (b / 8) (bit_and (buf (b / 8)) (255 - 2 ^ (b % 8)))

-- The loop of `balloc`: the first clear bit among the `rounds` from `b` on.
unfoldable pub first_clear : Bytes → ℕ → ℕ → Option ℕ
first_clear buf zero b = none
first_clear buf (suc rounds) b =
    let rest = first_clear buf rounds (b + 1) in if bit_clear buf b then some b else rest

-- A block of zeros.
abbrev pub zeros : Bytes
zeros _ = 0

-- The block found is marked in the free map and filled with zeros.
unfoldable pub take_block : ℕ → ℕ → Bytes → Option ℕ → M ℕ
take_block dev bmapstart buf none = stop
take_block dev bmapstart buf (some b) = do
  write_block dev bmapstart (mark_bit buf b)
  write_block dev b zeros
  pure b

unfoldable pub balloc : ℕ → M ℕ
balloc dev = do
  k ← get_state
  buf ← read_block dev (k.sb dev).bmapstart
  take_block dev (k.sb dev).bmapstart buf (first_clear buf (k.sb dev).nblocks 0)

unfoldable pub bfree : ℕ → ℕ → M (Unit {0})
bfree dev block = do
  k ← get_state
  buf ← read_block dev (k.sb dev).bmapstart
  if bit_clear buf block then stop else write_block dev (k.sb dev).bmapstart (clear_bit buf block)
