-- ===== src/Mkfs/Store.antt =====
-- Blocks and inodes of the image: mark_allocated, balloc and write_block of tools/mkfs.c.
use dmaos.Base.{ℕ, ◌+◌, leb, if◌then◌else◌, Bytes, upd}
use dmaos.Machine.{Dinode}
use dmaos.Bitmap.{mark_bit}
use dmaos.Mkfs.{Tool, pure, exit, ◌>>=◌, ◌>>◌, get_state, modify}

abbrev pub disk_size_blocks : ℕ
disk_size_blocks = 8192

abbrev pub max_dir_entries : ℕ
max_dir_entries = 64

unfoldable pub mark_allocated : ℕ → Tool (Unit {0})
mark_allocated block = modify (λ s. record s { free_bitmap = mark_bit s.free_bitmap block })

unfoldable pub hand_out : ℕ → Tool ℕ
hand_out b = do modify (λ s. record s { freeblock = b + 1 }); mark_allocated b; pure b

unfoldable pub balloc : Tool ℕ
balloc = do s ← get_state; if leb disk_size_blocks s.freeblock then exit else hand_out s.freeblock

unfoldable pub write_block : ℕ → Bytes → Tool (Unit {0})
write_block block buf = modify (λ s. record s { disk = upd s.disk block buf })

-- `(*freeinode_ptr)++`, with the check of its bound.
unfoldable pub take_inode : Tool ℕ
take_inode = do
  s ← get_state
  modify (λ s. record s { freeinode = s.freeinode + 1 })
  if leb max_dir_entries s.freeinode then exit else pure s.freeinode

unfoldable pub set_inode : ℕ → Dinode → Tool (Unit {0})
set_inode inum d = modify (λ s. record s { file_inodes = upd s.file_inodes inum d })
