-- ===== src/Listing.antt =====
-- The listing of the root directory: fs_get_file_name and fs_get_file_size of kernel/fs.c.
pub mod Uses
use dmaos.Base.{
  ℕ, zero, suc, ◌+◌, ◌-◌, ltb, ◌==◌, if◌then◌else◌, Bool, true, false, not, ◌&&◌, Option, none,
  some, List, [], ◌∷◌, ◌++◌, Bytes, take, ℤ, pos, negsuc, signed32,
}
use dmaos.Machine.{M, pure, ◌>>=◌, ◌>>◌}
use dmaos.Machine.Consts.{sizeof_fsdirent, minus_one}
use dmaos.Block.{fresh}
use dmaos.Str.{strlen}
use dmaos.Inode.{inode_of, ilock, iget, iput}
use dmaos.Content.{readi}
use dmaos.Dir.{whole, is_other, dirent_inum, dirent_name, entries_of}

-- `current_index == index`.
abbrev pub is_index : ℤ → ℕ → Bool
is_index (pos n) current_index = n == current_index
is_index (negsuc _) current_index = false

-- The loop of both functions: the entry of that index, if it is reached.
unfoldable pub nth_entry : ℕ → ℤ → ℕ → ℕ → ℕ → M (Option Bytes)
nth_entry dp index zero off current_index = pure none
nth_entry dp index (suc rounds) off current_index = do
  n ← inode_of dp
  let round = do
    (r, de) ← readi (some dp) fresh off sizeof_fsdirent
    let counted = is_other (dirent_inum de) (dirent_name de)
    let next = if counted then current_index + 1 else current_index
    if not (whole r)
        then pure none
        else if counted && is_index index current_index
        then pure (some de)
        else nth_entry dp index rounds (off + sizeof_fsdirent) next
  if ltb off n.dinode.size then round else pure none

-- The bytes stored at `buf`: the name, cut to `buf_len - 1` bytes, and a NUL.
abbrev pub name_out : Bytes → ℕ → List ℕ
name_out de buf_len =
    let len = strlen (dirent_name de) in
    take (if ltb len buf_len then len else buf_len - 1) (dirent_name de) ++ (0 ∷ [])

unfoldable pub name_of : ℕ → ℕ → Option Bytes → M (ℤ × List ℕ)
name_of dp buf_len none = do iput (some dp); pure (minus_one, [])
name_of dp buf_len (some de) = do iput (some dp); pure (pos 0, name_out de buf_len)

-- The entry of that index in the root directory.
unfoldable pub root_entry : ℤ → M (ℕ × Option Bytes)
root_entry index = do
  dp ← iget 0 1
  ilock (some dp)
  n ← inode_of dp
  de ← nth_entry dp index (entries_of n.dinode.size) 0 0
  pure (dp, de)

-- The result, and the bytes stored at `buf`.
unfoldable pub fs_get_file_name : ℤ → ℤ → M (ℤ × List ℕ)
fs_get_file_name index (pos (suc n)) = do (dp, de) ← root_entry index; name_of dp (suc n) de
fs_get_file_name index (pos zero) = pure (minus_one, [])
fs_get_file_name index (negsuc _) = pure (minus_one, [])

unfoldable pub size_of : ℕ → Option Bytes → M ℤ
size_of dp none = do iput (some dp); pure minus_one
size_of dp (some de) = do
  ip ← iget 0 (dirent_inum de)
  ilock (some ip)
  n ← inode_of ip
  iput (some ip)
  iput (some dp)
  pure (signed32 n.dinode.size)

unfoldable pub fs_get_file_size : ℤ → M ℤ
fs_get_file_size index = do (dp, de) ← root_entry index; size_of dp de
