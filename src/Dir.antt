-- ===== src/Dir.antt =====
-- Directories: dirlookup, dirlink and is_dir_empty of kernel/fs.c. A directory is a file of
-- `struct fsdirent`, 32 bytes each: an inode number and a name of 30 bytes.
pub mod Uses
use dmaos.Base.{
  ℕ, zero, suc, ◌+◌, ◌-◌, ◌*◌, ◌/◌, ◌%◌, ltb, ◌==◌, if◌then◌else◌, Bool, true, false, not, ◌&&◌,
  Option, none, some, List, [], ◌∷◌, ◌++◌, Bytes, get16, ℤ, pos, take, get_or,
}
use dmaos.Machine.{M, pure, ◌>>=◌, ◌>>◌}
use dmaos.Machine.Consts.{sizeof_fsdirent, dirsiz, ft_directory, minus_one}
use dmaos.Block.{fresh}
use dmaos.Str.{strncmp, strcmp, strncpy, is_zero}
use dmaos.Inode.{inode_of, ilock, iget, iput}
use dmaos.Content.{readi, writei}

-- The bytes `buf[at] .. buf[at + n - 1]`.
abbrev pub bytes_from : Bytes → ℕ → ℕ → List ℕ
bytes_from buf at zero = []
bytes_from buf at (suc n) = buf at ∷ bytes_from buf (at + 1) n

-- `de.inum` and `de.name`.
abbrev pub dirent_inum : Bytes → ℕ
dirent_inum de = get16 de 0

abbrev pub dirent_name : Bytes → List ℕ
dirent_name de = bytes_from de 2 dirsiz

-- `struct fsdirent` with a name of 30 bytes.
abbrev pub dirent : ℕ → List ℕ → Bytes
dirent inum name o =
    if o == 0 then inum % 256 else if o == 1 then inum / 256 % 256 else get_or name (o - 2) 0

-- `readi(dp, &de, off, sizeof(de)) == sizeof(de)`.
abbrev pub whole : ℤ → Bool
whole (pos n) = n == sizeof_fsdirent
whole _ = false

-- How often `for (off = 0; off < size; off += sizeof(de))` runs at most.
abbrev pub entries_of : ℕ → ℕ
entries_of size = (size + 31) / sizeof_fsdirent

-- What a scan of a directory finds: the entry's offset and inode, none, or an entry that cannot
-- be read.
pub data Found : Type 0 where
  entry : (off inum : ℕ) → Found
  absent : Found
  unreadable : Found

unfoldable pub dir_scan : ℕ → (ℕ → List ℕ → Bool) → ℕ → ℕ → M Found
dir_scan dp matches zero off = pure absent
dir_scan dp matches (suc rounds) off = do
  n ← inode_of dp
  let round = do
    (r, de) ← readi (some dp) fresh off sizeof_fsdirent
    if not (whole r)
        then pure unreadable
        else if matches (dirent_inum de) (dirent_name de)
        then pure (entry off (dirent_inum de))
        else dir_scan dp matches rounds (off + sizeof_fsdirent)
  if ltb off n.dinode.size then round else pure absent

-- A reference to the inode of the entry found, with the entry's offset.
unfoldable pub found_inode : ℕ → Found → M (Option (ℕ × ℕ))
found_inode dev (entry off inum) = do ip ← iget dev inum; pure (some (ip, off))
found_inode dev absent = pure none
found_inode dev unreadable = pure none

-- The pointer alone, for callers that pass NULL for `poff`.
abbrev pub ptr : Option (ℕ × ℕ) → Option ℕ
ptr none = none
ptr (some (ip, off)) = some ip

-- The test of `dirlookup`: the entry is in use and its name agrees with `name`.
abbrev pub same_name : List ℕ → ℕ → List ℕ → Bool
same_name name inum entry_name = not (inum == 0) && is_zero (strncmp name entry_name dirsiz)

-- The type is tested before `ilock` has loaded the inode.
unfoldable pub dirlookup : ℕ → List ℕ → M (Option (ℕ × ℕ))
dirlookup dp name = do
  d ← inode_of dp
  let search = do
    ilock (some dp)
    n ← inode_of dp
    found ← dir_scan dp (same_name name) (entries_of n.dinode.size) 0
    found_inode n.dev found
  if d.dinode.type == ft_directory then search else pure none

-- `name` with at most 29 bytes of it kept, in 30 bytes.
abbrev pub name_field : List ℕ → List ℕ
name_field name = take 29 (strncpy name dirsiz) ++ (0 ∷ [])

-- Writes the entry at `off`.
unfoldable pub link_at : ℕ → List ℕ → ℕ → ℕ → M ℤ
link_at dp name inum off = do
  w ← writei (some dp) (dirent inum (name_field name)) off sizeof_fsdirent
  pure (if whole w then pos 0 else minus_one)

-- The entry goes to the first free place, or to the end.
unfoldable pub link_found : ℕ → List ℕ → ℕ → ℕ → Found → M ℤ
link_found dp name inum end (entry off _) = link_at dp name inum off
link_found dp name inum end absent = link_at dp name inum end
link_found dp name inum end unreadable = pure minus_one

unfoldable pub link_new : ℕ → List ℕ → ℕ → Option (ℕ × ℕ) → M ℤ
link_new dp name inum (some (ip, _)) = do iput (some ip); pure minus_one
link_new dp name inum none = do
  ilock (some dp)
  n ← inode_of dp
  found ← dir_scan dp (λ inum _. inum == 0) (entries_of n.dinode.size) 0
  link_found dp name inum (entries_of n.dinode.size * sizeof_fsdirent) found

-- The result is 0 or -1.
unfoldable pub dirlink : ℕ → List ℕ → ℕ → M ℤ
dirlink dp name inum = do old ← dirlookup dp name; link_new dp name inum old

abbrev pub dot : List ℕ
dot = b'.' ∷ []

abbrev pub dotdot : List ℕ
dotdot = b'.' ∷ b'.' ∷ []

-- An entry in use other than "." and "..".
abbrev pub is_other : ℕ → List ℕ → Bool
is_other inum name =
    not (inum == 0) && (not (is_zero (strcmp name dot)) && not (is_zero (strcmp name dotdot)))

abbrev pub is_absent : Found → Bool
is_absent (entry _ _) = false
is_absent absent = true
is_absent unreadable = false

-- False as soon as an entry other than "." and ".." is in use, or cannot be read.
unfoldable pub is_dir_empty : ℕ → M Bool
is_dir_empty ip = do
  n ← inode_of ip
  found ← dir_scan ip is_other (entries_of n.dinode.size) 0
  pure (is_absent found)
