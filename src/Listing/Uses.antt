-- ===== src/Listing/Uses.antt =====
-- The references that fs_get_file_name and fs_get_file_size of kernel/fs.c take and give back.
use dmaos.Base.{ℕ, zero, suc, ◌+◌, Option, none, some, Bytes, ℤ, pos, negsuc}
use dmaos.Inode.Cache.{one}
use dmaos.Inode.Uses.{
  Held, Uses, Keeps, keeping, pure-Uses, pure-Keeps, bind-Uses, inode_of-Keeps, ilock-Keeps,
  iget-Uses, iput-Uses,
}
use dmaos.Content.Uses.{readi-Keeps}
use dmaos.Tables.{leaving, Leaves, pure-Leaves}
use dmaos.Tables.Content.{readi-Leaves}
use dmaos.Tables.Names.{caching}
use dmaos.Listing.{nth_entry, root_entry, name_of, size_of, fs_get_file_name, fs_get_file_size}

nth_entry-Keeps :
    (dp : ℕ) (index : ℤ) (rounds off current : ℕ) → Keeps (nth_entry dp index rounds off current)
unfolding nth_entry
nth_entry-Keeps dp index zero off current = pure-Keeps _
nth_entry-Keeps dp index (suc rounds) off current =
    search (keeping, readi-Keeps, nth_entry-Keeps dp index rounds) depth 20

nth_entry-Leaves :
    (dp : ℕ) (index : ℤ) (rounds off current : ℕ) → Leaves (nth_entry dp index rounds off current)
unfolding nth_entry
nth_entry-Leaves dp index zero off current = pure-Leaves _
nth_entry-Leaves dp index (suc rounds) off current =
    search (leaving, readi-Leaves, nth_entry-Leaves dp index rounds) depth 20

-- With one reference more to the directory.
abbrev and_root : Held → ℕ × Option Bytes → Held
and_root c r i = c i + one (some r.0) i

root_entry-Uses : (index : ℤ) (c : Held) → Uses c (root_entry index) (and_root c)
unfolding root_entry
root_entry-Uses index c = bind-Uses (iget-Uses 0 1 c) (λ dp.
    bind-Uses ((ilock-Keeps (some dp)).all _) (λ _. bind-Uses ((inode_of-Keeps dp).all _) (λ n.
      bind-Uses ((nth_entry-Keeps dp index _ 0 0).all _) (λ de. pure-Uses (dp, de) (and_root c)))))

root_entry-Leaves : (index : ℤ) → Leaves (root_entry index)
unfolding root_entry
root_entry-Leaves index = search (caching, nth_entry-Leaves) depth 20

name_of-Uses :
    (dp buf_len : ℕ) (de : Option Bytes) (c : Held)
    → Uses (λ i. c i + one (some dp) i) (name_of dp buf_len de) (λ _. c)
unfolding name_of
name_of-Uses dp buf_len none c = bind-Uses (iput-Uses (some dp) c) (λ _. pure-Uses _ (λ _. c))
name_of-Uses dp buf_len (some de) c = bind-Uses (iput-Uses (some dp) c) (λ _. pure-Uses _ (λ _. c))

name_of-Leaves : (dp buf_len : ℕ) (de : Option Bytes) → Leaves (name_of dp buf_len de)
unfolding name_of
name_of-Leaves dp buf_len none = search caching depth 20
name_of-Leaves dp buf_len (some de) = search caching depth 20

size_of-Uses :
    (dp : ℕ) (de : Option Bytes) (c : Held)
    → Uses (λ i. c i + one (some dp) i) (size_of dp de) (λ _. c)
unfolding size_of
size_of-Uses dp none c = bind-Uses (iput-Uses (some dp) c) (λ _. pure-Uses _ (λ _. c))
size_of-Uses dp (some de) c = bind-Uses (iget-Uses 0 _ _) (λ ip.
    bind-Uses ((ilock-Keeps (some ip)).all _) (λ _. bind-Uses ((inode_of-Keeps ip).all _) (λ n.
      bind-Uses (iput-Uses (some ip) (λ i. c i + one (some dp) i))
        (λ _. bind-Uses (iput-Uses (some dp) c) (λ _. pure-Uses _ (λ _. c))))))

size_of-Leaves : (dp : ℕ) (de : Option Bytes) → Leaves (size_of dp de)
unfolding size_of
size_of-Leaves dp none = search caching depth 20
size_of-Leaves dp (some de) = search caching depth 20

pub fs_get_file_name-Uses :
    (index buf_len : ℤ) (c : Held) → Uses c (fs_get_file_name index buf_len) (λ _. c)
unfolding fs_get_file_name
fs_get_file_name-Uses index (pos (suc n)) c =
    bind-Uses (root_entry-Uses index c) (λ (dp, de). name_of-Uses dp (suc n) de c)
fs_get_file_name-Uses index (pos zero) c = pure-Uses _ (λ _. c)
fs_get_file_name-Uses index (negsuc _) c = pure-Uses _ (λ _. c)

pub fs_get_file_name-Leaves : (index buf_len : ℤ) → Leaves (fs_get_file_name index buf_len)
unfolding fs_get_file_name
fs_get_file_name-Leaves index (pos (suc n)) =
    search (leaving, root_entry-Leaves, name_of-Leaves) depth 20
fs_get_file_name-Leaves index (pos zero) = pure-Leaves _
fs_get_file_name-Leaves index (negsuc _) = pure-Leaves _

pub fs_get_file_size-Uses : (index : ℤ) (c : Held) → Uses c (fs_get_file_size index) (λ _. c)
unfolding fs_get_file_size
fs_get_file_size-Uses index c =
    bind-Uses (root_entry-Uses index c) (λ (dp, de). size_of-Uses dp de c)

pub fs_get_file_size-Leaves : (index : ℤ) → Leaves (fs_get_file_size index)
unfolding fs_get_file_size
fs_get_file_size-Leaves index = search (leaving, root_entry-Leaves, size_of-Leaves) depth 20
