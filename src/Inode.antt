-- ===== src/Inode.antt =====
-- The cache of inodes and their blocks on disk: iget, iput, ilock, iupdate and ialloc of
-- kernel/fs.c.
pub mod Cache
pub mod Uses
use dmaos.Base.{
  ℕ, zero, suc, ◌+◌, ◌-◌, ◌*◌, ◌/◌, ◌%◌, ltb, ◌==◌, if◌then◌else◌, true, false, ◌&&◌, Option, none,
  some, ◌⊎◌, inl, inr, Bytes, get16, put16, get32, put32, upd,
}
use dmaos.Machine.{Kernel, Inode, Dinode, M, pure, stop, ◌>>=◌, ◌>>◌, get_state, modify}
use dmaos.Machine.Consts.{ninode, bsize, sizeof_dinode, ft_unused}
use dmaos.Block.{read_block, write_block}

-- The scan of `iget`: the slot that holds the inode, or else the first slot that is free.
unfoldable pub iget_scan : (ℕ → Inode) → ℕ → ℕ → ℕ → ℕ → Option ℕ → ℕ ⊎ Option ℕ
iget_scan table dev inum zero i empty = inr empty
iget_scan table dev inum (suc rounds) i empty =
    let rest =
      iget_scan table dev inum rounds (i + 1)
        (elim empty [ none ↦ if (table i).ref == 0 then some i else none | some e ↦ some e ]) in
    if ltb 0 (table i).ref && ((table i).dev == dev && (table i).inum == inum) then inl i else rest

abbrev pub set_inode : ℕ → Inode → Kernel → Kernel
set_inode ip v k = record k { inode_table = upd k.inode_table ip v }

-- The entry of a pointer that is not NULL.
unfoldable pub inode_of : ℕ → M Inode
inode_of ip k = pure (k.inode_table ip) k

-- `ip->... = ...`.
unfoldable pub update_inode : ℕ → (Inode → Inode) → M (Unit {0})
update_inode ip change k = modify (set_inode ip (change (k.inode_table ip))) k

abbrev pub bump_ref : Inode → Inode
bump_ref n = record n { ref = n.ref + 1 }

abbrev pub claimed : Inode → ℕ → ℕ → Inode
claimed n dev inum = record n { dev = dev; inum = inum; ref = 1; valid = false }

unfoldable pub iget : ℕ → ℕ → M ℕ
iget dev inum k = elim (iget_scan k.inode_table dev inum ninode 0 none) [
  | inl i ↦ pure i (set_inode i (bump_ref (k.inode_table i)) k)
  | inr none ↦ stop k
  | inr (some e) ↦ pure e (set_inode e (claimed (k.inode_table e) dev inum) k)
]

-- The decrement runs only at a positive count.
unfoldable pub iput : Option ℕ → M (Unit {0})
iput none = pure tt
iput (some ip) = do
  n ← inode_of ip
  if n.ref == 0 then stop else modify (set_inode ip (record n { ref = n.ref - 1 }))

-- `memcpy` between the 128 bytes at `dip` and the structure in memory.
unfoldable pub decode_dinode : Bytes → ℕ → Dinode
decode_dinode buf at = record {
  type = get16 buf at;
  major = get16 buf (at + 2);
  minor = get16 buf (at + 4);
  nlink = get16 buf (at + 6);
  size = get32 buf (at + 8);
  addrs = λ i. get32 buf (at + 12 + 4 * i);
}

-- Writes the words of `addrs` from index `i` on.
unfoldable pub put_addrs : Bytes → ℕ → (ℕ → ℕ) → ℕ → ℕ → Bytes
put_addrs buf at addrs zero i = buf
put_addrs buf at addrs (suc rounds) i =
    put_addrs (put32 buf (at + 4 * i) (addrs i)) at addrs rounds (i + 1)

unfoldable pub encode_dinode : Bytes → ℕ → Dinode → Bytes
encode_dinode buf at d =
    put_addrs
      (put32
        (put16 (put16 (put16 (put16 buf at d.type) (at + 2) d.major) (at + 4) d.minor) (at + 6)
          d.nlink)
        (at + 8) d.size)
      (at + 12) d.addrs 14 0

-- Where inode `inum` lies: its block, and the offset in that block.
abbrev pub inodes_per_block : ℕ
inodes_per_block = bsize / sizeof_dinode

abbrev pub inode_block : Kernel → ℕ → ℕ → ℕ
inode_block k dev inum = (k.sb dev).inodestart + inum / inodes_per_block

abbrev pub inode_offset : ℕ → ℕ
inode_offset inum = (inum % inodes_per_block) * sizeof_dinode

-- PANIC on NULL and on an entry without references.
unfoldable pub ilock : Option ℕ → M (Unit {0})
ilock none = stop
ilock (some ip) = do
  k ← get_state
  let n = k.inode_table ip
  let load = do
    buf ← read_block n.dev (inode_block k n.dev n.inum)
    modify
        (set_inode ip (record n { valid = true; dinode = decode_dinode buf (inode_offset n.inum) }))
  if n.ref == 0 then stop else if n.valid then pure tt else load

unfoldable pub iupdate : ℕ → M (Unit {0})
iupdate ip = do
  k ← get_state
  let n = k.inode_table ip
  let block = inode_block k n.dev n.inum
  buf ← read_block n.dev block
  write_block n.dev block (encode_dinode buf (inode_offset n.inum) n.dinode)

-- A fresh file or directory inode, in memory and (but for padding) on disk.
abbrev pub new_dinode : ℕ → Dinode
new_dinode type = record { type = type; major = 0; minor = 0; nlink = 1; size = 0; addrs = λ _. 0 }

abbrev pub initialised : Inode → ℕ → Inode
initialised n type = record n {
  valid = true;
  dinode = record (n.dinode) { type = type; nlink = 1; size = 0; addrs = λ _. 0 };
}

-- The loop of `ialloc`, from inode `inum` on. `none` is NULL: no inode of the disk is unused.
unfoldable pub ialloc_scan : ℕ → ℕ → ℕ → ℕ → M (Option ℕ)
ialloc_scan dev type zero inum = pure none
ialloc_scan dev type (suc rounds) inum = do
  k ← get_state
  let block = inode_block k dev inum
  let at = inode_offset inum
  buf ← read_block dev block
  let take_it = do
    write_block dev block (encode_dinode buf at (new_dinode type))
    ip ← iget dev inum
    update_inode ip (λ n. initialised n type)
    pure (some ip)
  if get16 buf at == ft_unused then take_it else ialloc_scan dev type rounds (inum + 1)

-- `for (inum = 1; inum < ninodes; ++inum)`.
unfoldable pub ialloc : ℕ → ℕ → M (Option ℕ)
ialloc dev type = do k ← get_state; ialloc_scan dev type ((k.sb dev).ninodes - 1) 1
