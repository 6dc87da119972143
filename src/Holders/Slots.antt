-- ===== src/Holders/Slots.antt =====
-- The slots of the inode cache that open files name, kernel/fs.c.
use dmaos.Base.{ℕ, ◌<◌, ◌≡◌, refl, inl, inr, some, arith}
use native.Mathlib.Decide.{ℕ_discrete}
use dmaos.Machine.{Kernel}
use dmaos.Machine.Consts.{global_open_file_limit}
use dmaos.Machine.Post.{Post, mono}
use dmaos.Inode.{iget, bump_ref}
use dmaos.Inode.Cache.{one, count, iget-Got}
use dmaos.Holders.{none_held, owned, sum_to-member, IsSound, file_holds}
use dmaos.Holders.Files.{in_use}

-- An inode that an open file names is counted.
open_file-counted :
    (k : Kernel) (f i : ℕ)
    → IsSound none_held k
    → f < global_open_file_limit
    → 0 < (k.file_table f).ref
    → (k.file_table f).ip ≡ some i
    → 0 < count k i
unfolding owned
open_file-counted k f i s lt used e =
    let x = sum_to-member global_open_file_limit f (λ f. file_holds (k.file_table f) i) lt in
    let y = s.accounts i in
    let z = in_use (k.file_table f) i used in
    let w : one (k.file_table f).ip i ≡ 1 = rw e (ground arith) in omega arith

-- The slot holds the inode that it held, as valid as it was.
abbrev pub SameInode : Kernel → ℕ → ℕ → Kernel → Type 0
SameInode k i ip k' =
    ((k'.inode_table i).dev ≡ (k.inode_table i).dev)
    × (((k'.inode_table i).inum ≡ (k.inode_table i).inum)
        × ((k'.inode_table i).valid ≡ (k.inode_table i).valid))

-- While the references counted are those of the open files and the current directories, `iget` gives the slot
-- of an inode that an open file names to no other inode, and does not have it loaded again.
pub iget-open_file :
    (dev inum : ℕ) (k : Kernel) (f i : ℕ)
    → IsSound none_held k
    → f < global_open_file_limit
    → 0 < (k.file_table f).ref
    → (k.file_table f).ip ≡ some i
    → Post (SameInode k i) (iget dev inum k)
iget-open_file dev inum k f i s lt used e = mono (iget-Got dev inum k) (λ ip k' got.
    elim (ℕ_discrete i ip) [
      | yes same ↦ elim (got.cached) [
        | inl (_, bumped) ↦
            let at : k'.inode_table i ≡ bump_ref (k.inode_table i) = rw same bumped in
            rw at (refl, (refl, refl))
        | inr (_, (free, _)) ↦
            let counted : 0 < count k ip = rw same at (open_file-counted k f i s lt used e) in
            absurd (omega arith)
      ]
      | no other ↦ let at = got.others i other in rw at (refl, (refl, refl))
    ])
