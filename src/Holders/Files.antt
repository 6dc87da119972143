-- ===== src/Holders/Files.antt =====
-- The references behind file_create and file_close of kernel/file.c.
use dmaos.Base.{
  ℕ, zero, suc, ◌+◌, ◌-◌, ◌<◌, ◌≡◌, ◌==◌, ◌∙◌, refl, false, ap, subst, inl, inr, Bool-cases, Option,
  none, some, arith, upd_self,
}
use dmaos.Machine.{fd_none, Kernel, File, FileDescType}
use dmaos.Machine.Consts.{global_open_file_limit}
use dmaos.Machine.Post.{Post, returned, panicked, bind}
use dmaos.Inode.Cache.{one}
use dmaos.Inode.Uses.{Held}
use dmaos.Files.{
  empty_file, set_file, free_slot, update_file, take_file, file_alloc, fill_file, file_create,
  release_file, file_close, opened,
}
use dmaos.Holders.{IsSound, file_holds, set_file-IsSound, iput-IsOff}

-- A file is new: it has one reference and no inode.
pub record IsNew (f : ℕ) (k : Kernel) : Type 0 where
  pub in_table : f < global_open_file_limit
  pub ref : (k.file_table f).ref ≡ 1
  pub ip : (k.file_table f).ip ≡ none

abbrev pub AreNew : Option ℕ → Kernel → Type 0
AreNew none k = Unit
AreNew (some f) k = IsNew f k

free_slot-free :
    (table : ℕ → File) (rounds i : ℕ) {f : ℕ}
    → free_slot table rounds i ≡ some f
    → (f < i + rounds) × ((table f).ref ≡ 0)
unfolding free_slot
free_slot-free table zero i h = cc
free_slot-free table (suc rounds) i {f} h = elim (Bool-cases ((table i).ref == 0)) [
  | inl e ↦
      let h' = rw e at h in
      let same : i ≡ f = cc in (omega arith, subst (λ j. (table j).ref ≡ 0) same (ground arith))
  | inr e ↦ let ih = free_slot-free table rounds (i + 1) (rw e at h) in (omega arith, ih.1)
]

-- A file without an inode holds nothing.
no_inode : (v : File) (i : ℕ) → v.ip ≡ none → file_holds v i ≡ 0
unfolding file_holds
no_inode v i e = rw e (ground arith)

-- A file in use holds its inode.
pub in_use : (v : File) (i : ℕ) → 0 < v.ref → file_holds v i ≡ one v.ip i
unfolding file_holds
in_use v i h = ground arith

unused : (v : File) (i : ℕ) → v.ref ≡ 0 → file_holds v i ≡ 0
unfolding file_holds
unused v i e = rw e refl

-- The offset of a file is no part of what it holds.
pub held_offset :
    (v : File) (off : ℕ) (i : ℕ) → file_holds (record v { off = off }) i ≡ file_holds v i
unfolding file_holds
held_offset v off i = refl

take_file-IsSound :
    {c : Held} (f : Option ℕ) (k : Kernel)
    → ((j : ℕ) → f ≡ some j → (j < global_open_file_limit) × ((k.file_table j).ref ≡ 0))
    → IsSound c k
    → Post (λ r k'. IsSound c k' × AreNew r k') (take_file f k)
unfolding take_file update_file
take_file-IsSound none k free s = returned (s, tt)
take_file-IsSound (some f) k free s =
    let (lt, none_yet) = free f refl in
    returned (
      set_file-IsSound f _ lt
          (λ i.
            let x = no_inode (record empty_file { ref = 1 }) i refl in
            let y = unused (k.file_table f) i none_yet in omega arith)
          s,
      record {
        in_table = lt;
        ref = ap (λ v. v.ref) (upd_self k.file_table f _);
        ip = ap (λ v. v.ip) (upd_self k.file_table f _);
      },
    )

file_alloc-IsSound :
    {c : Held} (k : Kernel) → IsSound c k → Post (λ r k'. IsSound c k' × AreNew r k') (file_alloc k)
unfolding file_alloc
file_alloc-IsSound k s =
    take_file-IsSound _ k (λ j e. free_slot-free k.file_table global_open_file_limit 0 e) s

fill_file-IsSound :
    {c : Held} (type : FileDescType) (flags : ℕ) (f : Option ℕ) (k : Kernel)
    → IsSound c k × AreNew f k
    → Post (λ r k'. IsSound c k' × AreNew r k') (fill_file type flags f k)
unfolding fill_file update_file
fill_file-IsSound type flags none k (s, n) = returned (s, tt)
fill_file-IsSound type flags (some f) k (s, n) =
    let v = opened type flags (k.file_table f) in
    let self = upd_self k.file_table f v in
    returned (
      set_file-IsSound f v n.in_table
          (λ i.
            let x = no_inode v i refl in let y = no_inode (k.file_table f) i n.ip in omega arith)
          s,
      record {
        in_table = n.in_table;
        ref = ap (λ v. v.ref) self ∙ n.ref;
        ip = ap (λ v. v.ip) self;
      },
    )

-- A new file takes no reference of the inode cache.
pub file_create-IsSound :
    {c : Held} (type : FileDescType) (flags : ℕ) (k : Kernel)
    → IsSound c k
    → Post (λ r k'. IsSound c k' × AreNew r k') (file_create type flags k)
unfolding file_create
file_create-IsSound type flags k s =
    bind (file_alloc-IsSound k s) (λ f k'. fill_file-IsSound type flags f k')

-- The references of a file that is given up pass to the code.
release_file-IsSound :
    {c : Held} (f : ℕ) (ip : Option ℕ) (k : Kernel)
    → f < global_open_file_limit
    → (k.file_table f).ip ≡ ip
    → (k.file_table f).ref ≡ 1
    → IsSound c k
    → Post (λ r k'. IsSound c k') (release_file f ip k)
unfolding release_file update_file
release_file-IsSound {c} f ip k lt e one_left s =
    bind (iput-IsOff ip s) (λ _ k' (off, (x, _, _, _)).
      let v = k'.file_table f in
      let v' = record v { ref = 0; ip = none; type = fd_none } in
      let was : k'.file_table f ≡ k.file_table f = ap (λ t. t f) x in
      let used : 0 < v.ref = rw was (rw one_left (omega arith)) in
      let holds : v.ip ≡ ip = rw was e in
      returned (
        set_file-IsSound f v' lt
          (λ i.
            let a = no_inode v' i refl in
            let b = in_use v i used in let d = ap (λ o. one o i) holds in omega arith)
          off))

-- `file_close` gives back the reference that the file held, if it was the last.
pub file_close-IsSound :
    {c : Held} (f : ℕ) (k : Kernel)
    → f < global_open_file_limit
    → IsSound c k
    → Post (λ r k'. IsSound c k') (file_close (some f) k)
unfolding file_close update_file
file_close-IsSound {c} f k lt s = elim (Bool-cases ((k.file_table f).ref == 0)) [
  | inl e ↦ rw e panicked
  | inr e ↦ elim (Bool-cases ((k.file_table f).ref == 1)) [
    | inl e1 ↦ rw (e, e1) (release_file-IsSound f _ k lt refl (ground arith) s)
    | inr e1 ↦ rw (e, e1) (returned (fewer e e1))
  ]
]
  where
    fewer :
        ((k.file_table f).ref == 0) ≡ false
        → ((k.file_table f).ref == 1) ≡ false
        → IsSound c (set_file f (record (k.file_table f) { ref = (k.file_table f).ref - 1 }) k)
    fewer e e1 =
        let v = record (k.file_table f) { ref = (k.file_table f).ref - 1 } in
        let used : 0 < (k.file_table f).ref = ground arith in
        let used' : 0 < (k.file_table f).ref - 1 = ground arith in
        set_file-IsSound f v lt
          (λ i. let a = in_use v i used' in let b = in_use (k.file_table f) i used in omega arith) s
