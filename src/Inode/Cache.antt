-- ===== src/Inode/Cache.antt =====
-- The table of inodes behind iget of kernel/fs.c, and its reference counts.
use dmaos.Base.{
  ℕ, zero, suc, ◌+◌, ◌≤◌, ◌<◌, ◌≡◌, refl, ◌≢◌, ◌⊎◌, inl, inr, Bool-cases, ltb, ◌==◌, if◌then◌else◌,
  ◌&&◌, Option, none, some, arith, subst, upd_self, ap, false,
}
use native.Mathlib.Decide.{dec_lt}
use dmaos.Machine.{Kernel, Inode, ok, panic}
use dmaos.Machine.Consts.{ninode}
use dmaos.Machine.Post.{Post, returned, panicked}
use dmaos.Inode.{iget_scan, iget, set_inode, bump_ref, claimed}

-- The slot is in use for the inode.
abbrev pub Holds : Inode → ℕ → ℕ → Type 0
Holds n dev inum = (0 < n.ref) × (n.dev ≡ dev) × (n.inum ≡ inum)

-- Reference counts.
abbrev pub count : Kernel → ℕ → ℕ
count k i = (k.inode_table i).ref

-- One reference to the inode that the pointer names.
abbrev pub one : Option ℕ → ℕ → ℕ
one none i = 0
one (some j) i = if i == j then 1 else 0

-- The result of `iget` and the state it leaves: a slot below the table's end with the device and
-- number asked for, with one reference more; all other slots as they were. The slot held the inode
-- before and only its count changes, or no slot held it and one that was free will be loaded again.
pub record Got (dev inum : ℕ) (k : Kernel) (ip : ℕ) (k' : Kernel) : Type 0 where
  pub in_table : ip < ninode
  pub key : ((k'.inode_table ip).dev ≡ dev) × ((k'.inode_table ip).inum ≡ inum)
  pub cached :
      (Holds (k.inode_table ip) dev inum × (k'.inode_table ip ≡ bump_ref (k.inode_table ip)))
      ⊎ (((j : ℕ) → j < ninode → ¬ Holds (k.inode_table j) dev inum)
          × ((count k ip ≡ 0) × ((k'.inode_table ip).valid ≡ false)))
  pub counts : (i : ℕ) → count k' i ≡ count k i + one (some ip) i
  pub others : (i : ℕ) → i ≢ ip → k'.inode_table i ≡ k.inode_table i

-- A scan of the table from `i` on, with a slot already noted or not.
iget_scan-found :
    (table : ℕ → Inode) (dev inum rounds i : ℕ) (empty : Option ℕ) (r : ℕ)
    → iget_scan table dev inum rounds i empty ≡ inl r
    → (r < i + rounds) × Holds (table r) dev inum
unfolding iget_scan
iget_scan-found table dev inum zero i empty r h = cc
iget_scan-found table dev inum (suc rounds) i empty r h =
    elim (Bool-cases (ltb 0 (table i).ref && ((table i).dev == dev && (table i).inum == inum))) [
      | inl e ↦
          let at : i ≡ r = ground arith in
          (omega arith, subst (λ j. Holds (table j) dev inum) at (ground arith))
      | inr e ↦
          let ih =
            iget_scan-found table dev inum rounds (i + 1)
              (elim empty [ none ↦ if (table i).ref == 0 then some i else none | some e ↦ some e ])
              r (rw e at h) in
          (omega arith, ih.1)
    ]

-- A noted slot is free and lies in the table.
abbrev IsNoted : (ℕ → Inode) → ℕ → Option ℕ → Type 0
IsNoted table hi none = Unit
IsNoted table hi (some e) = (e < hi) × ((table e).ref ≡ 0)

abbrev note : (ℕ → Inode) → ℕ → Option ℕ → Option ℕ
note table i none = if (table i).ref == 0 then some i else none
note table i (some e) = some e

note-IsNoted :
    (table : ℕ → Inode) (hi i : ℕ) (empty : Option ℕ)
    → i < hi
    → IsNoted table hi empty
    → IsNoted table hi (note table i empty)
note-IsNoted table hi i (some e) h n = n
note-IsNoted table hi i none h n = elim (Bool-cases ((table i).ref == 0)) [
  | inl e ↦ rw e (h, ground arith)
  | inr e ↦ rw e tt
]

iget_scan-free :
    (table : ℕ → Inode) (dev inum rounds i hi : ℕ) (empty r : Option ℕ)
    → i + rounds ≤ hi
    → IsNoted table hi empty
    → iget_scan table dev inum rounds i empty ≡ inr r
    → IsNoted table hi r × ((j : ℕ) → i ≤ j → j < i + rounds → ¬ Holds (table j) dev inum)
unfolding iget_scan
iget_scan-free table dev inum zero i hi empty r le n h =
    let same : empty ≡ r = ground arith in
    (subst (IsNoted table hi) same n, λ j p q. absurd (omega arith))
iget_scan-free table dev inum (suc rounds) i hi empty r le n h =
    elim (Bool-cases (ltb 0 (table i).ref && ((table i).dev == dev && (table i).inum == inum))) [
      | inl e ↦ ground arith
      | inr e ↦
          let n' = note-IsNoted table hi i empty (omega arith) n in
          let ih =
            iget_scan-free table dev inum rounds (i + 1) hi (note table i empty) r (omega arith) n'
              (step empty (rw e at h)) in
          (
            ih.0,
            λ j p q held. elim (dec_lt i j) [
              | yes lt ↦ ih.1 j (omega arith) (omega arith) held
              | no ge ↦
                  let same : j ≡ i = omega arith in
                  let held' : Holds (table i) dev inum =
                    subst (λ x. Holds (table x) dev inum) same held in
                  ground arith
            ],
          )
    ]
  where
    step :
        (o : Option ℕ)
        → iget_scan table dev inum rounds
            (i + 1)
            (elim o [ none ↦ if (table i).ref == 0 then some i else none | some e ↦ some e ])
          ≡ inr r
        → iget_scan table dev inum rounds (i + 1) (note table i o) ≡ inr r
    step none p = p
    step (some _) p = p

bump-Got :
    (dev inum i : ℕ) (k : Kernel)
    → i < ninode
    → Holds (k.inode_table i) dev inum
    → Got dev inum k i (set_inode i (bump_ref (k.inode_table i)) k)
bump-Got dev inum i k lt h = record {
  in_table = lt;
  key = ground arith;
  cached = inl (h, upd_self k.inode_table i _);
  counts = λ j. ground arith;
  others = λ j ne. ground arith;
}

claim-Got :
    (dev inum i : ℕ) (k : Kernel)
    → i < ninode
    → (k.inode_table i).ref ≡ 0
    → ((j : ℕ) → j < ninode → ¬ Holds (k.inode_table j) dev inum)
    → Got dev inum k i (set_inode i (claimed (k.inode_table i) dev inum) k)
claim-Got dev inum i k lt free nowhere = record {
  in_table = lt;
  key = ground arith;
  cached = inr (nowhere, (free, ap (λ n. n.valid) (upd_self k.inode_table i _)));
  counts = λ j. ground arith;
  others = λ j ne. ground arith;
}

-- If `iget` does not PANIC, it returns a slot that holds the inode and has counted one reference; every
-- other slot is as it was. If a slot held the inode already, that slot is returned with only the count
-- changed; if none did, the slot had no reference and is marked to be loaded from the disk.
pub iget-Got : (dev inum : ℕ) (k : Kernel) → Post (Got dev inum k) (iget dev inum k)
unfolding iget
iget-Got dev inum k = go (iget_scan k.inode_table dev inum ninode 0 none) refl
  where
    go :
        (r : ℕ ⊎ Option ℕ)
        → iget_scan k.inode_table dev inum ninode 0 none ≡ r
        → Post (Got dev inum k) (elim r [
          | inl i ↦ ok i (set_inode i (bump_ref (k.inode_table i)) k)
          | inr none ↦ panic
          | inr (some e) ↦ ok e (set_inode e (claimed (k.inode_table e) dev inum) k)
        ])
    go (inl i) e =
        let f = iget_scan-found k.inode_table dev inum ninode 0 none i e in
        returned (bump-Got dev inum i k f.0 f.1)
    go (inr none) e = panicked
    go (inr (some i)) e =
        let f =
          iget_scan-free k.inode_table dev inum ninode 0 ninode none (some i) (omega arith) tt e in
        returned (claim-Got dev inum i k f.0.0 f.0.1 (λ j lt. f.1 j (omega arith) (omega arith)))

iget_scan-full :
    (table : ℕ → Inode) (dev inum rounds i : ℕ) (empty : Option ℕ)
    → iget_scan table dev inum rounds i empty ≡ inr none
    → (empty ≡ none) × ((j : ℕ) → i ≤ j → j < i + rounds → 0 < (table j).ref)
unfolding iget_scan
iget_scan-full table dev inum zero i empty h = (ground arith, λ j p q. absurd (omega arith))
iget_scan-full table dev inum (suc rounds) i (some e) h =
    elim (Bool-cases (ltb 0 (table i).ref && ((table i).dev == dev && (table i).inum == inum))) [
      | inl t ↦ ground arith
      | inr t ↦
          let ih = iget_scan-full table dev inum rounds (i + 1) (some e) (rw t at h) in
          absurd (let no = ih.0 in cc)
    ]
iget_scan-full table dev inum (suc rounds) i none h =
    elim (Bool-cases (ltb 0 (table i).ref && ((table i).dev == dev && (table i).inum == inum))) [
      | inl t ↦ ground arith
      | inr t ↦ elim (Bool-cases ((table i).ref == 0)) [
        | inl z ↦
            let ih = iget_scan-full table dev inum rounds (i + 1) (some i) (rw (t, z) at h) in
            absurd (let no = ih.0 in cc)
        | inr z ↦
            let ih = iget_scan-full table dev inum rounds (i + 1) none (rw (t, z) at h) in
            (
              refl,
              λ j p q. elim (dec_lt i j) [
                | yes lt ↦ ih.1 j (omega arith) (omega arith)
                | no ge ↦
                    let same : i ≡ j = omega arith in
                    subst (λ x. 0 < (table x).ref) same (ground arith)
              ],
            )
      ]
    ]

-- `iget` does not PANIC while a slot of the table has no reference.
pub iget-succeeds :
    (dev inum : ℕ) (k : Kernel) (i : ℕ) → i < ninode → count k i ≡ 0 → iget dev inum k ≢ panic
unfolding iget
iget-succeeds dev inum k i lt free = go (iget_scan k.inode_table dev inum ninode 0 none) refl
  where
    go :
        (r : ℕ ⊎ Option ℕ)
        → iget_scan k.inode_table dev inum ninode 0 none ≡ r
        → (elim r [
          | inl i ↦ ok i (set_inode i (bump_ref (k.inode_table i)) k)
          | inr none ↦ panic
          | inr (some e) ↦ ok e (set_inode e (claimed (k.inode_table e) dev inum) k)
        ])
          ≢ panic
    go (inl j) e h = cc
    go (inr none) e h =
        let used =
          (iget_scan-full k.inode_table dev inum ninode 0 none e).1 i (omega arith) (omega arith) in
        omega arith
    go (inr (some j)) e h = cc
