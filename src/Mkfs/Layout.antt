-- ===== src/Mkfs/Layout.antt =====
-- What an image of tools/mkfs.c holds in the end.
use dmaos.Base.{
  ℕ, zero, suc, ◌+◌, ◌≤◌, ◌<◌, ◌≡◌, ◌==◌, leb, refl, subst, some, Bool, true, ◌∙◌, ◌%◌, ◌^◌,
  bit_and, Option, upd_self, arith,
}
use dmaos.Base.Bits.{every, every-holds}
use dmaos.Bitmap.{bit_clear}
use dmaos.Mkfs.{Mkfs}
use dmaos.Mkfs.Store.{disk_size_blocks, mark_allocated, write_block}
use dmaos.Mkfs.Image.{
  Host, make_image, write_all, mark_metadata, write_bitmap, zeroed, sb_buf, sb_bmapstart,
}
use dmaos.Mkfs.Marks.{
  Ends, ended, exited, bind, IsMarked, mark_bit-bytes, mark_bit-next, write_block-Marks,
}
use dmaos.Mkfs.Marked.{traverse_dir-Marks, write_dirs-Marks, write_inodes-Marks, make_root-Marks}

-- The blocks below `i` are marked.
record IsMarkedTo (i : ℕ) (s : Mkfs) : Type 0 where
  pub bytes : (j : ℕ) → s.free_bitmap j < 256
  pub bits : (b : ℕ) → bit_clear s.free_bitmap b ≡ leb i b
  pub next : s.freeblock ≡ 7

mark_metadata-IsMarkedTo :
    (rounds i : ℕ) (s : Mkfs)
    → IsMarkedTo i s
    → Ends (λ _ s'. IsMarkedTo (i + rounds) s') (mark_metadata rounds i s)
unfolding mark_metadata mark_allocated
mark_metadata-IsMarkedTo zero i s h = let e : i + 0 ≡ i = omega arith in rw e (ended h)
mark_metadata-IsMarkedTo (suc rounds) i s h =
    let e : i + suc rounds ≡ i + 1 + rounds = omega arith in
    rw e (
      mark_metadata-IsMarkedTo rounds (i + 1) _ (record {
        bytes = mark_bit-bytes s.free_bitmap i h.bytes;
        bits = mark_bit-next s.free_bitmap i h.bytes h.bits;
        next = h.next;
      }))

-- No bit of a map of zeros is set.
abbrev zero_test : ℕ → Bool
zero_test n = bit_and 0 (2 ^ n) == 0

zero_test-every : every zero_test 8 ≡ true
unfolding every
zero_test-every = refl

zeroed-IsMarkedTo : IsMarkedTo 0 zeroed
unfolding zeroed
zeroed-IsMarkedTo = record {
  bytes = λ j. omega arith;
  bits = λ b. every-holds zero_test 8 (b % 8) (omega arith) zero_test-every ∙ ground arith;
  next = refl;
}

IsMarkedTo-IsMarked : (s : Mkfs) → IsMarkedTo 7 s → IsMarked s
IsMarkedTo-IsMarked s h = record {
  bytes = h.bytes;
  bits = λ b. rw h.next (h.bits b);
  fits = omega (arith, h.next);
}

-- The free map on the disk is the one in memory.
abbrev IsStored : Mkfs → Type 0
IsStored s = IsMarked s × (s.disk sb_bmapstart ≡ s.free_bitmap)

write_bitmap-IsStored : (s : Mkfs) → IsMarked s → Ends (λ _ s'. IsStored s') (write_bitmap s)
unfolding write_bitmap write_block
write_bitmap-IsStored s h =
    ended
      (record { bytes = h.bytes; bits = h.bits; fits = h.fits }, upd_self s.disk 6 s.free_bitmap)

write_all-IsStored : (s : Mkfs) → IsMarked s → Ends (λ _ s'. IsStored s') (write_all s)
unfolding write_all
write_all-IsStored s h =
    bind (write_dirs-Marks s.dirs s h)
      (λ _ s1 h1. bind (write_inodes-Marks 4 2 s1 h1) (λ _ s2 h2. write_bitmap-IsStored s2 h2))

make_image-Ends : (host : Host) → Ends (λ _ s. IsStored s) (make_image host zeroed)
unfolding make_image
make_image-Ends host = bind (mark_metadata-IsMarkedTo 7 0 zeroed zeroed-IsMarkedTo) (λ _ s1 h1.
    bind (write_block-Marks 1 sb_buf s1 (IsMarkedTo-IsMarked s1 h1)) (λ _ s2 h2.
      bind (make_root-Marks s2 h2)
        (λ _ s3 h3. bind (traverse_dir-Marks host _ s3 h3) (λ _ s4 h4. write_all-IsStored s4 h4))))

same-state :
    {s s' : Mkfs} → ◌≡◌ {A = Option (Unit {0} × Mkfs)} (some (tt, s)) (some (tt, s')) → s ≡ s'
same-state h = cc

-- A run that made an image.
ends-result :
    {P : Mkfs → Type 0} {r : Option (Unit {0} × Mkfs)} {s : Mkfs}
    → Ends (λ _ s. P s) r
    → r ≡ some (tt, s)
    → P s
ends-result {P} (ended p) e = subst P (same-state e) p
ends-result exited e = cc

-- In every image that `mkfs` makes, whatever the host's files are, the free map in block 6 marks the blocks that
-- were handed out, those below the next one, and no others; there are at most 8192 of them.
pub make_image-bit_clear :
    (host : Host) (s : Mkfs)
    → make_image host zeroed ≡ some (tt, s)
    → ((b : ℕ) → bit_clear (s.disk sb_bmapstart) b ≡ leb s.freeblock b)
      × (s.freeblock ≤ disk_size_blocks)
make_image-bit_clear host s e =
    let (h, stored) = ends-result (make_image-Ends host) e in ((λ b. rw stored (h.bits b)), h.fits)
