-- ===== src/Holders/Io.antt =====
-- The references behind fs_read, fs_write, fs_lseek and fs_ftruncate of kernel/fs.c.
use dmaos.Base.{
  ℕ, zero, suc, ◌<◌, ◌≡◌, refl, Option, none, some, arith, List, Bytes, ℤ, pos, negsuc,
}
use dmaos.Machine.{Kernel, File, FileDescType, fd_none, fd_inode, fd_console, ok, waiting}
use dmaos.Machine.Consts.{global_open_file_limit}
use dmaos.Machine.Post.{Post, either, returned, bind}
use dmaos.Inode.Cache.{count}
use dmaos.Inode.Uses.{Held, Keeps, keeps, keeping, pure-Keeps}
use dmaos.Tables.{Leaves, leaving, pure-Leaves, SameTables}
use dmaos.Tables.Content.{readi-Leaves, writei-Leaves, itrunc-Leaves}
use dmaos.Content.Uses.{readi-Keeps, writei-Keeps, itrunc-Keeps}
use dmaos.Inode.{inode_of}
use dmaos.Files.{set_file, update_file}
use dmaos.Fd.{is_none_type}
use dmaos.Io.{
  next_char, set_input, get_byte, console_read, advance, read_by_type, read_entry, fs_read, put_out,
  write_by_type, write_entry, fs_write, seek_to, seek_inode, seek_entry, fs_lseek, truncate_by_type,
  truncate_entry, fs_ftruncate,
}
use dmaos.Holders.{none_held, IsSound, set_file-IsSound, sound}
use dmaos.Holders.Files.{held_offset}
use dmaos.Holders.Fd.{current-IsSound, fd_entry-below}

get_byte-Leaves : Leaves get_byte
unfolding get_byte
get_byte-Leaves = record { same = λ k r k' h. go k (next_char k.input) h }
  where
    go :
        (k : Kernel) (o : Option (ℕ × List ℤ)) {r : ℕ} {k' : Kernel}
        → elim o [ none ↦ waiting | some (c, input) ↦ ok c (set_input input k) ] ≡ ok r k'
        → SameTables k k'
    go k none h = cc
    go k (some (c, input)) h = ground arith

get_byte-Keeps : Keeps get_byte
unfolding get_byte
get_byte-Keeps = keeps (λ k r k' i h. go k (next_char k.input) i h)
  where
    go :
        (k : Kernel) (o : Option (ℕ × List ℤ)) {r : ℕ} {k' : Kernel} (i : ℕ)
        → elim o [ none ↦ waiting | some (c, input) ↦ ok c (set_input input k) ] ≡ ok r k'
        → count k' i ≡ count k i
    go k none i h = cc
    go k (some (c, input)) i h = ground arith

pub get_byte-Guards :
    (k : Kernel) → IsSound none_held k → Post (λ _ k'. IsSound none_held k') (get_byte k)
get_byte-Guards k s = sound (get_byte-Keeps.all none_held) get_byte-Leaves s

console_read-Leaves : (n i : ℕ) (buf : Bytes) → Leaves (console_read n i buf)
unfolding console_read
console_read-Leaves zero i buf = pure-Leaves _
console_read-Leaves (suc n) i buf =
    search (leaving, get_byte-Leaves, console_read-Leaves n) depth 20

console_read-Keeps : (n i : ℕ) (buf : Bytes) → Keeps (console_read n i buf)
unfolding console_read
console_read-Keeps zero i buf = pure-Keeps _
console_read-Keeps (suc n) i buf = search (keeping, get_byte-Keeps, console_read-Keeps n) depth 20

put_out-Leaves : (bytes : List ℕ) → Leaves (put_out bytes)
unfolding put_out
put_out-Leaves bytes = record { same = λ k r k' h. ground arith }

put_out-Keeps : (bytes : List ℕ) → Keeps (put_out bytes)
unfolding put_out
put_out-Keeps bytes = keeps (λ k r k' i h. ground arith)

-- The offset of a file holds nothing.
set_offset-IsSound :
    {c : Held} (f off : ℕ) (k : Kernel)
    → f < global_open_file_limit
    → IsSound c k
    → IsSound c (set_file f (record (k.file_table f) { off = off }) k)
set_offset-IsSound f off k lt s =
    set_file-IsSound f (record (k.file_table f) { off = off }) lt
      (λ i. let x = held_offset (k.file_table f) off i in omega arith) s

advance-IsSound :
    {c : Held} (f : ℕ) (r : ℤ) (k : Kernel)
    → f < global_open_file_limit
    → IsSound c k
    → Post (λ _ k'. IsSound c k') (advance f r k)
unfolding advance update_file
advance-IsSound f (pos r) k lt s = returned (set_offset-IsSound f _ k lt s)
advance-IsSound f (negsuc r) k lt s = returned s

read_by_type-IsSound :
    {c : Held} (f : ℕ) (v : File) (type : FileDescType) (buf : Bytes) (n : ℤ) (k : Kernel)
    → f < global_open_file_limit
    → IsSound c k
    → Post (λ _ k'. IsSound c k') (read_by_type f v type buf n k)
unfolding read_by_type
read_by_type-IsSound f v fd_none buf n k lt s = returned s
read_by_type-IsSound f v fd_console buf n k lt s =
    bind (sound ((console_read-Keeps _ 0 buf).all _) (console_read-Leaves _ 0 buf) s)
      (λ b k' s'. returned s')
read_by_type-IsSound f v fd_inode buf n k lt s =
    bind (sound ((readi-Keeps v.ip buf v.off _).all _) (readi-Leaves v.ip buf v.off _) s)
      (λ (r, b) k' s'. bind (advance-IsSound f r k' lt s') (λ _ k2 s2. returned s2))

read_entry-IsSound :
    {c : Held} (f : Option ℕ) (buf : Bytes) (n : ℤ) (k : Kernel)
    → ((j : ℕ) → f ≡ some j → j < global_open_file_limit)
    → IsSound c k
    → Post (λ _ k'. IsSound c k') (read_entry f buf n k)
unfolding read_entry
read_entry-IsSound none buf n k below s = returned s
read_entry-IsSound (some f) buf n k below s =
    either (is_none_type (k.file_table f).type) _ _ (returned s) (
      either (k.file_table f).readable _ _ (read_by_type-IsSound f _ _ buf n k (below f refl) s)
        (returned s))

pub fs_read-IsSound :
    {c : Held} (fd : ℤ) (buf : Bytes) (n : ℤ) (k : Kernel)
    → IsSound c k
    → Post (λ _ k'. IsSound c k') (fs_read fd buf n k)
unfolding fs_read
fs_read-IsSound fd buf n k s = bind (current-IsSound k s) (λ p k' (s', lp, same).
    read_entry-IsSound _ buf n k' (λ j e. fd_entry-below k' p fd lp s' e) s')

write_by_type-IsSound :
    {c : Held} (f : ℕ) (v : File) (type : FileDescType) (buf : Bytes) (n : ℤ) (k : Kernel)
    → f < global_open_file_limit
    → IsSound c k
    → Post (λ _ k'. IsSound c k') (write_by_type f v type buf n k)
unfolding write_by_type
write_by_type-IsSound f v fd_none buf n k lt s = returned s
write_by_type-IsSound f v fd_console buf n k lt s =
    bind (sound ((put_out-Keeps _).all _) (put_out-Leaves _) s) (λ _ k' s'. returned s')
write_by_type-IsSound f v fd_inode buf n k lt s =
    bind (sound ((writei-Keeps v.ip buf v.off _).all _) (writei-Leaves v.ip buf v.off _) s)
      (λ w k' s'. bind (advance-IsSound f w k' lt s') (λ _ k2 s2. returned s2))

write_entry-IsSound :
    {c : Held} (f : Option ℕ) (buf : Bytes) (n : ℤ) (k : Kernel)
    → ((j : ℕ) → f ≡ some j → j < global_open_file_limit)
    → IsSound c k
    → Post (λ _ k'. IsSound c k') (write_entry f buf n k)
unfolding write_entry
write_entry-IsSound none buf n k below s = returned s
write_entry-IsSound (some f) buf n k below s =
    either (is_none_type (k.file_table f).type) _ _ (returned s) (
      either (k.file_table f).writable _ _ (write_by_type-IsSound f _ _ buf n k (below f refl) s)
        (returned s))

pub fs_write-IsSound :
    {c : Held} (fd : ℤ) (buf : Bytes) (n : ℤ) (k : Kernel)
    → IsSound c k
    → Post (λ _ k'. IsSound c k') (fs_write fd buf n k)
unfolding fs_write
fs_write-IsSound fd buf n k s = bind (current-IsSound k s) (λ p k' (s', lp, same).
    write_entry-IsSound _ buf n k' (λ j e. fd_entry-below k' p fd lp s' e) s')

seek_to-IsSound :
    {c : Held} (f : ℕ) (target : Option ℤ) (k : Kernel)
    → f < global_open_file_limit
    → IsSound c k
    → Post (λ _ k'. IsSound c k') (seek_to f target k)
unfolding seek_to update_file
seek_to-IsSound f none k lt s = returned s
seek_to-IsSound f (some (negsuc _)) k lt s = returned s
seek_to-IsSound f (some (pos off)) k lt s = returned (set_offset-IsSound f off k lt s)

seek_inode-IsSound :
    {c : Held} (f : ℕ) (ip : Option ℕ) (offset whence : ℤ) (k : Kernel)
    → f < global_open_file_limit
    → IsSound c k
    → Post (λ _ k'. IsSound c k') (seek_inode f ip offset whence k)
unfolding seek_inode inode_of
seek_inode-IsSound f none offset whence k lt s = returned s
seek_inode-IsSound f (some ip) offset whence k lt s = seek_to-IsSound f _ k lt s

seek_entry-IsSound :
    {c : Held} (f : Option ℕ) (offset whence : ℤ) (k : Kernel)
    → ((j : ℕ) → f ≡ some j → j < global_open_file_limit)
    → IsSound c k
    → Post (λ _ k'. IsSound c k') (seek_entry f offset whence k)
unfolding seek_entry
seek_entry-IsSound none offset whence k below s = returned s
seek_entry-IsSound (some f) offset whence k below s =
    seek_inode-IsSound f (k.file_table f).ip offset whence k (below f refl) s

pub fs_lseek-IsSound :
    {c : Held} (fd offset whence : ℤ) (k : Kernel)
    → IsSound c k
    → Post (λ _ k'. IsSound c k') (fs_lseek fd offset whence k)
unfolding fs_lseek
fs_lseek-IsSound fd offset whence k s = bind (current-IsSound k s) (λ p k' (s', lp, same).
    seek_entry-IsSound _ offset whence k' (λ j e. fd_entry-below k' p fd lp s' e) s')

truncate_by_type-IsSound :
    {c : Held} (v : File) (type : FileDescType) (length : ℤ) (k : Kernel)
    → IsSound c k
    → Post (λ _ k'. IsSound c k') (truncate_by_type v type length k)
unfolding truncate_by_type
truncate_by_type-IsSound v fd_none length k s = returned s
truncate_by_type-IsSound v fd_console length k s = returned s
truncate_by_type-IsSound v fd_inode (negsuc _) k s = returned s
truncate_by_type-IsSound v fd_inode (pos n) k s =
    bind (sound ((itrunc-Keeps v.ip n).all _) (itrunc-Leaves v.ip n) s) (λ _ k' s'. returned s')

truncate_entry-IsSound :
    {c : Held} (f : Option ℕ) (length : ℤ) (k : Kernel)
    → IsSound c k
    → Post (λ _ k'. IsSound c k') (truncate_entry f length k)
unfolding truncate_entry
truncate_entry-IsSound none length k s = returned s
truncate_entry-IsSound (some f) length k s =
    either (k.file_table f).writable _ _ (truncate_by_type-IsSound _ _ length k s) (returned s)

pub fs_ftruncate-IsSound :
    {c : Held} (fd length : ℤ) (k : Kernel)
    → IsSound c k
    → Post (λ _ k'. IsSound c k') (fs_ftruncate fd length k)
unfolding fs_ftruncate
fs_ftruncate-IsSound fd length k s =
    bind (current-IsSound k s) (λ p k' (s', lp, same). truncate_entry-IsSound _ length k' s')
