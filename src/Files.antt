-- ===== src/Files.antt =====
-- The table of open files: kernel/file.c.
use dmaos.Base.{
  ℕ, zero, suc, ◌+◌, ◌-◌, ◌==◌, if◌then◌else◌, Bool, false, not, Option, none, some, upd, bit_and,
}
use dmaos.Machine.{
  Kernel, File, FileDescType, fd_none, M, pure, stop, ◌>>=◌, ◌>>◌, get_state, modify,
}
use dmaos.Machine.Consts.{global_open_file_limit, filectrl_readonly, filectrl_writeonly}
use dmaos.Inode.{iput}

abbrev pub set_file : ℕ → File → Kernel → Kernel
set_file f v k = record k { file_table = upd k.file_table f v }

-- `(flags & mask) != 0`.
abbrev pub has_flag : ℕ → ℕ → Bool
has_flag flags mask = not (bit_and flags mask == 0)

abbrev pub empty_file : File
empty_file = record {
  ref = 0;
  type = fd_none;
  readable = false;
  writable = false;
  ip = none;
  off = 0;
}

abbrev pub file_init : Kernel → Kernel
file_init k = record k { file_table = λ _. empty_file }

-- The first of the `rounds` slots from `i` on without a reference.
unfoldable pub free_slot : (ℕ → File) → ℕ → ℕ → Option ℕ
free_slot table zero i = none
free_slot table (suc rounds) i =
    let rest = free_slot table rounds (i + 1) in if (table i).ref == 0 then some i else rest

-- `f->... = ...`.
unfoldable pub update_file : ℕ → (File → File) → M (Unit {0})
update_file f change k = modify (set_file f (change (k.file_table f))) k

unfoldable pub take_file : Option ℕ → M (Option ℕ)
take_file none = pure none
take_file (some i) = do update_file i (λ v. record empty_file { ref = 1 }); pure (some i)

unfoldable pub file_alloc : M (Option ℕ)
file_alloc = do k ← get_state; take_file (free_slot k.file_table global_open_file_limit 0)

abbrev pub opened : FileDescType → ℕ → File → File
opened type flags v = record v {
  type = type;
  readable = has_flag flags filectrl_readonly;
  writable = has_flag flags filectrl_writeonly;
  ip = none;
  off = 0;
}

unfoldable pub fill_file : FileDescType → ℕ → Option ℕ → M (Option ℕ)
fill_file type flags none = pure none
fill_file type flags (some f) = do update_file f (opened type flags); pure (some f)

unfoldable pub file_create : FileDescType → ℕ → M (Option ℕ)
file_create type flags = do f ← file_alloc; fill_file type flags f

unfoldable pub file_dup : Option ℕ → M (Option ℕ)
file_dup none = pure none
file_dup (some f) = do
  k ← get_state
  if (k.file_table f).ref == 0
      then stop
      else (do update_file f (λ v. record v { ref = v.ref + 1 }); pure (some f))

-- The last reference is given up: the inode goes first.
unfoldable pub release_file : ℕ → Option ℕ → M (Unit {0})
release_file f ip = do iput ip; update_file f (λ v. record v { ref = 0; ip = none; type = fd_none })

unfoldable pub file_close : Option ℕ → M (Unit {0})
file_close none = pure tt
file_close (some f) = do
  k ← get_state
  if (k.file_table f).ref == 0
      then stop
      else if (k.file_table f).ref == 1
      then release_file f (k.file_table f).ip
      else update_file f (λ v. record v { ref = v.ref - 1 })
