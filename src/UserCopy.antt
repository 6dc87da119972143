-- ===== src/UserCopy.antt =====
-- The copies between the kernel and the memory of a user program in handle_syscall of kernel/kernel.c.
-- `t1` is the page table in force, through which the kernel reads and writes that memory.
pub mod Effects
use dmaos.Base.{
  ℕ, zero, suc, ◌+◌, ◌-◌, ◌*◌, ◌/◌, ◌%◌, ◌^◌, ltb, leb, ◌==◌, if◌then◌else◌, Bool, true, false, not,
  ◌&&◌, Option, none, some, List, [], ◌∷◌, ◌++◌, Bytes, take, length, ℤ, pos, negsuc, is_neg,
  pattern32, bit_and,
}
use dmaos.Machine.{Kernel, Process, M, pure, ◌>>=◌, ◌>>◌, get_state, modify}
use dmaos.Machine.Consts.{page_size, max_path, err_invalid_argument, minus_one, filectrl_create}
use dmaos.Inode.{iput}
use dmaos.PageTable.{leaf, entry_addr, set_byte}
use dmaos.UserMem.{
  user_byte, user_top, validate_user_string, validate_user_write_buffer, validate_user_read_buffer,
  sbrk,
}
use dmaos.Files.{has_flag}
use dmaos.Fd.{current, set_process, fs_open, fs_create, fs_close, count_of}
use dmaos.Io.{fs_read, fs_write, fs_lseek, fs_ftruncate, bytes_out}
use dmaos.FsTree.{fs_mkdir, fs_rm, fs_stat, fs_chdir}
use dmaos.Listing.{fs_get_file_name, fs_get_file_size}
use dmaos.Normalize.{fs_normalize_path}

-- The bytes from `va` on up to the NUL.
unfoldable pub string_from : (ℕ → ℕ) → ℕ → ℕ → ℕ → List ℕ
string_from words t1 zero va = []
string_from words t1 (suc rounds) va =
    let rest = string_from words t1 rounds (va + 1) in
    if user_byte words t1 va == 0 then [] else user_byte words t1 va ∷ rest

abbrev pub user_string : Kernel → ℕ → ℕ → List ℕ
user_string k t1 va = string_from k.words t1 (user_top - va) va

abbrev pub store_byte : ℕ → ℕ → ℕ → Kernel → Kernel
store_byte t1 va b k = set_byte (entry_addr (leaf k.words t1 va) + va % page_size) b k

unfoldable pub store : ℕ → ℕ → List ℕ → M (Unit {0})
store t1 va [] = pure tt
store t1 va (b ∷ bytes) = do modify (store_byte t1 va b); store t1 (va + 1) bytes

-- `n > 0`.
abbrev pub is_pos : ℤ → Bool
is_pos (pos n) = ltb 0 n
is_pos (negsuc _) = false

-- An `int` or a `uint32_t` of 4 bytes, little-endian.
abbrev pub int_bytes : ℕ → List ℕ
int_bytes n = n % 256 ∷ n / 256 % 256 ∷ n / 65536 % 256 ∷ n / 16777216 % 256 ∷ []
