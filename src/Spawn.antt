-- ===== src/Spawn.antt =====
-- New processes: create_process and spawn_process of kernel/process.c. `kernel_base` is the linker's
-- symbol. The saved registers on the kernel stack are no part of the model of a process.
pub mod Effects
pub mod Load
pub mod Create
use dmaos.Base.{
  ℕ, zero, suc, ◌+◌, ◌-◌, ◌*◌, ◌/◌, ◌%◌, leb, ltb, ◌==◌, if◌then◌else◌, Bool, true, not, ◌&&◌,
  Option, none, some, List, [], ◌∷◌, ◌++◌, take, drop, length, bit_or, sub32, ℤ, pos,
}
use dmaos.Machine.{
  Kernel, Process, runnable, fd_console, M, pure, stop, ◌>>=◌, ◌>>◌, get_state, modify,
}
use dmaos.Machine.Consts.{
  procs_max, page_size, user_base, filectrl_readonly, filectrl_writeonly, max_path, minus_one,
}
use dmaos.Inode.{inode_of, iget, iput}
use dmaos.Content.{readi}
use dmaos.Names.{namei, slash}
use dmaos.FsTree.{fs_get_inode_size}
use dmaos.Files.{file_create, file_close}
use dmaos.Fd.{set_process, set_ofile}
use dmaos.Io.{bytes_out}
use dmaos.Page.{alloc_pages, free_pages, free_ram_end}
use dmaos.PageTable.{page_r, page_w, page_x, page_u, map_page, set_byte, set_word}
use dmaos.Process.{is_unused, argv_of}

-- The first of the `rounds` slots from `i` on without a process.
unfoldable pub unused_slot : (ℕ → Process) → ℕ → ℕ → Option ℕ
unused_slot procs zero i = none
unused_slot procs (suc rounds) i =
    let rest = unused_slot procs rounds (i + 1) in
    if is_unused (procs i).state then some i else rest

-- The three files of the console, or none of them.
unfoldable pub set_console : ℕ → Option ℕ → Option ℕ → Option ℕ → M (Unit {0})
set_console p (some f0) (some f1) (some f2) = do
  modify (set_ofile p 0 (some f0))
  modify (set_ofile p 1 (some f1))
  modify (set_ofile p 2 (some f2))
set_console p f0 f1 f2 = do file_close f0; file_close f1; file_close f2

unfoldable pub open_standard : ℕ → M (Unit {0})
open_standard p = do
  f0 ← file_create fd_console filectrl_readonly
  f1 ← file_create fd_console filectrl_writeonly
  f2 ← file_create fd_console filectrl_writeonly
  set_console p f0 f1 f2

abbrev pub with_cwd : ℕ → ℕ → List ℕ → Kernel → Kernel
with_cwd p ip path k =
    set_process p (record (k.procs p) { cwd = some ip; cwd_path = take (max_path - 1) path }) k

-- The directory of the current process, or the root.
unfoldable pub inherit_cwd : ℕ → Option ℕ → List ℕ → M (Unit {0})
inherit_cwd p none path = do ip ← iget 0 1; modify (with_cwd p ip (slash ∷ []))
inherit_cwd p (some c) path = do n ← inode_of c; ip ← iget n.dev n.inum; modify (with_cwd p ip path)

-- `current_proc->cwd` and `current_proc->cwd_path`, if there is a current process.
unfoldable pub parent_cwd : ℕ → Option ℕ → M (Unit {0})
parent_cwd p none = inherit_cwd p none []
parent_cwd p (some q) = do k ← get_state; inherit_cwd p (k.procs q).cwd (k.procs q).cwd_path

abbrev pub all_access : ℕ
all_access = bit_or (bit_or page_r page_w) page_x

-- `memcpy` to a physical address.
unfoldable pub put_bytes : ℕ → List ℕ → M (Unit {0})
put_bytes paddr [] = pure tt
put_bytes paddr (b ∷ bytes) = do modify (set_byte paddr b); put_bytes (paddr + 1) bytes

-- `argv_array[j] = ...`.
unfoldable pub put_words : ℕ → List ℕ → M (Unit {0})
put_words paddr [] = pure tt
put_words paddr (w ∷ words) = do modify (set_word paddr w); put_words (paddr + 4) words

-- The bytes of the program from `off` on, into the page.
unfoldable pub copy_image : List ℕ → Option ℕ → ℕ → ℕ → ℕ → M (Unit {0})
copy_image image (some ip) page off n = do
  (_, b) ← readi (some ip) (λ _. 0) off n
  put_bytes page (bytes_out b n 0)
copy_image image none page off n = put_bytes page (take n (drop off image))

-- The strings below the top of the stack, the last one first: the pointer and where each begins.
unfoldable pub push_strings : ℕ → List (List ℕ) → M (ℕ × List ℕ)
push_strings sp [] = pure (sp, [])
push_strings sp (arg ∷ args) = do
  (above, starts) ← push_strings sp args
  let start = sub32 above (length arg + 1)
  put_bytes start (arg ++ (0 ∷ []))
  pure (start, start ∷ starts)

-- The addresses at which the program finds the strings.
abbrev pub user_addrs : ℕ → ℕ → List ℕ → List ℕ
user_addrs top user_top [] = []
user_addrs top user_top (start ∷ starts) =
    sub32 user_top (sub32 top start) ∷ user_addrs top user_top starts

-- The arguments in the last page: the strings, and the array of pointers with its NULL below them.
unfoldable pub push_args : ℕ → ℕ → List (List ℕ) → M (Unit {0})
push_args size last_page args = do
  let rest = size % page_size
  let top = last_page + (if rest == 0 then page_size else rest)
  (sp, starts) ← push_strings top args
  put_words (sub32 (sp / 16 * 16) ((length args + 1) * 4))
      (user_addrs top (user_base + size) starts ++ (0 ∷ []))

abbrev pub idle_name : List ℕ
idle_name = b'i' ∷ b'd' ∷ b'l' ∷ b'e' ∷ b'/' ∷ b'i' ∷ b'n' ∷ b'i' ∷ b't' ∷ []

-- The first 15 bytes of `argv[0]`, if there is one.
abbrev pub name_from : List (List ℕ) → List ℕ
name_from [] = idle_name
name_from (arg ∷ args) = take 15 arg

abbrev pub started : ℕ → ℕ → ℕ → List (List ℕ) → Process → Process
started p page_table size args v = record v {
  pid = p + 1;
  state = runnable;
  page_table = page_table;
  heap_start = user_base + (size + page_size - 1) / page_size * page_size;
  heap_end = user_base + (size + page_size - 1) / page_size * page_size;
  name = name_from args;
}

module _ (free_ram kernel_base : ℕ) where
  unfoldable pub map_kernel : ℕ → ℕ → ℕ → M (Unit {0})
  map_kernel t1 zero paddr = pure tt
  map_kernel t1 (suc rounds) paddr = do
    map_page free_ram t1 paddr paddr all_access
    map_kernel t1 rounds (paddr + page_size)

  -- The kernel's pages, and those of the two disks and the keyboard.
  unfoldable pub kernel_space : ℕ → M (Unit {0})
  kernel_space t1 = do
    map_kernel t1 ((free_ram_end free_ram - kernel_base + page_size - 1) / page_size) kernel_base
    map_page free_ram t1 0x10001000 0x10001000 (bit_or page_r page_w)
    map_page free_ram t1 0x10002000 0x10002000 (bit_or page_r page_w)
    map_page free_ram t1 0x10003000 0x10003000 (bit_or page_r page_w)

  -- The pages of the program; the result is the last one, and 0 if there is none.
  unfoldable pub load_pages : ℕ → List ℕ → Option ℕ → ℕ → ℕ → ℕ → ℕ → M ℕ
  load_pages t1 image ip size zero off last_page = pure last_page
  load_pages t1 image ip size (suc rounds) off last_page = do
    page ← alloc_pages free_ram 1
    copy_image image ip page off (if leb page_size (size - off) then page_size else size - off)
    map_page free_ram t1 (user_base + off) page (bit_or page_u all_access)
    load_pages t1 image ip size rounds (off + page_size)
        (if leb size (off + page_size) then page else last_page)

  -- The rest of `create_process`, from the loop over the pages on.
  unfoldable pub load_program : ℕ → ℕ → List ℕ → Option ℕ → ℕ → List (List ℕ) → M (Option ℕ)
  load_program p t1 image ip size args = do
    last_page ← load_pages t1 image ip size ((size + page_size - 1) / page_size) 0 0
    iput ip
    if ltb 0 (length args) && not (last_page == 0) then push_args size last_page args else pure tt
    modify (λ k. set_process p (started p t1 size args (k.procs p)) k)
    pure (some p)

  -- Without an image the program is the file that `argv[0]` names.
  unfoldable pub open_program : ℕ → ℕ → List (List ℕ) → Option ℕ → M (Option ℕ)
  open_program p t1 args none = do free_pages free_ram t1 1; pure none
  open_program p t1 args (some ip) = do
    size ← fs_get_inode_size (some ip)
    load_program p t1 [] (some ip) size args

  unfoldable pub find_program : ℕ → ℕ → Option (List ℕ) → List (List ℕ) → M (Option ℕ)
  find_program p t1 (some image) args = load_program p t1 image none (length image) args
  find_program p t1 none [] = load_program p t1 [] none 0 []
  find_program p t1 none (arg ∷ args) = do ip ← namei arg; open_program p t1 (arg ∷ args) ip

  abbrev pub is_program : Option (List ℕ) → List (List ℕ) → Bool
  is_program (some image) args = true
  is_program none args = ltb 0 (length args)

  unfoldable pub fill_slot : Option (List ℕ) → List (List ℕ) → Option ℕ → M (Option ℕ)
  fill_slot image args none = stop
  fill_slot image args (some p) = do
    modify (λ k. set_process p (record (k.procs p) { ofile = λ _. none }) k)
    if is_program image args then open_standard p else pure tt
    k ← get_state
    parent_cwd p k.current_proc
    t1 ← alloc_pages free_ram 1
    kernel_space t1
    find_program p t1 image args

  -- The slot of the new process, if there is one.
  unfoldable pub create_process : Option (List ℕ) → List (List ℕ) → M (Option ℕ)
  create_process image args = do
    k ← get_state
    fill_slot image args (unused_slot k.procs procs_max 0)

  unfoldable pub process_init : M (Unit {0})
  process_init = do
    p ← create_process none []
    elim p [
      | none ↦ stop
      | some p ↦ modify (λ k. record (set_process p (record (k.procs p) { pid = 0 }) k) {
        idle_proc = some p;
        current_proc = some p;
      })
    ]

  unfoldable pub pid_of : Option ℕ → M ℤ
  pid_of none = pure minus_one
  pid_of (some p) = do k ← get_state; pure (pos (k.procs p).pid)

  unfoldable pub spawn_args : List (List ℕ) → M ℤ
  spawn_args [] = pure minus_one
  spawn_args (arg ∷ args) = do p ← create_process none (arg ∷ args); pid_of p

  unfoldable pub spawn_process : List ℕ → M ℤ
  spawn_process cmdline = spawn_args (argv_of cmdline)
