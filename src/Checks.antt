-- ===== src/Checks.antt =====
-- Small machines on which the definitions are run.
pub mod Files
pub mod Memory
pub mod Programs
pub mod Shell
pub mod Tool
pub mod Strings
pub mod Holders
pub mod Messages
pub mod User
pub mod Snake
use dmaos.Base.{
  ℕ, ◌+◌, ◌==◌, ◌≡◌, refl, if◌then◌else◌, Bool, true, false, Option, none, some, List, [], ◌∷◌, ℤ,
  pos, Bytes,
}
use dmaos.Machine.{
  Kernel, Run, ok, panic, waiting, File, fd_none, Process, unused, Superblock, Mount,
}
use dmaos.Inode.Cache.{count, one}
use dmaos.FsTree.{cleared_inode}
use dmaos.Names.{
  namex, namex_loop, namex_round, start_inode, reopen, cwd_of, skipto, skip_slashes, component,
  after_component, walk, mount_parent, or_lookup, arrive, cross_mount, switch_root, find_mount,
  path_end, follow, climb,
}
use dmaos.Inode.{ilock, iget, iget_scan, iput, decode_dinode}
use dmaos.Block.{read_block, read_device, read_write_device}
use dmaos.Dir.{dirlookup, dir_scan, found_inode}
use dmaos.Content.{readi, readi_loop}
use dmaos.Bmap.{bmap}
use dmaos.Str.{strcmp, strncmp}
use dmaos.Names.Refs.{namex-one}
use dmaos.Base.{◌*◌, ◌-◌, ◌/◌, ◌≤◌, ◌<◌, ◌≢◌, ◌↔◌, ◌++◌, take, length, replicate, arith, copy_bytes}
use dmaos.Machine.Consts.{num_pages, page_size}
use dmaos.Machine.Post.{Post}
use dmaos.Inode.Cache.{Got, iget-Got}
use dmaos.Page.{alloc_pages, free_pages, first_run, run_free, page_addr, taken}
use dmaos.Page.Alloc.{IsFree, alloc_pages-first, alloc_pages-succeeds, free_pages-alloc_pages}
use dmaos.PageTable.{
  entry_has, slot, vpn1, page_v, second_level, leaf, entry_addr, map_page, ensure_table,
}
use dmaos.PageTable.Map.{IsRam, IsTable, Apart, map_page-leaf}
use dmaos.Str.{memmove, is_zero, strncat, strncpy, head_of, strstr, strstr_from, strlen}
use dmaos.Str.Memory.{memmove-copy_bytes}
use dmaos.Str.Compare.{
  IsString, strcmp-zero_iff, strncmp-zero_iff, strncat-append, strncpy-pads, FirstAt, Starts,
  strstr-FirstAt,
}

abbrev pub state_of {ℓ} : {A : Type ℓ} → Kernel → Run A → Kernel
state_of k (ok a k') = k'
state_of k panic = k
state_of k waiting = k

abbrev pub value_of {ℓ} : {A : Type ℓ} → A → Run A → A
value_of d (ok a k') = a
value_of d panic = d
value_of d waiting = d

-- Device 0 with its inodes in block 2. The root, inode 1, has one entry: the directory `bin`,
-- inode 2.
abbrev pub inode_bytes : Bytes
inode_bytes o =
    if o == 128
    then 1
    else if o == 136
    then 32
    else if o == 140
    then 5
    else if o == 256
    then 1
    else 0

abbrev pub root_bytes : Bytes
root_bytes o =
    if o == 0
    then 2
    else if o == 2
    then b'b'
    else if o == 3
    then b'i'
    else if o == 4
    then b'n'
    else 0

-- Blocks 0 to 7 are in use.
abbrev pub map_bytes : Bytes
map_bytes o = if o == 0 then 255 else 0

abbrev pub disk : ℕ → ℕ → Bytes
disk dev sector =
    if sector == 4
    then inode_bytes
    else if sector == 6
    then map_bytes
    else if sector == 10
    then root_bytes
    else (λ o. 0)

abbrev pub no_file : File
no_file = record { ref = 0; type = fd_none; readable = false; writable = false; ip = none; off = 0 }

abbrev pub no_process : Process
no_process = record {
  pid = 0;
  state = unused;
  exit_code = pos 0;
  page_table = 0;
  cwd = none;
  heap_start = 0;
  heap_end = 0;
  ofile = λ _. none;
  name = [];
  cwd_path = [];
}

abbrev pub machine : Kernel
machine = record {
  sb = λ _. record {
    magic = 0;
    size = 50;
    nblocks = 50;
    ninodes = 8;
    inodestart = 2;
    bmapstart = 3;
  };
  inode_table = λ _. cleared_inode;
  mounts = λ _. record { parent_dev = 0; parent_inum = 0; child_dev = 0 };
  num_mounts = 0;
  file_table = λ _. no_file;
  procs = λ _. no_process;
  current_proc = none;
  idle_proc = none;
  page_allocated = λ _. false;
  kmesg = record { len = 0; buf = λ _. 0 };
  input_dev = record { avail_ring = λ i. i; avail_index = 16; last_used_index = 0 };
  used = record {
    index = 0;
    id = λ _. 0;
    events = λ _. record { event_type = 0; code = 0; value = 0 };
  };
  framebuffer = λ _. 0;
  words = λ _. 0;
  sectors = disk;
  capacity = λ _. 100;
  status = λ _ _. 0;
  input = [];
  output = [];
}

abbrev pub bin_path : List ℕ
bin_path = b'/' ∷ b'b' ∷ b'i' ∷ b'n' ∷ []

-- Device 1, with the same contents, mounted at `/bin`.
abbrev pub mounted : Kernel
mounted = record machine {
  mounts = λ _. record { parent_dev = 0; parent_inum = 2; child_dev = 1 };
  num_mounts = 1;
}

abbrev pub new_path : List ℕ
new_path = b'/' ∷ b'b' ∷ b'i' ∷ b'n' ∷ b'/' ∷ b'n' ∷ []

abbrev pub old_path : List ℕ
old_path = b'/' ∷ b'b' ∷ b'i' ∷ b'n' ∷ b'/' ∷ b'b' ∷ b'i' ∷ b'n' ∷ []
