-- ===== src/Machine.antt =====
-- The kernel's static data and the machine below it, and the monad of the code that runs on them.
-- A pointer into a static table (`inode_table`, `file_table`, `procs`) is the index of the entry,
-- and `none` for NULL. A table is a function of its index; the code's loops stay below its size.
pub mod Post
pub mod Consts
use dmaos.Base.{ℕ, Bool, false, Option, none, List, [], ℤ, pos, Bytes}

-- `struct dinode`, shared/fs_shared.h. Its padding to 128 bytes is never read.
pub record Dinode : Type 0 where
  pub type : ℕ
  pub major : ℕ
  pub minor : ℕ
  pub nlink : ℕ
  pub size : ℕ
  pub addrs : ℕ → ℕ

-- `struct inode`, kernel/fs.h.
pub record Inode : Type 0 where
  pub dev : ℕ
  pub inum : ℕ
  pub ref : ℕ
  pub valid : Bool
  pub dinode : Dinode

-- `struct superblock`, shared/fs_shared.h.
pub record Superblock : Type 0 where
  pub magic : ℕ
  pub size : ℕ
  pub nblocks : ℕ
  pub ninodes : ℕ
  pub inodestart : ℕ
  pub bmapstart : ℕ

-- `struct mount`, kernel/fs.c.
pub record Mount : Type 0 where
  pub parent_dev : ℕ
  pub parent_inum : ℕ
  pub child_dev : ℕ

-- `enum FileDescType`, kernel/file.h.
pub data FileDescType : Type 0 where
  fd_none fd_inode fd_console : FileDescType

-- `struct File`, kernel/file.h.
pub record File : Type 0 where
  pub ref : ℕ
  pub type : FileDescType
  pub readable : Bool
  pub writable : Bool
  pub ip : Option ℕ
  pub off : ℕ

-- `enum ProcState`, kernel/process.h.
pub data ProcState : Type 0 where
  unused runnable exited : ProcState

-- `struct Process`, kernel/process.h, without the saved stack pointer and the kernel stack.
pub record Process : Type 0 where
  pub pid : ℕ
  pub state : ProcState
  pub exit_code : ℤ
  pub page_table : ℕ
  pub cwd : Option ℕ
  pub heap_start : ℕ
  pub heap_end : ℕ
  pub ofile : ℕ → Option ℕ
  pub name : List ℕ
  pub cwd_path : List ℕ

-- `kmesg_len` and `kmesg_buf`, kernel/kernel.c.
pub record Kmesg : Type 0 where
  pub len : ℕ
  pub buf : Bytes

-- `struct virtio_input_event`, kernel/virtio.c.
pub record InputEvent : Type 0 where
  pub event_type : ℕ
  pub code : ℕ
  pub value : ℕ

-- What the keyboard writes: its index, the ids in its ring, and the events.
pub record Used : Type 0 where
  pub index : ℕ
  pub id : ℕ → ℕ
  pub events : ℕ → InputEvent

-- What the driver of the keyboard writes: the available ring and how far it has read the used one.
pub record Queue : Type 0 where
  pub avail_ring : ℕ → ℕ
  pub avail_index : ℕ
  pub last_used_index : ℕ

-- The static data of fs.c, file.c, process.c, page.c, kernel.c and virtio.c; the frame buffer; what the
-- keyboard has written; the two disks, by device, sector and
-- byte, with the number of sectors and the status byte with which the device ends a request; the
-- words of physical memory; what the console sends and what it was sent.
pub record Kernel : Type 0 where
  pub sb : ℕ → Superblock
  pub inode_table : ℕ → Inode
  pub mounts : ℕ → Mount
  pub num_mounts : ℕ
  pub file_table : ℕ → File
  pub procs : ℕ → Process
  pub current_proc : Option ℕ
  pub idle_proc : Option ℕ
  pub page_allocated : ℕ → Bool
  pub kmesg : Kmesg
  pub input_dev : Queue
  pub used : Used
  pub framebuffer : ℕ → ℕ
  pub words : ℕ → ℕ
  pub sectors : ℕ → ℕ → Bytes
  pub capacity : ℕ → ℕ
  pub status : ℕ → ℕ → ℕ
  pub input : List ℤ
  pub output : List ℕ

-- What a run ends in: a result and the kernel's new state; PANIC, which shuts the machine down; or
-- a wait for the console that nothing in `input` ends.
pub data Run {ℓ} (A : Type ℓ) : Type ℓ where
  ok : A → Kernel → Run A
  panic : Run A
  waiting : Run A

abbrev pub M {ℓ} : Type ℓ → Type ℓ
M A = Kernel → Run A

abbrev pub pure {ℓ} : {A : Type ℓ} → A → M A
pure a k = ok a k

-- `PANIC(...)`.
abbrev pub stop {ℓ} : {A : Type ℓ} → M A
stop k = panic

abbrev pub and_then {ℓ κ} : {A : Type ℓ} {B : Type κ} → Run A → (A → M B) → Run B
and_then (ok a k) f = f a k
and_then panic f = panic
and_then waiting f = waiting

infixl 5 ◌>>=◌ ◌>>◌
abbrev pub ◌>>=◌ {ℓ κ} : {A : Type ℓ} {B : Type κ} → M A → (A → M B) → M B
◌>>=◌ m f k = and_then (m k) f

abbrev pub ◌>>◌ {ℓ κ} : {A : Type ℓ} {B : Type κ} → M A → M B → M B
m >> n = m >>= λ _. n

abbrev pub get_state : M Kernel
get_state k = ok k k

abbrev pub modify : (Kernel → Kernel) → M (Unit {0})
modify f k = ok tt (f k)
