-- ===== src/Lib.antt =====
-- dmaOS: a RISC-V kernel with an xv6-like file system on two virtio disks, SV32 paging, processes and
-- a small user space.
--
-- The parts and the files that model them (paths from the repository's root):
--  * Machine, Machine/Consts: the static data of kernel/fs.c, kernel/file.c, kernel/process.c and
--    kernel/page.c, and the buffers of kernel/kernel.c and kernel/virtio.c, as one record `Kernel`, with
--    the two disks and physical memory; the monad `M` of code that
--    changes it. A run returns (`ok`), ends in PANIC (`panic`) or waits for the console (`waiting`).
--    Machine/Post: rules for what holds after a run. A pointer into a static table is an index, NULL
--    is `none`.
--  * Block, Block/Laws: read_write_device of kernel/virtio.c, read_block and write_block of kernel/fs.c.
--  * Inode, Inode/Cache: iget, iput, ilock, iupdate, ialloc of kernel/fs.c. Inode/Uses: the calculus of
--    references; the other modules called Uses apply it.
--  * Bitmap, Bitmap/Bits: balloc, bfree. Bmap: bmap, bmap_alloc. Content, Content/Uses: readi, writei,
--    itrunc.
--  * Dir, Dir/Uses: dirlookup, dirlink, is_dir_empty. Names, Names/Refs, Names/Enough:
--    skipto, namex, namei.
--  * Files: kernel/file.c. Fd: fs_create, fs_open, fs_close and the table of descriptors. Io:
--    fs_read, fs_write, fs_lseek, fs_ftruncate. FsTree, FsTree/Uses: fs_mkdir, fs_rm, fs_stat, fs_chdir,
--    fs_init. Listing, Listing/Uses: fs_get_file_name, fs_get_file_size. Normalize and below: fs_normalize_path.
--  * Calls and below: handle_syscall and handle_trap of kernel/kernel.c. Devices: its cases on the console, the
--    messages, the keyboard and the frame buffer. UserCopy: the copies to and from user memory.
--    Tables and below: code that leaves the table of files and the processes alone. Holders and below:
--    who holds the references of the inode cache between two system calls.
--  * Printf, Printf/Decimal, Printf/Width, Printf/Buffer: kputc and vprintf of kernel/kernel.c.
--  * Frame, Frame/Pixels: the scaling loops of SYSCALL_PRESENT_FRAMEBUFFER.
--  * Input, Input/Drain: the keyboard of kernel/virtio.c, virtio_input_poll_event.
--  * Str, Str/Memory, Str/Compare: kernel/stdlib.c.
--  * Page, Page/Alloc: alloc_pages, free_pages. PageTable, PageTable/Map: map_page and the walk that
--    frees the tables of a process. UserMem: the validation of user pointers and sbrk of
--    kernel/kernel.c; UserMem/Valid.
--  * Spawn and below: create_process, process_init and spawn_process of kernel/process.c.
--  * Process, Process/Yield, Process/Args: yield, exit_current_process, free_process_pages, a round of
--    wait_process and the command line of spawn_process, of kernel/process.c.
--  * User and below: user/lib/user.c. User: results, the flags of open and the loops that read the
--    console. Outside: what a program meets, and its system calls. Stubs, Stdin, Clock: the calls.
--    Flags, Console, Polled, Requests, Contract: what is proved of them. The numbers of newlib's headers are a
--    parameter.
--  * Shell and below: user/sh/shell.c. Format: the prompt. Config: the configuration. Line: the line editor.
--    Cursor: the query of the terminal. Run: the start of a command.
--  * Snake and below: user/bin/snake.c, on the characters typed and the numbers of rand.
--  * Mkfs and below: tools/mkfs.c. Store, Dirs, Contents, Image: its functions on a state `Mkfs`; Marks, Marked,
--    Layout: the free map of an image.
--  * Base and below: numbers, tests, lists, bits and words that the parts share.
--  * Checks: a small machine on which the definitions run.
--
-- The path functions call the inode cache, which reads blocks; the system calls sit on both and on
-- the table of open files; sbrk sits on the page allocator and the page tables. Each definition calls the
-- definitions of the functions that the source calls.
--
-- Loops run on a number of rounds that the definition computes from its arguments: the bytes of a
-- path, the entries of a directory from its size, the bytes left to copy, the size of a table.
-- Numbers are naturals, with the wrap-around of uint32_t written out where the source can wrap; what
-- fs_normalize_path does with a destination of fewer than two bytes or a base of more than 254 is not modelled.
-- A console read that finds nothing yields. Nothing of the kernel's state has changed then, so that such a
-- read is a sequence of steps, one for each byte (`typed` of Calls/Effects), between those of other processes.
-- Bytes that the source leaves uninitialised are 0.
--
-- Not modelled: the loop of wait_process around its round, kmain; the kernel's calls of
-- kprintf, assembly and device registers, the virtqueue protocol of the disks, the
-- other programs and the third-party programs. The linker's `__free_ram` and
-- `__kernel_base` are parameters.
pub mod Base
pub mod Bitmap
pub mod Block
pub mod Bmap
pub mod Calls
pub mod Checks
pub mod Content
pub mod Devices
pub mod Dir
pub mod Fd
pub mod Files
pub mod Frame
pub mod FsTree
pub mod Holders
pub mod Inode
pub mod Input
pub mod Io
pub mod Listing
pub mod Machine
pub mod Mkfs
pub mod Names
pub mod Normalize
pub mod Page
pub mod PageTable
pub mod Printf
pub mod Process
pub mod Shell
pub mod Snake
pub mod Spawn
pub mod Str
pub mod Tables
pub mod User
pub mod UserCopy
pub mod UserMem
