-- ===== src/Checks/Holders.antt =====
-- System calls of kernel/kernel.c and the names of directories, on a small machine.
use dmaos.Machine.Post.{Post}
use dmaos.Inode.{iget}
use dmaos.Base.{
  true, none, ℕ, inl, inr, Bool-cases, ◌+◌, ◌*◌, ◌<◌, ◌≤◌, ◌≡◌, ◌==◌, refl, if◌then◌else◌, some,
  List, [], ◌∷◌, arith, ℤ, pos, length,
}
use dmaos.Machine.{Kernel, Process, Run, fd_inode, runnable, ok}
use dmaos.Machine.Consts.{max_path, max_path_depth}
use dmaos.Fd.{current}
use dmaos.Machine.Post.{Post}
use dmaos.Process.{is_unused}
use dmaos.Spawn.{create_process}
use dmaos.Spawn.Create.{Made, create_process-Made}
use dmaos.UserMem.{validate_user_string, string_ok, page_ok}
use dmaos.FsTree.{fs_chdir, chdir_inode}
use dmaos.Names.{
  namei, namex, namex_loop, namex_round, start_inode, reopen, cwd_of, skipto, skip_slashes,
  component, enter, after_component, walk, mount_parent, or_lookup, arrive, cross_mount,
  switch_root, find_mount, path_end, follow, climb, split_name,
}
use dmaos.Inode.{ilock, iget, iget_scan, iput, decode_dinode, inode_of}
use dmaos.Block.{read_block, read_device, read_write_device}
use dmaos.Dir.{dirlookup, dir_scan, found_inode}
use dmaos.Content.{readi, readi_loop}
use dmaos.Bmap.{bmap}
use dmaos.Str.{strcmp, strncmp}
use dmaos.Calls.{chdir_call, handle_syscall, sys_chdir, with_path, chdir_to, set_cwd}
use dmaos.UserCopy.{string_from}
use dmaos.Calls.Effects.{start, one_more, called, Steps-IsSound}
use dmaos.Holders.{IsSound, none_held, owned, sum_to, file_holds}
use dmaos.Holders.Slots.{SameInode, iget-open_file}
use dmaos.Normalize.{
  tokens_of, joined, fs_normalize_path, add_token, drop_token, render, add_slash, ends_open,
}
use dmaos.Normalize.Paths.{AreTokens, tokens_of-AreTokens, length-fs_normalize_path}
use dmaos.FsTree.{cleared_inode}
use dmaos.Checks.{no_file, machine, mounted, no_process, bin_path, state_of}

-- The page table at 4096 maps the page at the bottom of user memory, which begins with "/bin".
abbrev words : ℕ → ℕ
words a =
    if a == 4112
    then 2049
    else if a == 8192
    then 3095
    else if a == 12288
    then b'/' + b'b' * 256 + b'i' * 65536 + b'n' * 16777216
    else 0

abbrev shell : Process
shell = record no_process { pid = 2; state = runnable; page_table = 4096 }

abbrev table : ℕ → Process
table s = if s == 1 then shell else no_process

abbrev at_shell : Kernel
at_shell = record mounted {
  procs = table;
  current_proc = some 1;
  idle_proc = some 0;
  words = words;
}

at_shell-IsSound : IsSound none_held at_shell
unfolding owned sum_to file_holds
at_shell-IsSound = record {
  accounts = λ i. refl;
  running = λ p e. ground arith;
  idle = λ p e. ground arith;
  opened = λ p fd f l l' e. elim (Bool-cases (p == 1)) [
    | inl one ↦ let e' = rw one at e in cc
    | inr other ↦ let e' = rw other at e in cc
  ];
}

abbrev path_at : ℕ
path_at = 0x1000000

abbrev to_bin : Run ℤ
unfolding handle_syscall sys_chdir with_path chdir_to set_cwd validate_user_string string_ok page_ok
    string_from fs_normalize_path joined tokens_of add_token drop_token render add_slash ends_open
    current fs_chdir chdir_inode namei namex namex_loop namex_round enter start_inode skipto
    split_name skip_slashes component after_component ilock iget iget_scan iput decode_dinode
    read_block read_device read_write_device walk mount_parent or_lookup arrive cross_mount
    switch_root find_mount path_end follow dirlookup dir_scan readi readi_loop bmap found_inode
    strcmp strncmp climb inode_of cwd_of reopen
to_bin = handle_syscall 0 4096 (chdir_call path_at) at_shell

to_bin-ok : to_bin ≡ ok (pos 0) (state_of at_shell to_bin)
unfolding to_bin
to_bin-ok = refl

Steps-IsSound_example : IsSound none_held (state_of at_shell to_bin)
unfolding handle_syscall to_bin
Steps-IsSound_example =
    Steps-IsSound 0 (one_more start (called 4096 (chdir_call path_at) to_bin-ok)) at_shell-IsSound

-- The shell's directory is `/bin` now, and has one reference.
to_bin-cwd : ((state_of at_shell to_bin).procs 1).cwd_path ≡ bin_path
unfolding to_bin
to_bin-cwd = refl

-- File 0 is open on the inode in slot 3.
abbrev with_file : Kernel
with_file = record machine {
  inode_table =
      λ i. if i == 3 then record cleared_inode { dev = 1; inum = 5; ref = 1 } else cleared_inode;
  file_table =
      λ f. if f == 0 then record no_file { ref = 1; type = fd_inode; ip = some 3 } else no_file;
}

with_file-IsSound : IsSound none_held with_file
unfolding owned sum_to file_holds
with_file-IsSound = record {
  accounts = λ i. ground arith;
  running = λ p e. cc;
  idle = λ p e. cc;
  opened = λ p fd f l l' e. cc;
}

iget-open_file_example : Post (SameInode with_file 3) (iget 0 7 with_file)
iget-open_file_example =
    iget-open_file 0 7 with_file 0 3 with_file-IsSound (omega arith) (omega arith) refl

-- "b/../c".
abbrev up_and_down : List ℕ
up_and_down = b'b' ∷ b'/' ∷ b'.' ∷ b'.' ∷ b'/' ∷ b'c' ∷ []

tokens_of-AreTokens_example :
    AreTokens (tokens_of 6 up_and_down []) × (length (tokens_of 6 up_and_down []) ≤ max_path_depth)
tokens_of-AreTokens_example = tokens_of-AreTokens 6 up_and_down [] (tt, omega arith)

length-fs_normalize_path_example :
    (length (joined bin_path up_and_down) < max_path)
    × (length (fs_normalize_path bin_path up_and_down max_path) < max_path)
length-fs_normalize_path_example =
    length-fs_normalize_path bin_path up_and_down max_path (omega arith) (omega arith)

-- "/bin/c".
normalized :
    fs_normalize_path bin_path up_and_down max_path ≡ b'/' ∷ b'b' ∷ b'i' ∷ b'n' ∷ b'/' ∷ b'c' ∷ []
unfolding fs_normalize_path joined tokens_of add_token drop_token render add_slash ends_open
    skip_slashes component after_component strcmp
normalized = refl

at_shell-no_cwd :
    (q : ℕ) → is_unused (at_shell.procs q).state ≡ true → (at_shell.procs q).cwd ≡ none
at_shell-no_cwd q h = elim (Bool-cases (q == 1)) [ inl e ↦ rw e refl | inr e ↦ rw e refl ]

create_process-Made_example :
    Post (Made none_held) (create_process 0x80400000 0x80200000 none (bin_path ∷ []) at_shell)
create_process-Made_example =
    create_process-Made 0x80400000 0x80200000 none (bin_path ∷ []) at_shell at_shell-IsSound
      at_shell-no_cwd
