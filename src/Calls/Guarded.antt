-- ===== src/Calls/Guarded.antt =====
-- Each system call on files and directories and the references, kernel/kernel.c.
use dmaos.Base.{
  ℕ, ◌≡◌, refl, ap, ◌∙◌, inl, inr, Bool-cases, Option, none, some, List, upd_self, length, ltb, not,
  ◌&&◌, arith, true, ◌==◌, ℤ, pos, is_neg,
}
use dmaos.Inode.{inode_of, ilock, iput}
use dmaos.Files.{has_flag}
use dmaos.Machine.{pure, ◌>>◌, Kernel, M}
use dmaos.Machine.Consts.{filectrl_create, ft_directory, err_not_a_directory}
use dmaos.Machine.Post.{Post, returned, bind, either, both, any_run}
use dmaos.Inode.Cache.{one}
use dmaos.Tables.Tree.{fs_stat-Leaves, fs_chdir-Leaves}
use dmaos.FsTree.{fs_chdir, chdir_inode}
use dmaos.Names.{namei}
use dmaos.FsTree.Uses.{fs_stat-Uses, fs_chdir-Uses}
use dmaos.UserMem.{validate_user_string, validate_user_write_buffer, validate_user_read_buffer}
use dmaos.Fd.{count_of, fs_open, fs_create}
use dmaos.Holders.{IsSound, none_held, set_process-IsSound, sound, iput-IsOff, recounted}
use dmaos.Holders.Fd.{current-IsSound}
use dmaos.Holders.Open.{fs_open-IsSound, fs_create-IsSound}
use dmaos.Holders.Io.{fs_read-IsSound, fs_write-IsSound}
use dmaos.Holders.Memory.{same_process}
use dmaos.Listing.Uses.{fs_get_file_name-Uses, fs_get_file_name-Leaves}
use dmaos.UserCopy.{is_pos}
use dmaos.UserCopy.Effects.{Guards, store-Guards}
use dmaos.Calls.{
  sys_get_file_name, name_into, sys_open, sys_read, sys_write, sys_stat, sys_getcwd, with_path,
  store_stat, stat_into, chdir_to, set_cwd, cwd_into, user_bytes, read_into,
}

chdir_inode-none :
    (ip : Option ℕ) (k : Kernel) → Post (λ r _. is_neg r.0 ≡ true → r.1 ≡ none) (chdir_inode ip k)
unfolding chdir_inode inode_of
chdir_inode-none none k = returned (λ _. refl)
chdir_inode-none (some ip) k = bind (any_run (ilock (some ip) k)) (λ _ k' _.
    either ((k'.inode_table ip).dinode.type == ft_directory) (pure (pos 0, some ip))
      (iput (some ip) >> pure (err_not_a_directory, none)) (returned (λ e. cc))
      (bind (any_run (iput (some ip) k')) (λ _ k2 _. returned (λ e. refl))))

-- When `fs_chdir` fails, it returns no inode.
fs_chdir-none :
    (path : List ℕ) (k : Kernel) → Post (λ r _. is_neg r.0 ≡ true → r.1 ≡ none) (fs_chdir path k)
unfolding fs_chdir
fs_chdir-none path k = bind (any_run (namei path k)) (λ ip k' _. chdir_inode-none ip k')

module _ (t1 : ℕ) where
  pub with_path-Guards :
      (path : ℕ) (call : List ℕ → M ℤ)
      → ((p : List ℕ) → Guards (call p))
      → Guards (with_path t1 path call)
  unfolding with_path
  with_path-Guards path call good k s =
      either (validate_user_string k.words t1 path) _ _ (good _ k s) (returned s)

  pub sys_open-Guards : (path flags : ℕ) → Guards (sys_open t1 path flags)
  unfolding sys_open
  sys_open-Guards path flags = with_path-Guards path _ (λ p k s.
      either (has_flag flags filectrl_create) (fs_create p flags) (fs_open p flags)
        (fs_create-IsSound p flags k s) (fs_open-IsSound p flags k s))

  set_cwd-IsSound :
      (path : List ℕ) (ip : Option ℕ) (k : Kernel)
      → IsSound (one ip) k
      → Post (λ _ k'. IsSound none_held k') (set_cwd t1 path ip k)
  unfolding set_cwd
  set_cwd-IsSound path ip k s = bind (current-IsSound k s) (λ p k1 (s1, lp, _).
      let named = same_process p _ k1 lp refl refl s1 in
      bind (iput-IsOff (k1.procs p).cwd named) (λ _ k2 (off, (_, y, _, _)).
        let was : (k2.procs p).cwd ≡ (k1.procs p).cwd =
          ap (λ t. (t p).cwd) y ∙ ap (λ v. v.cwd) (upd_self k1.procs p _) in
        returned (
          set_process-IsSound p (record (k2.procs p) { cwd = ip }) lp
            (λ i. let x = ap (λ o. one o i) was in omega arith)
            (λ fd f l e. off.opened p fd f lp l e) off)))

  pub chdir_to-Guards : (path : List ℕ) → Guards (chdir_to t1 path)
  unfolding chdir_to
  chdir_to-Guards path k s =
      bind
        (both (sound (fs_chdir-Uses path none_held) (fs_chdir-Leaves path) s)
          (fs_chdir-none path k))
        (λ (ret, ip) k' (s', no_inode). elim (Bool-cases (is_neg ret)) [
          | inl e ↦
              rw e (
                returned
                  (recounted s' (λ i. let x = ap (λ o. one o i) (no_inode e) in omega arith)))
          | inr e ↦ rw e (set_cwd-IsSound path ip k' (recounted s' (λ i. omega arith)))
        ])

  read_into-Guards : (fd : ℤ) (buf : ℕ) (n : ℤ) → Guards (read_into t1 fd buf n)
  unfolding read_into
  read_into-Guards fd buf n k s =
      bind (fs_read-IsSound fd (user_bytes t1 k buf) n k s)
        (λ (r, b) k' s'. bind (store-Guards t1 buf _ k' s') (λ _ k2 s2. returned s2))

  pub sys_read-Guards : (fd : ℤ) (buf : ℕ) (n : ℤ) → Guards (sys_read t1 fd buf n)
  unfolding sys_read
  sys_read-Guards fd buf n k s =
      either (is_pos n && validate_user_write_buffer k.words t1 buf (count_of n)) _ _
        (read_into-Guards fd buf n k s) (returned s)

  pub sys_write-Guards : (fd : ℤ) (buf : ℕ) (n : ℤ) → Guards (sys_write t1 fd buf n)
  unfolding sys_write
  sys_write-Guards fd buf n k s =
      either (is_pos n && not (validate_user_read_buffer k.words t1 buf (count_of n))) _ _
        (returned s) (fs_write-IsSound fd (user_bytes t1 k buf) n k s)

  store_stat-Guards : (st : ℕ) (found : Option (ℕ × ℤ)) → Guards (store_stat t1 st found)
  unfolding store_stat
  store_stat-Guards st none k s = returned s
  store_stat-Guards st (some (type, size)) k s = store-Guards t1 st _ k s

  stat_into-Guards : (st : ℕ) (path : List ℕ) → Guards (stat_into t1 st path)
  unfolding stat_into
  stat_into-Guards st path k s =
      bind (sound (fs_stat-Uses path none_held) (fs_stat-Leaves path) s)
        (λ (r, found) k' s'. bind (store_stat-Guards st found k' s') (λ _ k2 s2. returned s2))

  pub sys_stat-Guards : (path st : ℕ) → Guards (sys_stat t1 path st)
  unfolding sys_stat
  sys_stat-Guards path st k s =
      either (validate_user_string k.words t1 path && validate_user_write_buffer k.words t1 st 8) _
        _ (stat_into-Guards st _ k s) (returned s)

  cwd_into-Guards : (buf size : ℕ) → Guards (cwd_into t1 buf size)
  unfolding cwd_into
  cwd_into-Guards buf size k s = bind (current-IsSound k s) (λ p k' (s', lp, _).
      either (ltb (length (k'.procs p).cwd_path) size) _ _
        (bind (store-Guards t1 buf _ k' s') (λ _ k2 s2. returned s2)) (returned s'))

  pub sys_getcwd-Guards : (buf : ℕ) (size : ℤ) → Guards (sys_getcwd t1 buf size)
  unfolding sys_getcwd
  sys_getcwd-Guards buf size k s =
      either (is_pos size && validate_user_write_buffer k.words t1 buf (count_of size)) _ _
        (cwd_into-Guards buf (count_of size) k s) (returned s)

  name_into-Guards : (index : ℤ) (buf : ℕ) (buf_len : ℤ) → Guards (name_into t1 index buf buf_len)
  unfolding name_into
  name_into-Guards index buf buf_len k s =
      bind
        (sound (fs_get_file_name-Uses index buf_len none_held)
          (fs_get_file_name-Leaves index buf_len) s)
        (λ (r, bytes) k' s'. bind (store-Guards t1 buf bytes k' s') (λ _ k2 s2. returned s2))

  pub sys_get_file_name-Guards :
      (index : ℤ) (buf : ℕ) (buf_len : ℤ) → Guards (sys_get_file_name t1 index buf buf_len)
  unfolding sys_get_file_name
  sys_get_file_name-Guards index buf buf_len k s =
      either (is_pos buf_len && validate_user_write_buffer k.words t1 buf (count_of buf_len)) _ _
        (name_into-Guards index buf buf_len k s) (returned s)
