-- ===== src/Spawn/Load.antt =====
-- Loading a program, kernel/process.c, touches neither the table of files nor the processes.
use dmaos.Base.{ℕ, zero, suc, Option, none, some, List, [], ◌∷◌, arith}
use dmaos.Machine.{modify}
use dmaos.Inode.Uses.{Keeps, keeps, keeping, pure-Keeps, bind-Keeps, stop-Keeps}
use dmaos.Content.Uses.{readi-Keeps}
use dmaos.Tables.{Leaves, leaving, pure-Leaves, bind-Leaves, stop-Leaves, ilock-Leaves}
use dmaos.Tables.Content.{readi-Leaves}
use dmaos.FsTree.{fs_get_inode_size}
use dmaos.PageTable.{set_byte}
use dmaos.Holders.Memory.{
  alloc_pages-Leaves, alloc_pages-Keeps, map_page-Leaves, map_page-Keeps, set_word-Leaves,
  set_word-Keeps,
}
use dmaos.Spawn.{
  map_kernel, kernel_space, put_bytes, put_words, copy_image, push_strings, push_args, load_pages,
}

set_byte-Leaves : (a b : ℕ) → Leaves (modify (set_byte a b))
set_byte-Leaves a b = record { same = λ k r k' h. ground arith }

set_byte-Keeps : (a b : ℕ) → Keeps (modify (set_byte a b))
set_byte-Keeps a b = keeps (λ k r k' i h. ground arith)

put_bytes-Leaves : (a : ℕ) (bytes : List ℕ) → Leaves (put_bytes a bytes)
unfolding put_bytes
put_bytes-Leaves a [] = pure-Leaves _
put_bytes-Leaves a (b ∷ bytes) =
    let rest : (a : ℕ) → Leaves (put_bytes a bytes) = λ a. put_bytes-Leaves a bytes in
    search (leaving, set_byte-Leaves, rest)

put_bytes-Keeps : (a : ℕ) (bytes : List ℕ) → Keeps (put_bytes a bytes)
unfolding put_bytes
put_bytes-Keeps a [] = pure-Keeps _
put_bytes-Keeps a (b ∷ bytes) =
    let rest : (a : ℕ) → Keeps (put_bytes a bytes) = λ a. put_bytes-Keeps a bytes in
    search (keeping, set_byte-Keeps, rest)

put_words-Leaves : (a : ℕ) (words : List ℕ) → Leaves (put_words a words)
unfolding put_words
put_words-Leaves a [] = pure-Leaves _
put_words-Leaves a (b ∷ words) =
    let rest : (a : ℕ) → Leaves (put_words a words) = λ a. put_words-Leaves a words in
    search (leaving, set_word-Leaves, rest)

put_words-Keeps : (a : ℕ) (words : List ℕ) → Keeps (put_words a words)
unfolding put_words
put_words-Keeps a [] = pure-Keeps _
put_words-Keeps a (b ∷ words) =
    let rest : (a : ℕ) → Keeps (put_words a words) = λ a. put_words-Keeps a words in
    search (keeping, set_word-Keeps, rest)

copy_image-Leaves :
    (image : List ℕ) (ip : Option ℕ) (page off n : ℕ) → Leaves (copy_image image ip page off n)
unfolding copy_image
copy_image-Leaves image (some ip) page off n =
    search (leaving, readi-Leaves, put_bytes-Leaves) depth 20
copy_image-Leaves image none page off n = put_bytes-Leaves page _

copy_image-Keeps :
    (image : List ℕ) (ip : Option ℕ) (page off n : ℕ) → Keeps (copy_image image ip page off n)
unfolding copy_image
copy_image-Keeps image (some ip) page off n =
    search (keeping, readi-Keeps, put_bytes-Keeps) depth 20
copy_image-Keeps image none page off n = put_bytes-Keeps page _

push_strings-Leaves : (sp : ℕ) (args : List (List ℕ)) → Leaves (push_strings sp args)
unfolding push_strings
push_strings-Leaves sp [] = pure-Leaves _
push_strings-Leaves sp (arg ∷ args) =
    bind-Leaves (push_strings-Leaves sp args)
      (λ (above, starts). bind-Leaves (put_bytes-Leaves _ _) (λ _. pure-Leaves _))

push_strings-Keeps : (sp : ℕ) (args : List (List ℕ)) → Keeps (push_strings sp args)
unfolding push_strings
push_strings-Keeps sp [] = pure-Keeps _
push_strings-Keeps sp (arg ∷ args) =
    bind-Keeps (push_strings-Keeps sp args)
      (λ (above, starts). bind-Keeps (put_bytes-Keeps _ _) (λ _. pure-Keeps _))

pub push_args-Leaves : (size page : ℕ) (args : List (List ℕ)) → Leaves (push_args size page args)
unfolding push_args
push_args-Leaves size page args = search (leaving, push_strings-Leaves, put_words-Leaves) depth 20

pub push_args-Keeps : (size page : ℕ) (args : List (List ℕ)) → Keeps (push_args size page args)
unfolding push_args
push_args-Keeps size page args = search (keeping, push_strings-Keeps, put_words-Keeps) depth 20

pub fs_get_inode_size-Leaves : (ip : Option ℕ) → Leaves (fs_get_inode_size ip)
unfolding fs_get_inode_size
fs_get_inode_size-Leaves none = stop-Leaves
fs_get_inode_size-Leaves (some ip) = search (leaving, ilock-Leaves) depth 20

pub fs_get_inode_size-Keeps : (ip : Option ℕ) → Keeps (fs_get_inode_size ip)
unfolding fs_get_inode_size
fs_get_inode_size-Keeps none = stop-Keeps
fs_get_inode_size-Keeps (some ip) = search keeping depth 20

module _ (free_ram kernel_base : ℕ) where
  map_kernel-Leaves : (t rounds a : ℕ) → Leaves (map_kernel free_ram kernel_base t rounds a)
  unfolding map_kernel
  map_kernel-Leaves t zero a = pure-Leaves _
  map_kernel-Leaves t (suc rounds) a =
      search (leaving, map_page-Leaves, map_kernel-Leaves t rounds) depth 20

  map_kernel-Keeps : (t rounds a : ℕ) → Keeps (map_kernel free_ram kernel_base t rounds a)
  unfolding map_kernel
  map_kernel-Keeps t zero a = pure-Keeps _
  map_kernel-Keeps t (suc rounds) a =
      search (keeping, map_page-Keeps, map_kernel-Keeps t rounds) depth 20

  pub kernel_space-Leaves : (t : ℕ) → Leaves (kernel_space free_ram kernel_base t)
  unfolding kernel_space
  kernel_space-Leaves t = search (leaving, map_page-Leaves, map_kernel-Leaves) depth 20

  pub kernel_space-Keeps : (t : ℕ) → Keeps (kernel_space free_ram kernel_base t)
  unfolding kernel_space
  kernel_space-Keeps t = search (keeping, map_page-Keeps, map_kernel-Keeps) depth 20

  pub load_pages-Leaves :
      (t : ℕ) (image : List ℕ) (ip : Option ℕ) (size rounds off last : ℕ)
      → Leaves (load_pages free_ram kernel_base t image ip size rounds off last)
  unfolding load_pages
  load_pages-Leaves t image ip size zero off last = pure-Leaves _
  load_pages-Leaves t image ip size (suc rounds) off last =
      search
        (
          leaving,
          alloc_pages-Leaves,
          copy_image-Leaves,
          map_page-Leaves,
          load_pages-Leaves t image ip size rounds,
        )
        depth 20

  pub load_pages-Keeps :
      (t : ℕ) (image : List ℕ) (ip : Option ℕ) (size rounds off last : ℕ)
      → Keeps (load_pages free_ram kernel_base t image ip size rounds off last)
  unfolding load_pages
  load_pages-Keeps t image ip size zero off last = pure-Keeps _
  load_pages-Keeps t image ip size (suc rounds) off last =
      search
        (
          keeping,
          alloc_pages-Keeps,
          copy_image-Keeps,
          map_page-Keeps,
          load_pages-Keeps t image ip size rounds,
        )
        depth 20
