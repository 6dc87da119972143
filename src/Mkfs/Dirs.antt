-- ===== src/Mkfs/Dirs.antt =====
-- The directories of the image: get_or_create_dir of tools/mkfs.c. A path is relative to the root, "".
use dmaos.Base.{
  ℕ, zero, suc, ◌==◌, leb, if◌then◌else◌, Option, none, some, List, [], ◌∷◌, ◌++◌, length,
}
use dmaos.Machine.Consts.{dirsiz, ft_directory}
use dmaos.Names.{slash}
use dmaos.Inode.{new_dinode}
use dmaos.Mkfs.{MkfsDir, Tool, pure, exit, ◌>>=◌, ◌>>◌, get_state, modify}
use dmaos.Mkfs.Store.{take_inode, set_inode, max_dir_entries}
use dmaos.Shell.{same}

-- The first directory with that path.
unfoldable pub find_path : List ℕ → List MkfsDir → Option ℕ
find_path path [] = none
find_path path (d ∷ dirs) =
    let rest = find_path path dirs in if same d.path path then some d.inum else rest

-- The part of a path before its last slash, and the part behind it.
abbrev pub before_slash : ℕ → Option (List ℕ × List ℕ) → Option (List ℕ × List ℕ)
before_slash c none = none
before_slash c (some (parent, name)) = some (c ∷ parent, name)

unfoldable pub last_slash : List ℕ → Option (List ℕ × List ℕ)
last_slash [] = none
last_slash (c ∷ s) = elim (last_slash s) [
  | none ↦ if c == slash then some ([], s) else none
  | some split ↦ before_slash c (some split)
]

unfoldable pub split_path : List ℕ → List ℕ × List ℕ
split_path path = elim (last_slash path) [ none ↦ ([], path) | some split ↦ split ]

-- The entry is added to the first directory with that inode; `none` if there is none or it is full.
abbrev pub cons_dir : MkfsDir → Option (List MkfsDir) → Option (List MkfsDir)
cons_dir d none = none
cons_dir d (some dirs) = some (d ∷ dirs)

abbrev pub add_to : MkfsDir → ℕ → List ℕ → List MkfsDir → Option (List MkfsDir)
add_to d inum name dirs =
    if leb max_dir_entries (length d.entries)
    then none
    else some (record d { entries = d.entries ++ ((inum, name) ∷ []) } ∷ dirs)

unfoldable pub add_entry : ℕ → ℕ → List ℕ → List MkfsDir → Option (List MkfsDir)
add_entry dir inum name [] = none
add_entry dir inum name (d ∷ dirs) =
    let rest = cons_dir d (add_entry dir inum name dirs) in
    if d.inum == dir then add_to d inum name dirs else rest

abbrev pub set_dirs : Option (List MkfsDir) → Tool (Unit {0})
set_dirs none = exit
set_dirs (some dirs) = modify (λ s. record s { dirs = dirs })

unfoldable pub link_entry : ℕ → ℕ → List ℕ → Tool (Unit {0})
link_entry dir inum name = do s ← get_state; set_dirs (add_entry dir inum name s.dirs)

abbrev pub dot_name : List ℕ
dot_name = b'.' ∷ []

abbrev pub dotdot_name : List ℕ
dotdot_name = b'.' ∷ b'.' ∷ []

-- A new directory under `parent_inum`, from the allocation of its inode on.
unfoldable pub new_dir : List ℕ → List ℕ → ℕ → Tool ℕ
new_dir path name parent_inum = do
  inum ← take_inode
  set_inode inum (new_dinode ft_directory)
  modify (λ s. record s {
    dirs =
        s.dirs
        ++ (record {
          inum = inum;
          path = path;
          entries = (inum, dot_name) ∷ (parent_inum, dotdot_name) ∷ [];
        }
            ∷ []);
  })
  link_entry parent_inum inum name
  pure inum

-- `parent` makes the parent directory.
unfoldable pub make_dir : (List ℕ → Tool ℕ) → List ℕ → Tool ℕ
make_dir parent path =
    let (parent_path, name) = split_path path in
    let make = (do parent_inum ← parent parent_path; new_dir path name parent_inum) in
    if leb dirsiz (length name) then exit else make

abbrev pub or_make : Option ℕ → Tool ℕ → Tool ℕ
or_make none make = make
or_make (some inum) make = pure inum

-- Each level of parents has a shorter path; the root is inode 1.
unfoldable pub get_or_create_dir : ℕ → List ℕ → Tool ℕ
get_or_create_dir zero path = pure 1
get_or_create_dir (suc rounds) [] = pure 1
get_or_create_dir (suc rounds) (c ∷ path) = do
  s ← get_state
  or_make (find_path (c ∷ path) s.dirs) (make_dir (λ p. get_or_create_dir rounds p) (c ∷ path))
