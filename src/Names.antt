-- ===== src/Names.antt =====
-- Path names: skipto, namex and namei of kernel/fs.c. A path is a C string, as a list.
pub mod Refs
pub mod Enough
use dmaos.Base.{
  ℕ, zero, suc, ◌+◌, ◌==◌, if◌then◌else◌, Bool, true, false, not, ◌&&◌, Option, none, some, List,
  [], ◌∷◌, take, length,
}
use dmaos.Machine.{Kernel, Mount, M, pure, ◌>>=◌, ◌>>◌, get_state}
use dmaos.Machine.Consts.{ft_directory}
use dmaos.Str.{strcmp, is_zero}
use dmaos.Inode.{inode_of, ilock, iget, iput}
use dmaos.Dir.{dirlookup, dotdot, ptr}

abbrev pub slash : ℕ
slash = b'/'

-- `*path == '\0'` and `*path == '/'`.
abbrev pub is_end : List ℕ → Bool
is_end [] = true
is_end (_ ∷ _) = false

abbrev pub starts_at_root : List ℕ → Bool
starts_at_root [] = false
starts_at_root (c ∷ _) = c == slash

-- `while (*path == '/') ++path;`
unfoldable pub skip_slashes : List ℕ → List ℕ
skip_slashes [] = []
skip_slashes (c ∷ path) = if c == slash then skip_slashes path else c ∷ path

-- The bytes before the next slash, and the path from there on.
unfoldable pub component : List ℕ → List ℕ
component [] = []
component (c ∷ path) = if c == slash then [] else c ∷ component path

unfoldable pub after_component : List ℕ → List ℕ
after_component [] = []
after_component (c ∷ path) = if c == slash then c ∷ path else after_component path

-- What `skipto` returns for a path without leading slashes: the rest of it and the name, cut to 29
-- bytes; `none` if no component is left.
unfoldable pub split_name : List ℕ → Option (List ℕ × List ℕ)
split_name [] = none
split_name (c ∷ p) = some (skip_slashes (after_component (c ∷ p)), take 29 (component (c ∷ p)))

unfoldable pub skipto : List ℕ → Option (List ℕ × List ℕ)
skipto path = split_name (skip_slashes path)

-- The first of the `rounds` mounts from `i` on that a test accepts.
unfoldable pub find_mount : (ℕ → Mount) → (Mount → Bool) → ℕ → ℕ → Option Mount
find_mount mounts test zero i = none
find_mount mounts test (suc rounds) i =
    let rest = find_mount mounts test rounds (i + 1) in
    if test (mounts i) then some (mounts i) else rest

-- The parent of a mountpoint, if there is a mount.
unfoldable pub climb : Option Mount → M (Option ℕ)
climb none = pure none
climb (some m) = do
  parent_mount ← iget m.parent_dev m.parent_inum
  ilock (some parent_mount)
  next ← dirlookup parent_mount dotdot
  iput (some parent_mount)
  pure (ptr next)

-- `..` at the root of a mounted device: the parent of its mountpoint.
unfoldable pub mount_parent : ℕ → List ℕ → M (Option ℕ)
mount_parent ip name = do
  k ← get_state
  let n = k.inode_table ip
  if is_zero (strcmp name dotdot) && (n.inum == 1 && not (n.dev == 0))
      then climb (find_mount k.mounts (λ m. m.child_dev == n.dev) k.num_mounts 0)
      else pure none

-- `if (next == NULL) next = dirlookup(ip, name, NULL);`
unfoldable pub or_lookup : Option ℕ → ℕ → List ℕ → M (Option ℕ)
or_lookup (some i) ip name = pure (some i)
or_lookup none ip name = do r ← dirlookup ip name; pure (ptr r)

-- The inode itself, or the root of the device that is mounted there.
unfoldable pub switch_root : ℕ → Option Mount → M ℕ
switch_root next none = pure next
switch_root next (some m) = do iput (some next); iget m.child_dev 1

unfoldable pub cross_mount : ℕ → M ℕ
cross_mount next = do
  k ← get_state
  let n = k.inode_table next
  switch_root next
      (find_mount k.mounts (λ m. m.parent_dev == n.dev && m.parent_inum == n.inum) k.num_mounts 0)

-- The end of a round: the reference to `ip` is given up.
unfoldable pub arrive : ℕ → Option ℕ → M (Option ℕ)
arrive ip none = do iput (some ip); pure none
arrive ip (some next) = do next' ← cross_mount next; iput (some ip); pure (some next')

-- One component: the inode of that name in the directory `ip`, whose reference it gives up.
unfoldable pub walk : ℕ → List ℕ → M (Option ℕ)
walk ip name = do next ← mount_parent ip name; found ← or_lookup next ip name; arrive ip found

-- The end of the path: the inode, unless its parent was asked for.
unfoldable pub path_end : Bool → ℕ → List ℕ → M (Option ℕ × List ℕ)
path_end true ip name = do iput (some ip); pure (none, name)
path_end false ip name = pure (some ip, name)

-- On to the rest of the path, by `rest`, unless the component was not found.
unfoldable pub follow : (ℕ → M (Option ℕ × List ℕ)) → List ℕ → Option ℕ → M (Option ℕ × List ℕ)
follow rest name none = pure (none, name)
follow rest name (some i) = rest i

-- The body of the loop of `namex`, after `skipto`; `rest` is the rounds that follow, for the inode
-- found.
unfoldable pub enter :
    Bool → ℕ → List ℕ → List ℕ → (ℕ → M (Option ℕ × List ℕ)) → M (Option ℕ × List ℕ)
enter parent ip path name rest = do
  ilock (some ip)
  n ← inode_of ip
  if not (n.dinode.type == ft_directory)
      then iput (some ip) >> pure (none, name)
      else if parent && is_end path
      then pure (some ip, name)
      else (do next ← walk ip name; follow rest name next)

-- One round of the loop of `namex`, on what `skipto` returned; `rest` is the rounds that follow.
unfoldable pub namex_round :
    Bool
    → (ℕ → List ℕ → List ℕ → M (Option ℕ × List ℕ))
    → ℕ
    → List ℕ
    → Option (List ℕ × List ℕ)
    → M (Option ℕ × List ℕ)
namex_round parent rest ip name none = path_end parent ip name
namex_round parent rest ip name (some (path', name')) =
    enter parent ip path' name' (λ i. rest i path' name')

-- The loop of `namex`; each round takes at least one byte of the path. The result is the inode,
-- if any, and what is left in `name`.
unfoldable pub namex_loop : Bool → ℕ → ℕ → List ℕ → List ℕ → M (Option ℕ × List ℕ)
namex_loop parent zero ip path name = path_end parent ip name
namex_loop parent (suc rounds) ip path name =
    namex_round parent (λ i p n. namex_loop parent rounds i p n) ip name (skipto path)

-- The root for a path from the root, else the current directory of the current process.
unfoldable pub cwd_of : Kernel → Option ℕ
cwd_of k = elim k.current_proc [ none ↦ none | some p ↦ (k.procs p).cwd ]

unfoldable pub reopen : Option ℕ → M ℕ
reopen none = iget 0 1
reopen (some c) = do n ← inode_of c; iget n.dev n.inum

unfoldable pub start_inode : List ℕ → M ℕ
start_inode path = do k ← get_state; if starts_at_root path then iget 0 1 else reopen (cwd_of k)

unfoldable pub namex : List ℕ → Bool → M (Option ℕ × List ℕ)
namex path parent = do ip ← start_inode path; namex_loop parent (length path) ip path []

unfoldable pub namei : List ℕ → M (Option ℕ)
namei path = do (ip, _) ← namex path false; pure ip
