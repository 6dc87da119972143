-- ===== src/Names/Refs.antt =====
-- The references that a path lookup takes and gives back: namex and namei of kernel/fs.c.
use dmaos.Base.{
  ℕ, zero, suc, ◌+◌, ◌≡◌, ◌==◌, not, ◌&&◌, length, Bool, true, false, Option, none, some, List, [],
  arith,
}
use dmaos.Machine.{Kernel, Mount, ok, M, pure}
use dmaos.Machine.Consts.{ft_directory}
use dmaos.Inode.Cache.{count, one}
use dmaos.Inode.Uses.{
  Held, Uses, pure-Uses, if-Uses, bind-Uses, recount, get-Keeps, inode_of-Keeps, ilock-Keeps,
  iget-Uses, iput-Uses, balanced,
}
use dmaos.Dir.{dotdot, ptr}
use dmaos.Dir.Uses.{dirlookup-Uses}
use dmaos.Names.{
  is_end, follow, namex_round, enter, reopen, cwd_of, climb, switch_root, arrive, path_end,
  mount_parent, or_lookup, cross_mount, walk, namex_loop, start_inode, namex, namei, skipto,
}

-- With one reference more to what the pointer names.
abbrev and_one : Held → Option ℕ → Held
and_one c ip i = c i + one ip i

-- Code that returns a pointer it has no reference to give for.
none-Uses : (c : Held) → Uses c (pure {A = Option ℕ} none) (and_one c)
none-Uses c = recount (pure-Uses none (and_one c)) (λ i. omega arith)

climb-Uses : (m : Option Mount) (c : Held) → Uses c (climb m) (and_one c)
unfolding climb
climb-Uses none c = none-Uses c
climb-Uses (some m) c = bind-Uses (iget-Uses _ _ c) (λ pm.
    bind-Uses ((ilock-Keeps (some pm)).all _) (λ _. bind-Uses (dirlookup-Uses pm dotdot _) (λ next.
      bind-Uses (recount (iput-Uses (some pm) (and_one c (ptr next))) (λ i. omega arith))
        (λ _. pure-Uses (ptr next) (and_one c)))))

mount_parent-Uses : (ip : ℕ) (name : List ℕ) (c : Held) → Uses c (mount_parent ip name) (and_one c)
unfolding mount_parent
mount_parent-Uses ip name c =
    bind-Uses (get-Keeps.all c) (λ k. if-Uses _ (climb-Uses _ c) (none-Uses c))

or_lookup-Uses :
    (next : Option ℕ) (ip : ℕ) (name : List ℕ) (c : Held)
    → Uses (and_one c next) (or_lookup next ip name) (and_one c)
unfolding or_lookup
or_lookup-Uses (some j) ip name c = pure-Uses (some j) (and_one c)
or_lookup-Uses none ip name c =
    recount (bind-Uses (dirlookup-Uses ip name c) (λ r. pure-Uses (ptr r) (and_one c)))
      (λ i. omega arith)

-- With one reference to an inode.
abbrev to_inode : Held → ℕ → Held
to_inode c ip = and_one c (some ip)

switch_root-Uses :
    (next : ℕ) (m : Option Mount) (c : Held)
    → Uses (to_inode c next) (switch_root next m) (to_inode c)
unfolding switch_root
switch_root-Uses next none c = pure-Uses next (to_inode c)
switch_root-Uses next (some m) c = bind-Uses (iput-Uses (some next) c) (λ _. iget-Uses _ 1 c)

cross_mount-Uses : (next : ℕ) (c : Held) → Uses (to_inode c next) (cross_mount next) (to_inode c)
unfolding cross_mount
cross_mount-Uses next c = bind-Uses (get-Keeps.all _) (λ k. switch_root-Uses next _ c)

-- The directory's reference is given up for that to the inode found.
arrive-Uses :
    (ip : ℕ) (next : Option ℕ) (c : Held)
    → Uses (and_one (to_inode c ip) next) (arrive ip next) (and_one c)
unfolding arrive
arrive-Uses ip none c =
    recount (bind-Uses (iput-Uses (some ip) c) (λ _. none-Uses c)) (λ i. omega arith)
arrive-Uses ip (some next) c = bind-Uses (cross_mount-Uses next (to_inode c ip)) (λ j.
    bind-Uses (recount (iput-Uses (some ip) (to_inode c j)) (λ i. omega arith))
      (λ _. pure-Uses (some j) (and_one c)))

walk-Uses : (ip : ℕ) (name : List ℕ) (c : Held) → Uses (to_inode c ip) (walk ip name) (and_one c)
unfolding walk
walk-Uses ip name c =
    bind-Uses (mount_parent-Uses ip name _)
      (λ next. bind-Uses (or_lookup-Uses next ip name _) (λ found. arrive-Uses ip found c))

-- With one reference more to the inode in the result of `namex`.
abbrev and_found : Held → Option ℕ × List ℕ → Held
and_found c r = and_one c r.0

path_end-Uses :
    (parent : Bool) (ip : ℕ) (name : List ℕ) (c : Held)
    → Uses (to_inode c ip) (path_end parent ip name) (and_found c)
unfolding path_end
path_end-Uses true ip name c =
    bind-Uses (iput-Uses (some ip) c)
      (λ _. recount (pure-Uses (none, name) (and_found c)) (λ i. omega arith))
path_end-Uses false ip name c = pure-Uses (some ip, name) (and_found c)

-- What the rounds that follow must do.
abbrev RestGood : (ℕ → List ℕ → List ℕ → M (Option ℕ × List ℕ)) → Type 0
RestGood rest =
    (ip : ℕ) (p n : List ℕ) (c : Held) → Uses (to_inode c ip) (rest ip p n) (and_found c)

follow-Uses :
    (rest : ℕ → List ℕ → List ℕ → M (Option ℕ × List ℕ)) (path name : List ℕ) (next : Option ℕ)
    (c : Held)
    → RestGood rest
    → Uses (and_one c next) (follow (λ j. rest j path name) name next) (and_found c)
unfolding follow
follow-Uses rest path name none c good = pure-Uses (none, name) (and_found c)
follow-Uses rest path name (some j) c good = good j path name c

namex_round-Uses :
    (parent : Bool) (rest : ℕ → List ℕ → List ℕ → M (Option ℕ × List ℕ)) (ip : ℕ) (name : List ℕ)
    (next : Option (List ℕ × List ℕ)) (c : Held)
    → RestGood rest
    → Uses (to_inode c ip) (namex_round parent rest ip name next) (and_found c)
unfolding namex_round enter
namex_round-Uses parent rest ip name none c good = path_end-Uses parent ip name c
namex_round-Uses parent rest ip name (some (path', name')) c good =
    bind-Uses ((ilock-Keeps (some ip)).all _) (λ _. bind-Uses ((inode_of-Keeps ip).all _) (λ n.
      if-Uses (not (n.dinode.type == ft_directory))
        (bind-Uses (iput-Uses (some ip) c)
          (λ _. recount (pure-Uses (none, name') (and_found c)) (λ i. omega arith)))
        (if-Uses (parent && is_end path') (pure-Uses (some ip, name') (and_found c))
          (bind-Uses (walk-Uses ip name' c) (λ next. follow-Uses rest path' name' next c good)))))

namex_loop-Uses : (parent : Bool) (rounds : ℕ) → RestGood (namex_loop parent rounds)
unfolding namex_loop
namex_loop-Uses parent zero ip path name c = path_end-Uses parent ip name c
namex_loop-Uses parent (suc rounds) ip path name c =
    namex_round-Uses parent (λ j p n. namex_loop parent rounds j p n) ip name (skipto path) c
      (namex_loop-Uses parent rounds)

reopen-Uses : (cwd : Option ℕ) (c : Held) → Uses c (reopen cwd) (to_inode c)
unfolding reopen
reopen-Uses none c = iget-Uses 0 1 c
reopen-Uses (some ip) c = bind-Uses ((inode_of-Keeps ip).all c) (λ n. iget-Uses n.dev n.inum c)

start_inode-Uses : (path : List ℕ) (c : Held) → Uses c (start_inode path) (to_inode c)
unfolding start_inode
start_inode-Uses path c =
    bind-Uses (get-Keeps.all c) (λ k. if-Uses _ (iget-Uses 0 1 c) (reopen-Uses (cwd_of k) c))

pub namex-Uses :
    (path : List ℕ) (parent : Bool) (c : Held) → Uses c (namex path parent) (and_found c)
unfolding namex
namex-Uses path parent c =
    bind-Uses (start_inode-Uses path c) (λ ip. namex_loop-Uses parent (length path) ip path [] c)

-- A path lookup leaks no reference and gives none away: when it returns an inode, that inode has one
-- reference more than before and every other slot of the cache as many as before; when it returns
-- NULL, every slot has as many as before.
pub namex-one :
    (path : List ℕ) (parent : Bool) (k : Kernel) {r : Option ℕ × List ℕ} {k' : Kernel} (i : ℕ)
    → namex path parent k ≡ ok r k'
    → count k' i ≡ count k i + one r.0 i
namex-one path parent k i h = let x = balanced i (namex-Uses path parent (λ _. 0)) h in omega arith

pub namei-Uses : (path : List ℕ) (c : Held) → Uses c (namei path) (and_one c)
unfolding namei
namei-Uses path c = bind-Uses (namex-Uses path false c) (λ r. pure-Uses r.0 (and_one c))
