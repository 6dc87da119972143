-- ===== src/Inode/Uses.antt =====
-- The references that a piece of code takes over and the references that it leaves: a calculus of
-- the counts in the inode cache, with one rule for each way to put code together.
use dmaos.Base.{
  ℕ, ◌+◌, ◌≡◌, Bool, Bool-cases, inl, inr, true, false, if◌then◌else◌, Option, some, none, arith,
  refl, ◌==◌, Bytes,
}
use dmaos.Machine.{Kernel, ok, M, pure, stop, ◌>>=◌, get_state, modify, Inode}
use dmaos.Machine.Post.{bind-ok, transfer, result}
use dmaos.Block.{read_block, write_block}
use dmaos.Inode.{update_inode, inode_of, set_inode, iget, iput, ilock, iupdate}
use dmaos.Inode.Cache.{count, one, iget-Got}

-- How many references are held to each slot.
abbrev pub Held : Type 0
Held = ℕ → ℕ

-- Started with `c` of the references counted, the code ends with `d` of its result counted.
pub record Uses {ℓ} {A : Type ℓ} (c : Held) (m : M A) (d : A → Held) : Type ℓ where
  pub balance :
      (k : Kernel) (r : A) (k' : Kernel) (i : ℕ)
      → m k ≡ ok r k'
      → count k' i + c i ≡ count k i + d r i

-- The code leaves all references as they are.
pub record Keeps {ℓ} {A : Type ℓ} (m : M A) : Type ℓ where
  pub all : (c : Held) → Uses c m (λ _. c)

module _ {ℓ} {A : Type ℓ} where
  pub pure-Uses : (a : A) (d : A → Held) → Uses (d a) (pure a) d
  pure-Uses a d = record {
    balance = λ k r k' i h. transfer (λ r k'. count k' i + d a i ≡ count k i + d r i) h refl;
  }

  pub stop-Uses : (c : Held) (d : A → Held) → Uses c (stop {A = A}) d
  stop-Uses c d = record { balance = λ k r k' i h. cc }

  pub if-Uses :
      (b : Bool) {c : Held} {m n : M A} {d : A → Held}
      → Uses c m d
      → Uses c n d
      → Uses c (if b then m else n) d
  if-Uses true p q = p
  if-Uses false p q = q

  pub bind-Uses {κ} :
      {B : Type κ} {c : Held} {m : M A} {f : A → M B} {d : A → Held} {e : B → Held}
      → Uses c m d
      → ((a : A) → Uses (d a) (f a) e)
      → Uses c (m >>= f) e
  bind-Uses {m} {f} p q = record {
    balance = λ k r k' i h.
        let (a, k1, e1, h1) = bind-ok (m k) f h in
        let x = p.balance k a k1 i e1 in let y = (q a).balance k1 r k' i h1 in omega arith;
  }

  -- Code that returns leaves an equal number if the start is counted otherwise.
  pub recount :
      {c c' : Held} {m : M A} {d : A → Held} → Uses c m d → ((i : ℕ) → c i ≡ c' i) → Uses c' m d
  recount p same = record {
    balance = λ k r k' i h. let x = p.balance k r k' i h in let y = same i in omega arith;
  }

  pub keeps :
      {m : M A}
      → ((k : Kernel) (r : A) (k' : Kernel) (i : ℕ) → m k ≡ ok r k' → count k' i ≡ count k i)
      → Keeps m
  keeps same = record {
    all = λ c. record { balance = λ k r k' i h. let x = same k r k' i h in omega arith };
  }

  pub pure-Keeps : (a : A) → Keeps (pure a)
  pure-Keeps a = record { all = λ c. pure-Uses a (λ _. c) }

  pub stop-Keeps : Keeps (stop {A = A})
  stop-Keeps = record { all = λ c. stop-Uses c (λ _. c) }

  pub if-Keeps : (b : Bool) {m n : M A} → Keeps m → Keeps n → Keeps (if b then m else n)
  if-Keeps true p q = p
  if-Keeps false p q = q

  pub bind-Keeps {κ} :
      {B : Type κ} {m : M A} {f : A → M B} → Keeps m → ((a : A) → Keeps (f a)) → Keeps (m >>= f)
  bind-Keeps p q = record { all = λ c. bind-Uses (p.all c) (λ a. (q a).all c) }

  -- Code that takes one reference.
  pub takes :
      {m : M A} (got : A → Option ℕ)
      → ((k : Kernel) (r : A) (k' : Kernel) (i : ℕ)
          → m k ≡ ok r k'
          → count k' i ≡ count k i + one (got r) i)
      → (c : Held) → Uses c m (λ r i. c i + one (got r) i)
  takes got more c = record { balance = λ k r k' i h. let x = more k r k' i h in omega arith }

pub get-Keeps : Keeps get_state
get-Keeps = keeps (λ k r k' i h. ground arith)

pub inode_of-Keeps : (ip : ℕ) → Keeps (inode_of ip)
unfolding inode_of
inode_of-Keeps ip = keeps (λ k r k' i h. ground arith)

-- A change of an entry that leaves its count.
pub update_inode-Keeps :
    (ip : ℕ) (change : Inode → Inode)
    → ((n : Inode) → (change n).ref ≡ n.ref)
    → Keeps (update_inode ip change)
unfolding update_inode
update_inode-Keeps ip change same =
    keeps (λ k r k' i h. let e = same (k.inode_table ip) in ground arith)

pub read_block-Keeps : (dev b : ℕ) → Keeps (read_block dev b)
unfolding read_block
read_block-Keeps dev b = keeps (λ k r k' i h. ground arith)

pub write_block-Keeps : (dev b : ℕ) (buf : Bytes) → Keeps (write_block dev b buf)
unfolding write_block
write_block-Keeps dev b buf = keeps (λ k r k' i h. ground arith)

pub iput-Uses : (ip : Option ℕ) (c : Held) → Uses (λ i. c i + one ip i) (iput ip) (λ _. c)
unfolding iput inode_of
iput-Uses none c = record { balance = λ k r k' i h. ground arith }
iput-Uses (some ip) c = record { balance = λ k r k' i h. ground arith }

pub iget-Uses : (dev inum : ℕ) (c : Held) → Uses c (iget dev inum) (λ ip i. c i + one (some ip) i)
iget-Uses dev inum = takes some (λ k r k' i h. (result (iget-Got dev inum k) h).counts i)

-- Loading an inode from its block.
load-Keeps :
    (ip dev block : ℕ) (n : Inode) (k : Kernel) {k' : Kernel} (i : ℕ) (change : Bytes → Inode)
    → ((buf : Bytes) → (change buf).ref ≡ (k.inode_table ip).ref)
    → (read_block dev block >>= λ buf. modify (set_inode ip (change buf))) k ≡ ok tt k'
    → count k' i ≡ count k i
unfolding read_block
load-Keeps ip dev block n k i change same h = grind (arith, same)

pub ilock-Keeps : (ip : Option ℕ) → Keeps (ilock ip)
unfolding ilock
ilock-Keeps none = stop-Keeps
ilock-Keeps (some ip) = keeps (λ k r k' i h. elim (Bool-cases ((k.inode_table ip).ref == 0)) [
  | inl e ↦ let h' = rw e at h in cc
  | inr e ↦ elim (Bool-cases (k.inode_table ip).valid) [
    | inl v ↦ ground arith
    | inr v ↦ load-Keeps ip _ _ (k.inode_table ip) k i _ (λ buf. refl) (rw (e, v) at h)
  ]
])

-- The rules for code that takes and gives back nothing.
pub ruleset keeping = (
  pure-Keeps, stop-Keeps, if-Keeps, bind-Keeps, get-Keeps, inode_of-Keeps, read_block-Keeps,
  write_block-Keeps, ilock-Keeps,
)

pub iupdate-Keeps : (ip : ℕ) → Keeps (iupdate ip)
unfolding iupdate
iupdate-Keeps ip = search keeping

-- The same as equations between the counts before and after a run that returns.
module _ {ℓ} {A : Type ℓ} {m : M A} {k k' : Kernel} {r : A} (i : ℕ) where
  pub kept : Keeps m → m k ≡ ok r k' → count k' i ≡ count k i
  kept p h = let x = (p.all (λ _. 0)).balance k r k' i h in omega arith

  pub balanced :
      {c : Held} {d : A → Held} → Uses c m d → m k ≡ ok r k' → count k' i + c i ≡ count k i + d r i
  balanced p h = p.balance k r k' i h
