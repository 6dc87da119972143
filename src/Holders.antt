-- ===== src/Holders.antt =====
-- Who holds the references of the inode cache between two system calls: the entries of the table of
-- files and the current directories of the processes.
pub mod Files
pub mod Slots
pub mod Fd
pub mod Open
pub mod Io
pub mod Memory
pub mod Exit
use dmaos.Base.{
  ℕ, zero, suc, ◌+◌, ◌<◌, ◌≤◌, ◌≡◌, ◌≢◌, ◌==◌, refl, sym, subst, ap, if◌then◌else◌, Option, none,
  some, arith, upd, upd_self, upd_ne,
}
use native.Mathlib.Decide.{ℕ_discrete}
use dmaos.Machine.{Kernel, File, Process, ok, panic, waiting, Run, M}
use dmaos.Machine.Consts.{global_open_file_limit, procs_max, num_files_per_process}
use dmaos.Machine.Post.{Post, returned, panicked, waits}
use dmaos.Inode.Cache.{count, one}
use dmaos.Inode.{iput}
use dmaos.Inode.Uses.{Held, Uses, balanced, iput-Uses}
use dmaos.Tables.{Leaves, SameTables, iput-Leaves}
use dmaos.Files.{set_file}
use dmaos.Fd.{set_process}

-- The sum of the first `n` values.
unfoldable pub sum_to : ℕ → (ℕ → ℕ) → ℕ
sum_to zero g = 0
sum_to (suc n) g = g n + sum_to n g

sum_to-same : (n : ℕ) (g h : ℕ → ℕ) → ((j : ℕ) → j < n → g j ≡ h j) → sum_to n g ≡ sum_to n h
unfolding sum_to
sum_to-same zero g h same = refl
sum_to-same (suc n) g h same =
    let x = same n (omega arith) in
    let y = sum_to-same n g h (λ j lt. same j (omega arith)) in omega arith

-- Two families that differ at one index.
sum_to-change :
    (n f : ℕ) (g h : ℕ → ℕ)
    → f < n
    → ((j : ℕ) → j ≢ f → g j ≡ h j)
    → sum_to n g + h f ≡ sum_to n h + g f
unfolding sum_to
sum_to-change zero f g h lt same = absurd (omega arith)
sum_to-change (suc n) f g h lt same = elim (ℕ_discrete f n) [
  | yes e ↦
      let y = sum_to-same n g h (λ j lt. same j (omega arith)) in
      let a = ap g e in let b = ap h e in omega arith
  | no ne ↦
      let x = same n (omega arith) in
      let y = sum_to-change n f g h (omega arith) same in omega arith
]

-- One member is at most the sum.
pub sum_to-member : (n f : ℕ) (g : ℕ → ℕ) → f < n → g f ≤ sum_to n g
unfolding sum_to
sum_to-member zero f g lt = absurd (omega arith)
sum_to-member (suc n) f g lt = elim (ℕ_discrete f n) [
  | yes e ↦ let a = ap g e in omega arith
  | no ne ↦ let y = sum_to-member n f g (omega arith) in omega arith
]

-- The references that an entry of the table of files holds.
unfoldable pub file_holds : File → ℕ → ℕ
file_holds v i = if v.ref == 0 then 0 else one v.ip i

-- The references of all open files and of all current directories.
unfoldable pub owned : Kernel → ℕ → ℕ
owned k i =
    sum_to global_open_file_limit (λ f. file_holds (k.file_table f) i)
    + sum_to procs_max (λ p. one (k.procs p).cwd i)

-- The references in the cache, with `b` that were given up too early, are those of the owners and
-- the `c` that the code at work holds; every descriptor names an entry of the table of files, and the
-- current and the idle process are in the table.
pub record IsOff (b c : Held) (k : Kernel) : Type 0 where
  pub accounts : (i : ℕ) → count k i + b i ≡ owned k i + c i
  pub running : (p : ℕ) → k.current_proc ≡ some p → p < procs_max
  pub idle : (p : ℕ) → k.idle_proc ≡ some p → p < procs_max
  pub opened :
      (p fd f : ℕ)
      → p < procs_max
      → fd < num_files_per_process
      → (k.procs p).ofile fd ≡ some f
      → f < global_open_file_limit

abbrev pub none_held : Held
none_held i = 0

-- The references in the cache are those of the owners, and those that the code at work holds.
abbrev pub IsSound : Held → Kernel → Type 0
IsSound c k = IsOff none_held c k

pub recounted : {b c d : Held} {k : Kernel} → IsOff b c k → ((i : ℕ) → c i ≡ d i) → IsOff b d k
recounted s same = record {
  accounts = λ i. let x = s.accounts i in let y = same i in omega arith;
  running = s.running;
  idle = s.idle;
  opened = s.opened;
}

-- A run is described by what it returns.
pub posts {ℓ κ} :
    {A : Type ℓ} (P : A → Kernel → Type κ) (r : Run A)
    → ((a : A) (k : Kernel) → r ≡ ok a k → P a k)
    → Post P r
posts P (ok a k) h = returned (h a k refl)
posts P panic h = panicked
posts P waiting h = waits

owned-same : (k k' : Kernel) (i : ℕ) → SameTables k k' → owned k' i ≡ owned k i
unfolding owned
owned-same k k' i (x, y, _, _) = rw (x, y) refl

-- Code that leaves the tables alone keeps the state sound, with its own count of references.
pub sound {ℓ} :
    {A : Type ℓ} {b c : Held} {m : M A} {d : A → Held} {k : Kernel}
    → Uses c m d
    → Leaves m
    → IsOff b c k
    → Post (λ r k'. IsOff b (d r) k') (m k)
sound {b} {c} {m} {d} {k} u l s =
    posts (λ r k'. IsOff b (d r) k') (m k)
      (λ r k' h.
        let same = l.same k r k' h in
        record {
          accounts = λ i.
              let x = balanced i u h in
              let y = s.accounts i in let z = owned-same k k' i same in omega arith;
          running = λ p e. s.running p (rw same.2 at e);
          idle = λ p e. s.idle p (rw same.3 at e);
          opened = λ p fd f lt lt' e. s.opened p fd f lt lt' (rw same.1 at e);
        })

pub owned-current :
    (next : ℕ) (k : Kernel) (i : ℕ) → owned (record k { current_proc = some next }) i ≡ owned k i
unfolding owned
owned-current next k i = refl

owned-set_file :
    (f : ℕ) (v : File) (k : Kernel) (i : ℕ)
    → f < global_open_file_limit
    → owned (set_file f v k) i + file_holds (k.file_table f) i ≡ owned k i + file_holds v i
unfolding owned
owned-set_file f v k i lt =
    let x =
      sum_to-change global_open_file_limit f (λ j. file_holds (upd k.file_table f v j) i)
        (λ j. file_holds (k.file_table j) i) lt
        (λ j ne. ap (λ w. file_holds w i) (upd_ne k.file_table f j v ne)) in
    let y = ap (λ w. file_holds w i) (upd_self k.file_table f v) in omega arith

-- A change of one open file, by which the references it holds pass to the code or come from it.
pub set_file-IsSound :
    {b c b' d : Held} (f : ℕ) (v : File) {k : Kernel}
    → f < global_open_file_limit
    → ((i : ℕ) → file_holds v i + d i + b i ≡ file_holds (k.file_table f) i + c i + b' i)
    → IsOff b c k
    → IsOff b' d (set_file f v k)
set_file-IsSound f v {k} lt pass s = record {
  accounts = λ i.
      let x = owned-set_file f v k i lt in let y = s.accounts i in let z = pass i in omega arith;
  running = s.running;
  idle = s.idle;
  opened = s.opened;
}

owned-set_process :
    (p : ℕ) (v : Process) (k : Kernel) (i : ℕ)
    → p < procs_max
    → owned (set_process p v k) i + one (k.procs p).cwd i ≡ owned k i + one v.cwd i
unfolding owned
owned-set_process p v k i lt =
    let x =
      sum_to-change procs_max p (λ j. one (upd k.procs p v j).cwd i) (λ j. one (k.procs j).cwd i) lt
        (λ j ne. ap (λ w. one w.cwd i) (upd_ne k.procs p j v ne)) in
    let y = ap (λ w. one w.cwd i) (upd_self k.procs p v) in omega arith

-- A change of one process, by which the reference to its directory passes to the code or comes from
-- it.
pub set_process-IsSound :
    {b c b' d : Held} (p : ℕ) (v : Process) {k : Kernel}
    → p < procs_max
    → ((i : ℕ) → one v.cwd i + d i + b i ≡ one (k.procs p).cwd i + c i + b' i)
    → ((fd f : ℕ) → fd < num_files_per_process → v.ofile fd ≡ some f → f < global_open_file_limit)
    → IsOff b c k
    → IsOff b' d (set_process p v k)
set_process-IsSound p v {k} lt pass files s = record {
  accounts = λ i.
      let x = owned-set_process p v k i lt in let y = s.accounts i in let z = pass i in omega arith;
  running = s.running;
  idle = s.idle;
  opened = λ q fd f l l' e. elim (ℕ_discrete q p) [
    | yes same ↦ files fd f l' (rw (ap (λ x. upd k.procs p v x) same, upd_self k.procs p v) at e)
    | no ne ↦ s.opened q fd f l l' (rw (upd_ne k.procs p q v ne) at e)
  ];
}

-- `iput` of a reference that an entry still holds.
pub iput-IsOff :
    {c : Held} (ip : Option ℕ) {k : Kernel}
    → IsSound c k
    → Post (λ r k'. IsOff (one ip) c k' × SameTables k k') (iput ip k)
iput-IsOff {c} ip {k} s =
    posts (λ r k'. IsOff (one ip) c k' × SameTables k k') (iput ip k)
      (λ r k' h.
        let same = (iput-Leaves ip).same k r k' h in
        (
          record {
            accounts = λ i.
                let x = balanced i (iput-Uses ip none_held) h in
                let y = s.accounts i in let z = owned-same k k' i same in omega arith;
            running = λ p e. s.running p (rw same.2 at e);
            idle = λ p e. s.idle p (rw same.3 at e);
            opened = λ p fd f lt lt' e. s.opened p fd f lt lt' (rw same.1 at e);
          },
          same,
        ))
