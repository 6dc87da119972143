-- ===== src/User/Outside.antt =====
-- What a user program meets outside itself, and the system calls of user/lib/user.c: `syscall1`,
-- `syscall2`, `syscall3` and `uptime`. What the kernel answers, what getchar returns and what rdtime
-- reads are lists, in the order in which the program asks; it waits where a list has ended.
use dmaos.Base.{ℕ, ◌%◌, Option, none, some, List, [], ◌∷◌, Bytes, upd, ℤ, pos}
use dmaos.Machine.Consts.{minus_one}
use dmaos.User.{Newlib, Program, translate_error, handle_retval}

-- What the kernel leaves in `a0`, and the bytes that it writes to the program's memory.
pub record Answer : Type 0 where
  pub value : ℤ
  pub writes : List (ℕ × ℕ)

-- `calls`: the system calls made, the last one first, but for the console's and yield.
pub record Outside : Type 0 where
  pub input : List ℤ
  pub clock : List ℕ
  pub answers : List Answer
  pub memory : Bytes
  pub output : List ℕ
  pub calls : List (ℕ × List ℕ)

-- A function of the library: `none` while it waits.
abbrev pub P {ℓ} : Type ℓ → Type ℓ
P A = Program → Outside → Option (A × (Program × Outside))

abbrev pub pure {ℓ} : {A : Type ℓ} → A → P A
pure a s o = some (a, (s, o))

abbrev pub and_then {ℓ κ} :
    {A : Type ℓ} {B : Type κ}
    → Option (A × (Program × Outside))
    → (A → P B)
    → Option (B × (Program × Outside))
and_then none f = none
and_then (some (a, (s, o))) f = f a s o

infixl 5 ◌>>=◌
abbrev pub ◌>>=◌ {ℓ κ} : {A : Type ℓ} {B : Type κ} → P A → (A → P B) → P B
◌>>=◌ m f s o = and_then (m s o) f

-- The kernel's writes to the program's memory.
unfoldable pub written : List (ℕ × ℕ) → Bytes → Bytes
written [] memory = memory
written ((at, b) ∷ writes) memory = written writes (upd memory at (b % 256))

abbrev pub answered : Answer → List Answer → ℕ → List ℕ → Outside → Outside
answered a answers sysno args o = record o {
  answers = answers;
  memory = written a.writes o.memory;
  calls = (sysno, args) ∷ o.calls;
}

-- The `ecall`: its number and the arguments, as registers hold them.
unfoldable pub syscall : ℕ → List ℕ → P ℤ
syscall sysno args s o = elim o.answers [
  | [] ↦ none
  | a ∷ answers ↦ some (a.value, (s, answered a answers sysno args o))
]

unfoldable pub uptime : P ℕ
uptime s o = elim o.clock [ [] ↦ none | now ∷ clock ↦ some (now, (s, record o { clock = clock })) ]

-- `errno = e; return -1;`
abbrev pub fail : ℕ → P ℤ
fail e s o = some (minus_one, (record s { errno = pos e }, o))

module _ (libc : Newlib) where
  -- `return handle_retval(ret);`
  abbrev pub retval : ℤ → P ℤ
  retval ret s o = let (r, t) = handle_retval libc ret s in some (r, (t, o))

  -- `errno = translate_error(ret);`
  abbrev pub set_error : ℤ → P (Unit {0})
  set_error ret s o = some (tt, (record s { errno = translate_error libc ret }, o))

  unfoldable pub checked : ℕ → List ℕ → P ℤ
  checked sysno args = do ret ← syscall sysno args; retval ret
