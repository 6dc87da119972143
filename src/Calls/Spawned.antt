-- ===== src/Calls/Spawned.antt =====
-- SYSCALL_SPAWN and the references, kernel/kernel.c.
use dmaos.Base.{ℕ, ◌≡◌, true, none, some, Option, List, [], ◌∷◌, ℤ, pos, negsuc}
use dmaos.Machine.{Kernel}
use dmaos.Machine.Post.{Post, returned, bind, either}
use dmaos.Process.{is_unused}
use dmaos.Holders.{IsSound, none_held}
use dmaos.UserMem.{validate_user_string}
use dmaos.Spawn.{spawn_process, spawn_args, pid_of}
use dmaos.Spawn.Create.{Made, create_process-Made}
use dmaos.Calls.{sys_spawn}

-- A number that is not negative comes with a sound state.
abbrev pub SoundIf : ℤ → Kernel → Type 0
SoundIf (pos n) k = IsSound none_held k
SoundIf (negsuc n) k = Unit

-- No free slot of the table names a current directory.
abbrev pub FreeNamesNone : Kernel → Type 0
FreeNamesNone k = (q : ℕ) → is_unused (k.procs q).state ≡ true → (k.procs q).cwd ≡ none

pid_of-SoundIf :
    (free_ram kernel_base : ℕ) (p : Option ℕ) (k : Kernel)
    → Made none_held p k
    → Post SoundIf (pid_of free_ram kernel_base p k)
unfolding pid_of
pid_of-SoundIf free_ram kernel_base none k s = returned tt
pid_of-SoundIf free_ram kernel_base (some p) k s = returned s

spawn_args-SoundIf :
    (free_ram kernel_base : ℕ) (args : List (List ℕ)) (k : Kernel)
    → IsSound none_held k
    → FreeNamesNone k
    → Post SoundIf (spawn_args free_ram kernel_base args k)
unfolding spawn_args
spawn_args-SoundIf free_ram kernel_base [] k s free = returned tt
spawn_args-SoundIf free_ram kernel_base (arg ∷ args) k s free =
    bind (create_process-Made free_ram kernel_base none (arg ∷ args) k s free)
      (λ p k1 m. pid_of-SoundIf free_ram kernel_base p k1 m)

pub sys_spawn-SoundIf :
    (free_ram kernel_base t1 cmdline : ℕ) (k : Kernel)
    → IsSound none_held k
    → FreeNamesNone k
    → Post SoundIf (sys_spawn free_ram kernel_base t1 cmdline k)
unfolding sys_spawn spawn_process
sys_spawn-SoundIf free_ram kernel_base t1 cmdline k s free =
    either (validate_user_string k.words t1 cmdline) _ _
      (spawn_args-SoundIf free_ram kernel_base _ k s free) (returned tt)
