-- ===== src/Shell/Run.antt =====
-- run_command, cd_cmd and the choice of a command in main of user/sh/shell.c.
pub mod Short
use dmaos.Base.{
  ℕ, suc, ◌+◌, ◌-◌, ◌==◌, ◌&&◌, ◌||◌, if◌then◌else◌, Bool, true, false, List, [], ◌∷◌, ◌++◌, length,
  take, drop, ℤ, is_neg,
}
use dmaos.Machine.Consts.{max_path}
use dmaos.Process.{skip_spaces}
use dmaos.Names.{slash}
use dmaos.Normalize.{append_upto, ends_open}
use dmaos.Shell.{same, starts_with}

abbrev pub max_cmd_name : ℕ
max_cmd_name = 64

-- The bytes before the first space.
unfoldable pub first_word : List ℕ → List ℕ
first_word [] = []
first_word (c ∷ s) = if c == b' ' then [] else c ∷ first_word s

-- `cmd_name`.
abbrev pub cmd_name_of : List ℕ → List ℕ
cmd_name_of cmdline = take (max_cmd_name - 1) (first_word cmdline)

unfoldable pub has_slash : List ℕ → Bool
has_slash [] = false
has_slash (c ∷ s) = if c == slash then true else has_slash s

-- `full_path`.
unfoldable pub full_path : List ℕ → List ℕ → List ℕ
full_path dir name =
    let first = take (max_path - 1) dir in
    let open_dir = if ends_open first then append_upto max_path first (slash ∷ []) else first in
    append_upto max_path open_dir name

-- `new_cmdline`, of the path found and the arguments.
unfoldable pub with_args : List ℕ → List ℕ → List ℕ
with_args path [] = take (max_path - 1) path
with_args path (c ∷ args) =
    append_upto max_path (append_upto max_path (take (max_path - 1) path) (b' ' ∷ [])) (c ∷ args)

-- "unknown command: %s\n".
abbrev pub unknown_command : List ℕ → List ℕ
unknown_command cmdline =
    b'u'
    ∷ b'n'
    ∷ b'k'
    ∷ b'n'
    ∷ b'o'
    ∷ b'w'
    ∷ b'n'
    ∷ b' '
    ∷ b'c'
    ∷ b'o'
    ∷ b'm'
    ∷ b'm'
    ∷ b'a'
    ∷ b'n'
    ∷ b'd'
    ∷ b':'
    ∷ b' '
    ∷ (cmdline ++ (10 ∷ []))

-- The path of `cd`.
unfoldable pub cd_path : List ℕ → List ℕ
cd_path cmdline = elim (skip_spaces (drop 2 cmdline)) [ [] ↦ slash ∷ [] | c ∷ p ↦ c ∷ p ]

-- What a line asks for.
pub data Command : Type 0 where
  exit_shell : Command
  show_kmesg : Command
  change_dir : (path : List ℕ) → Command
  run : (cmdline : List ℕ) → Command

-- "cd" alone, or with a space behind it.
unfoldable pub is_cd : List ℕ → Bool
is_cd cmdline =
    starts_with (b'c' ∷ b'd' ∷ []) cmdline
    && (same (drop 2 cmdline) [] || starts_with (b' ' ∷ []) (drop 2 cmdline))

unfoldable pub command_of : List ℕ → Command
command_of cmdline =
    if same cmdline (b'e' ∷ b'x' ∷ b'i' ∷ b't' ∷ [])
    then exit_shell
    else if same cmdline (b'k' ∷ b'm' ∷ b'e' ∷ b's' ∷ b'g' ∷ [])
    then show_kmesg
    else if is_cd cmdline
    then change_dir (cd_path cmdline)
    else run cmdline

-- The calls of the shell, on a state of the machine: whether a path is a regular file, a spawn with the PID
-- or the error that it returns, a wait, and a text that is put out.
module _ {W : Type 0} (regular : List ℕ → W → Bool × W) (spawn : List ℕ → W → ℤ × W)
    (wait : ℤ → W → W) (print : List ℕ → W → W) where
  -- The process is waited for; true if there is one.
  unfoldable pub wait_for : ℤ × W → Bool × W
  wait_for (pid, w) = if is_neg pid then (false, w) else (true, wait pid w)

  unfoldable pub start_command : List ℕ → Bool × W → Bool × W
  start_command cmdline (found, w) = if found then wait_for (spawn cmdline w) else (false, w)

  -- The directories in turn, up to the first one with a program that can be started.
  unfoldable pub search : List ℕ → List ℕ → List (List ℕ) → W → Bool × W
  search name args [] w = (false, w)
  search name args (dir ∷ dirs) w =
      let path = full_path dir name in
      let (found, w') = start_command (with_args path args) (regular path w) in
      let later = search name args dirs w' in if found then (true, w') else later

  unfoldable pub report : List ℕ → Bool × W → W
  report cmdline (found, w) = if found then w else print (unknown_command cmdline) w

  unfoldable pub run_command : List (List ℕ) → List ℕ → W → W
  run_command dirs cmdline w =
      let name = cmd_name_of cmdline in
      let args = skip_spaces (drop (length name) cmdline) in
      if length name == 0
      then w
      else if has_slash name
      then report cmdline (wait_for (spawn cmdline w))
      else report cmdline (search name args dirs w)
