-- ===== src/Shell/Config.antt =====
-- init_config of user/sh/shell.c: the lines of /cfg/dmash.cfg and the directories of PATH.
pub mod Fields
use dmaos.Base.{
  ℕ, zero, suc, ◌-◌, ◌==◌, ◌||◌, ◌&&◌, if◌then◌else◌, List, [], ◌∷◌, length, take, drop,
}
use dmaos.Machine.Consts.{max_path}
use dmaos.Shell.{starts_with}

abbrev pub max_path_dirs : ℕ
max_path_dirs = 32

-- `path_buf`, `prompt_fmt` and `msg_fmt`.
pub record Config : Type 0 where
  pub path : List ℕ
  pub prompt : List ℕ
  pub msg : List ℕ

abbrev pub path_key : List ℕ
path_key = b'P' ∷ b'A' ∷ b'T' ∷ b'H' ∷ b'=' ∷ []

abbrev pub prompt_key : List ℕ
prompt_key = b'P' ∷ b'R' ∷ b'O' ∷ b'M' ∷ b'P' ∷ b'T' ∷ b'=' ∷ []

abbrev pub msg_key : List ℕ
msg_key = b'M' ∷ b'S' ∷ b'G' ∷ b'=' ∷ []

-- One line.
unfoldable pub set_line : List ℕ → Config → Config
set_line line c =
    if starts_with path_key line
    then record c { path = take (max_path - 1) (drop 5 line) }
    else if starts_with prompt_key line
    then record c { prompt = take 255 (drop 7 line) }
    else if starts_with msg_key line
    then record c { msg = take 255 (drop 4 line) }
    else c

-- The bytes up to the end of a line, and those from there on.
unfoldable pub line_of : List ℕ → List ℕ
line_of [] = []
line_of (c ∷ s) = if c == 10 || c == 13 then [] else c ∷ line_of s

unfoldable pub from_eol : List ℕ → List ℕ
from_eol [] = []
from_eol (c ∷ s) = if c == 10 || c == 13 then c ∷ s else from_eol s

-- The next line, behind "\n", "\r" or "\r\n".
unfoldable pub after_eol : List ℕ → List ℕ
after_eol [] = []
after_eol (c ∷ []) = []
after_eol (c ∷ d ∷ s) = if c == 13 && d == 10 then s else d ∷ s

unfoldable pub config_lines : ℕ → List ℕ → Config → Config
config_lines zero text c = c
config_lines (suc rounds) [] c = c
config_lines (suc rounds) (b ∷ text) c =
    config_lines rounds (after_eol (from_eol (b ∷ text))) (set_line (line_of (b ∷ text)) c)

unfoldable pub skip_colons : List ℕ → List ℕ
skip_colons [] = []
skip_colons (c ∷ s) = if c == b':' then skip_colons s else c ∷ s

-- The bytes before the next colon, and those after it.
unfoldable pub dir_of : List ℕ → List ℕ
dir_of [] = []
dir_of (c ∷ s) = if c == b':' then [] else c ∷ dir_of s

unfoldable pub after_colon : List ℕ → List ℕ
after_colon [] = []
after_colon (c ∷ s) = if c == b':' then s else after_colon s

-- One directory, and the rest of them; there is none at the end of the text.
unfoldable pub next_dir : (List ℕ → List (List ℕ)) → List ℕ → List (List ℕ)
next_dir rest [] = []
next_dir rest (c ∷ p) = dir_of (c ∷ p) ∷ rest (after_colon (c ∷ p))

-- The loop with room for `room` more directories.
unfoldable pub path_dirs : ℕ → List ℕ → List (List ℕ)
path_dirs zero p = []
path_dirs (suc room) p = next_dir (λ q. path_dirs room q) (skip_colons p)

-- What is set up from the first 1023 bytes of the file.
unfoldable pub init_config : List ℕ → Config → Config × List (List ℕ)
init_config text c =
    let config = take 1023 text in
    let set = config_lines (length config) config c in (set, path_dirs max_path_dirs set.path)
