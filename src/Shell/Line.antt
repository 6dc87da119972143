-- ===== src/Shell/Line.antt =====
-- The line editor in main of user/sh/shell.c. What getchar returns in turn is a list of bytes.
pub mod Screen
use dmaos.Base.{
  ℕ, zero, suc, ◌+◌, sub32, ◌==◌, ◌||◌, ltb, if◌then◌else◌, Option, none, some, List, [], ◌∷◌, ◌++◌,
  Bytes, upd,
}

-- `cmdline` and `i`, an `int` as its 32 bits.
pub record Line : Type 0 where
  pub buf : Bytes
  pub i : ℕ

-- A byte other than '\r': what is put out, and the line.
unfoldable pub edit : ℕ → Line → List ℕ × Line
edit ch l =
    if ch == 8 || ch == 127
    then if ltb 0 l.i then (8 ∷ b' ' ∷ 8 ∷ [], record l { i = sub32 l.i 1 }) else ([], l)
    else if ltb l.i 127
    then (ch ∷ [], record { buf = upd l.buf l.i ch; i = l.i + 1 })
    else (7 ∷ [], l)

-- What a read ends in: what was put out, the line, and what is typed after it.
pub record Entered : Type 0 where
  pub echo : List ℕ
  pub line : Line
  pub rest : List ℕ

abbrev pub echoed : List ℕ → Option Entered → Option Entered
echoed out none = none
echoed out (some e) = some (record e { echo = out ++ e.echo })

-- The loop; `none` while no '\r' comes. The newline that a '\r' puts out is left out of the echo.
unfoldable pub read_line : List ℕ → Line → Option Entered
read_line [] l = none
read_line (ch ∷ typed) l =
    let (out, l') = edit ch l in
    let later = echoed out (read_line typed l') in
    if ch == 13 then some (record { echo = []; line = l; rest = typed }) else later
