-- ===== src/Shell/Cursor.antt =====
-- get_cursor_column and detect_utf8 of user/sh/shell.c. What getchar returns in turn is a list of bytes.
pub mod Reply
use dmaos.Base.{
  ℕ, zero, suc, ◌+◌, ◌-◌, ◌*◌, ◌%◌, ◌^◌, ◌==◌, ◌&&◌, not, ltb, leb, if◌then◌else◌, Bool, true,
  false, Option, none, some, List, [], ◌∷◌, ℤ, pos, negsuc, signed32,
}
use mathlib.Core.Option
use dmaos.Machine.Consts.{minus_one}

abbrev pub is_digit : ℕ → Bool
is_digit ch = leb b'0' ch && leb ch b'9'

-- The result and what the terminal sends after it; `none` while the program still waits.
abbrev pub Read : Type 0
Read = Option (ℤ × List ℕ)

-- `col`, an `int` given as its 32 bits, up to the 'R'.
unfoldable pub read_col : ℕ → List ℕ → Read
read_col col [] = none
read_col col (ch ∷ input) =
    let later = read_col ((col * 10 + (ch - b'0')) % 2 ^ 32) input in
    if ch == b'R'
    then some (signed32 col, input)
    else if is_digit ch
    then later
    else some (minus_one, input)

-- The digits of the line, up to the ';'.
unfoldable pub skip_line : List ℕ → Read
skip_line [] = none
skip_line (ch ∷ input) =
    let later = skip_line input in
    if ch == b';' then read_col 0 input else if is_digit ch then later else some (minus_one, input)

unfoldable pub after_escape : List ℕ → Read
after_escape [] = none
after_escape (ch ∷ input) = if ch == b'[' then skip_line input else some (minus_one, input)

-- The answer to the query "\033[6n".
unfoldable pub get_cursor_column : List ℕ → Read
get_cursor_column [] = none
get_cursor_column (ch ∷ input) = if ch == 27 then after_escape input else some (minus_one, input)

-- "\b \b", `n` times.
unfoldable pub erase : ℕ → List ℕ
erase zero = []
erase (suc n) = 8 ∷ b' ' ∷ 8 ∷ erase n

-- What is put out after the second query, and whether the test character takes one column.
unfoldable pub compare_columns : ℕ → ℤ × List ℕ → (List ℕ × Bool) × List ℕ
compare_columns col1 (negsuc _, input) = (([], false), input)
compare_columns col1 (pos col2, input) = ((erase (col2 - col1), col2 - col1 == 1), input)

unfoldable pub second_query : ℤ × List ℕ → Option ((List ℕ × Bool) × List ℕ)
second_query (negsuc _, input) = some (([], false), input)
second_query (pos col1, input) = Option.map (compare_columns col1) (get_cursor_column input)

unfoldable pub first_answer : Read → Option ((List ℕ × Bool) × List ℕ)
first_answer none = none
first_answer (some answer) = second_query answer

unfoldable pub detect_utf8 : List ℕ → Option ((List ℕ × Bool) × List ℕ)
detect_utf8 input = first_answer (get_cursor_column input)
