-- ===== src/Shell/Format.antt =====
-- print_formatted of user/sh/shell.c: the prompt and the greeting with their tags.
pub mod Text
pub mod Pieces
use dmaos.Base.{
  ℕ, zero, suc, ◌==◌, if◌then◌else◌, true, false, Option, none, some, List, [], ◌∷◌, ◌++◌, length,
  take,
}
use dmaos.Shell.{same}

abbrev pub quote : ℕ
quote = b'"'

abbrev pub backslash : ℕ
backslash = 92

-- The escape sequence of a colour or a style, "\033[...m".
abbrev pub escape_code : List ℕ → List ℕ
escape_code digits = 27 ∷ b'[' ∷ (digits ++ (b'm' ∷ []))

-- What stands for the byte after a backslash.
unfoldable pub escaped : ℕ → List ℕ
escaped c =
    if c == b'n'
    then 10 ∷ []
    else if c == b'r'
    then 13 ∷ []
    else if c == b't'
    then 9 ∷ []
    else backslash ∷ c ∷ []

-- What stands for a tag.
unfoldable pub tag_text : List ℕ → List ℕ → List ℕ
tag_text cwd tag =
    if same tag (b'c' ∷ b'w' ∷ b'd' ∷ [])
    then cwd
    else if same tag (b'b' ∷ b'l' ∷ b'u' ∷ b'e' ∷ [])
    then escape_code (b'3' ∷ b'4' ∷ [])
    else if same tag (b'g' ∷ b'r' ∷ b'e' ∷ b'e' ∷ b'n' ∷ [])
    then escape_code (b'3' ∷ b'2' ∷ [])
    else if same tag (b'r' ∷ b'e' ∷ b'd' ∷ [])
    then escape_code (b'3' ∷ b'1' ∷ [])
    else if same tag (b'y' ∷ b'e' ∷ b'l' ∷ b'l' ∷ b'o' ∷ b'w' ∷ [])
    then escape_code (b'3' ∷ b'3' ∷ [])
    else if same tag (b'm' ∷ b'a' ∷ b'g' ∷ b'e' ∷ b'n' ∷ b't' ∷ b'a' ∷ [])
    then escape_code (b'3' ∷ b'5' ∷ [])
    else if same tag (b'c' ∷ b'y' ∷ b'a' ∷ b'n' ∷ [])
    then escape_code (b'3' ∷ b'6' ∷ [])
    else if same tag (b'b' ∷ b'o' ∷ b'l' ∷ b'd' ∷ [])
    then escape_code (b'1' ∷ [])
    else if same tag (b'd' ∷ b'e' ∷ b'f' ∷ b'a' ∷ b'u' ∷ b'l' ∷ b't' ∷ [])
    then escape_code (b'0' ∷ [])
    else b'<' ∷ (tag ++ (b'>' ∷ []))

-- The bytes before the first '>' and those after it, if there is one.
unfoldable pub with_byte : ℕ → Option (List ℕ × List ℕ) → Option (List ℕ × List ℕ)
with_byte c none = none
with_byte c (some (tag, rest)) = some (c ∷ tag, rest)

unfoldable pub split_tag : List ℕ → Option (List ℕ × List ℕ)
split_tag [] = none
split_tag (c ∷ s) = if c == b'>' then some ([], s) else with_byte c (split_tag s)

-- What a round puts out, and the rest of the text.
unfoldable pub after_backslash : List ℕ → List ℕ × List ℕ
after_backslash [] = (backslash ∷ [], [])
after_backslash (c ∷ s) = (escaped c, s)

-- At most 31 bytes of the tag are kept.
unfoldable pub tagged : List ℕ → List ℕ → Option (List ℕ × List ℕ) → List ℕ × List ℕ
tagged cwd s none = (b'<' ∷ [], s)
tagged cwd s (some (tag, rest)) = (tag_text cwd (take 31 tag), rest)

unfoldable pub piece : List ℕ → ℕ → List ℕ → List ℕ × List ℕ
piece cwd c s =
    if c == backslash
    then after_backslash s
    else if c == b'<'
    then tagged cwd s (split_tag s)
    else (c ∷ [], s)

-- The loop; each round takes a byte or more.
unfoldable pub pieces : ℕ → List ℕ → List ℕ → List ℕ
pieces zero cwd s = []
pieces (suc rounds) cwd [] = []
pieces (suc rounds) cwd (c ∷ s) = let (out, rest) = piece cwd c s in out ++ pieces rounds cwd rest

-- A quote at the start is left out.
unfoldable pub skip_quote : List ℕ → List ℕ
skip_quote [] = []
skip_quote (c ∷ s) = if c == quote then s else c ∷ s

-- A quote at the end is left out.
unfoldable pub drop_quote : List ℕ → List ℕ
drop_quote [] = []
drop_quote (c ∷ []) = if c == quote then [] else c ∷ []
drop_quote (c ∷ d ∷ s) = c ∷ drop_quote (d ∷ s)

unfoldable pub print_formatted : List ℕ → List ℕ → List ℕ
print_formatted fmt cwd = let p = drop_quote (skip_quote fmt) in pieces (length p) cwd p
