-- ===== src/Shell/Format/Text.antt =====
-- Texts with tags, and what is shown for them, of user/sh/shell.c.
use dmaos.Base.{ℕ, ◌<◌, ◌≡◌, ◌==◌, false, List, [], ◌∷◌, ◌++◌, length}
use dmaos.Shell.{same}
use dmaos.Shell.Format.{backslash}

-- A colour or a style, its name in a tag, and the number that ANSI terminals have for it.
pub data Style : Type 0 where
  blue : Style
  green : Style
  red : Style
  yellow : Style
  magenta : Style
  cyan : Style
  bold : Style
  normal : Style

abbrev pub style_name : Style → List ℕ
style_name blue = b'b' ∷ b'l' ∷ b'u' ∷ b'e' ∷ []
style_name green = b'g' ∷ b'r' ∷ b'e' ∷ b'e' ∷ b'n' ∷ []
style_name red = b'r' ∷ b'e' ∷ b'd' ∷ []
style_name yellow = b'y' ∷ b'e' ∷ b'l' ∷ b'l' ∷ b'o' ∷ b'w' ∷ []
style_name magenta = b'm' ∷ b'a' ∷ b'g' ∷ b'e' ∷ b'n' ∷ b't' ∷ b'a' ∷ []
style_name cyan = b'c' ∷ b'y' ∷ b'a' ∷ b'n' ∷ []
style_name bold = b'b' ∷ b'o' ∷ b'l' ∷ b'd' ∷ []
style_name normal = b'd' ∷ b'e' ∷ b'f' ∷ b'a' ∷ b'u' ∷ b'l' ∷ b't' ∷ []

abbrev pub style_number : Style → List ℕ
style_number blue = b'3' ∷ b'4' ∷ []
style_number green = b'3' ∷ b'2' ∷ []
style_number red = b'3' ∷ b'1' ∷ []
style_number yellow = b'3' ∷ b'3' ∷ []
style_number magenta = b'3' ∷ b'5' ∷ []
style_number cyan = b'3' ∷ b'6' ∷ []
style_number bold = b'1' ∷ []
style_number normal = b'0' ∷ []

abbrev pub cwd_name : List ℕ
cwd_name = b'c' ∷ b'w' ∷ b'd' ∷ []

-- A part of a text: a byte as it is, an escape, or a tag.
pub data Piece : Type 0 where
  plain : (c : ℕ) → Piece
  newline : Piece
  carriage_return : Piece
  tab : Piece
  other_escape : (c : ℕ) → Piece
  cwd_tag : Piece
  style_tag : (style : Style) → Piece
  other_tag : (name : List ℕ) → Piece

-- No byte is a '>'.
abbrev pub IsTagName : List ℕ → Type 0
IsTagName [] = Unit
IsTagName (c ∷ s) = ((c == b'>') ≡ false) × IsTagName s

-- A plain byte begins nothing else; another escape is none of the three; another tag has a name of at
-- most 31 bytes, none of those above.
abbrev pub IsPiece : Piece → Type 0
IsPiece (plain c) = ((c == backslash) ≡ false) × ((c == b'<') ≡ false)
IsPiece (other_escape c) = ((c == b'n') ≡ false) × (((c == b'r') ≡ false) × ((c == b't') ≡ false))
IsPiece (other_tag name) =
    IsTagName name
    × ((length name < 32)
        × ((same name cwd_name ≡ false) × ((style : Style) → same name (style_name style) ≡ false)))
IsPiece _ = Unit

abbrev pub ArePieces : List Piece → Type 0
ArePieces [] = Unit
ArePieces (p ∷ ps) = IsPiece p × ArePieces ps

abbrev pub in_tag : List ℕ → List ℕ → List ℕ
in_tag name s = b'<' ∷ (name ++ (b'>' ∷ s))

-- The text of the parts, as it stands in the configuration.
unfoldable pub source : List Piece → List ℕ
source [] = []
source (plain c ∷ ps) = c ∷ source ps
source (newline ∷ ps) = backslash ∷ b'n' ∷ source ps
source (carriage_return ∷ ps) = backslash ∷ b'r' ∷ source ps
source (tab ∷ ps) = backslash ∷ b't' ∷ source ps
source (other_escape c ∷ ps) = backslash ∷ c ∷ source ps
source (cwd_tag ∷ ps) = in_tag cwd_name (source ps)
source (style_tag style ∷ ps) = in_tag (style_name style) (source ps)
source (other_tag name ∷ ps) = in_tag name (source ps)

-- What is shown for it: 10, 13 and 9 for the escapes, the current directory, and "ESC[...m".
unfoldable pub shown : List ℕ → List Piece → List ℕ
shown cwd [] = []
shown cwd (plain c ∷ ps) = c ∷ shown cwd ps
shown cwd (newline ∷ ps) = 10 ∷ shown cwd ps
shown cwd (carriage_return ∷ ps) = 13 ∷ shown cwd ps
shown cwd (tab ∷ ps) = 9 ∷ shown cwd ps
shown cwd (other_escape c ∷ ps) = backslash ∷ c ∷ shown cwd ps
shown cwd (cwd_tag ∷ ps) = cwd ++ shown cwd ps
shown cwd (style_tag style ∷ ps) = (27 ∷ b'[' ∷ (style_number style ++ (b'm' ∷ []))) ++ shown cwd ps
shown cwd (other_tag name ∷ ps) = in_tag name [] ++ shown cwd ps
