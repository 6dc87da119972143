-- ===== src/Shell/Format/Pieces.antt =====
-- Texts with tags and what print_formatted of user/sh/shell.c makes of them.
use dmaos.Base.{
  ℕ, zero, suc, ◌≤◌, ◌<◌, ◌≡◌, refl, ap, some, List, [], ◌∷◌, ◌++◌, length, take-all, length-append,
  arith,
}
use dmaos.Shell.{same}
use dmaos.Shell.Format.{
  quote, backslash, escaped, tag_text, split_tag, with_byte, after_backslash, tagged, piece, pieces,
  skip_quote, drop_quote, print_formatted,
}
use dmaos.Shell.Format.Text.{
  Style, style_name, style_number, cwd_name, Piece, IsTagName, IsPiece, ArePieces, in_tag, source,
  shown, blue, green, red, yellow, magenta, cyan, bold, normal, plain, newline, carriage_return,
  tab, other_escape, cwd_tag, style_tag, other_tag,
}

split_tag-name :
    (name rest : List ℕ) → IsTagName name → split_tag (name ++ (b'>' ∷ rest)) ≡ some (name, rest)
unfolding split_tag with_byte
split_tag-name [] rest h = refl
split_tag-name (c ∷ name) rest h = rw (h.0, split_tag-name name rest h.1) refl

-- One round takes one part.
piece-plain : (cwd : List ℕ) (c : ℕ) (s : List ℕ) → IsPiece (plain c) → piece cwd c s ≡ (c ∷ [], s)
unfolding piece
piece-plain cwd c s h = rw (h.0, h.1) refl

piece-tag :
    (cwd name rest : List ℕ)
    → IsTagName name
    → length name < 32
    → piece cwd b'<' (name ++ (b'>' ∷ rest)) ≡ (tag_text cwd name, rest)
unfolding piece tagged
piece-tag cwd name rest h short =
    rw (split_tag-name name rest h, take-all 31 name (omega arith)) refl

piece-escape : (cwd : List ℕ) (c : ℕ) (s : List ℕ) → piece cwd backslash (c ∷ s) ≡ (escaped c, s)
unfolding piece after_backslash
piece-escape cwd c s = refl

-- A known name is a tag's, and stands for its sequence.
style_name-IsTagName :
    (style : Style) → IsTagName (style_name style) × (length (style_name style) < 32)
style_name-IsTagName blue = ((refl, (refl, (refl, (refl, tt)))), omega arith)
style_name-IsTagName green = ((refl, (refl, (refl, (refl, (refl, tt))))), omega arith)
style_name-IsTagName red = ((refl, (refl, (refl, tt))), omega arith)
style_name-IsTagName yellow = ((refl, (refl, (refl, (refl, (refl, (refl, tt)))))), omega arith)
style_name-IsTagName magenta =
    ((refl, (refl, (refl, (refl, (refl, (refl, (refl, tt))))))), omega arith)
style_name-IsTagName cyan = ((refl, (refl, (refl, (refl, tt)))), omega arith)
style_name-IsTagName bold = ((refl, (refl, (refl, (refl, tt)))), omega arith)
style_name-IsTagName normal =
    ((refl, (refl, (refl, (refl, (refl, (refl, (refl, tt))))))), omega arith)

style_tag-text :
    (cwd : List ℕ) (style : Style)
    → tag_text cwd (style_name style) ≡ 27 ∷ b'[' ∷ (style_number style ++ (b'm' ∷ []))
unfolding tag_text same
style_tag-text cwd blue = refl
style_tag-text cwd green = refl
style_tag-text cwd red = refl
style_tag-text cwd yellow = refl
style_tag-text cwd magenta = refl
style_tag-text cwd cyan = refl
style_tag-text cwd bold = refl
style_tag-text cwd normal = refl

cwd_tag-text : (cwd : List ℕ) → tag_text cwd cwd_name ≡ cwd
unfolding tag_text same
cwd_tag-text cwd = refl

other_tag-text : (cwd name : List ℕ) → IsPiece (other_tag name) → tag_text cwd name ≡ in_tag name []
unfolding tag_text
other_tag-text cwd name (_, (_, (no_cwd, none_of))) =
    rw
      (
        no_cwd,
        none_of blue,
        none_of green,
        none_of red,
        none_of yellow,
        none_of magenta,
        none_of cyan,
        none_of bold,
        none_of normal,
      )
      refl

other_escaped : (c : ℕ) → IsPiece (other_escape c) → escaped c ≡ backslash ∷ c ∷ []
unfolding escaped
other_escaped c (n, (r, t)) = rw (n, r, t) refl

source-nonempty : (p : Piece) (ps : List Piece) → 0 < length (source (p ∷ ps))
unfolding source
source-nonempty (plain c) ps = omega arith
source-nonempty newline ps = omega arith
source-nonempty carriage_return ps = omega arith
source-nonempty tab ps = omega arith
source-nonempty (other_escape c) ps = omega arith
source-nonempty cwd_tag ps = omega arith
source-nonempty (style_tag style) ps = omega arith
source-nonempty (other_tag name) ps = omega arith

module _ (cwd : List ℕ) where
  -- The loop from its first part on, given what stands for that part.
  pieces-escape :
      (c : ℕ) (out s : List ℕ) (rounds : ℕ) (later : List ℕ)
      → escaped c ≡ out
      → pieces rounds cwd s ≡ later
      → pieces (suc rounds) cwd (backslash ∷ c ∷ s) ≡ out ++ later
  unfolding pieces
  pieces-escape c out s rounds later e rest = rw (piece-escape cwd c s, e, rest) refl

  pieces-tag :
      (name out s : List ℕ) (rounds : ℕ) (later : List ℕ)
      → IsTagName name
      → length name < 32
      → tag_text cwd name ≡ out
      → pieces rounds cwd s ≡ later
      → pieces (suc rounds) cwd (in_tag name s) ≡ out ++ later
  unfolding pieces
  pieces-tag name out s rounds later h short e rest =
      rw (piece-tag cwd name s h short, e, rest) refl

  pieces-source :
      (ps : List Piece) (rounds : ℕ)
      → ArePieces ps
      → length (source ps) ≤ rounds
      → pieces rounds cwd (source ps) ≡ shown cwd ps
  unfolding pieces source shown escaped
  pieces-source [] zero h enough = refl
  pieces-source [] (suc rounds) h enough = refl
  pieces-source (p ∷ ps) zero h enough = absurd (omega (arith, source-nonempty p ps))
  pieces-source (plain c ∷ ps) (suc rounds) h enough =
      rw (piece-plain cwd c (source ps) h.0)
        (ap (λ l. c ∷ l) (pieces-source ps rounds h.1 (omega arith)))
  pieces-source (newline ∷ ps) (suc rounds) h enough =
      pieces-escape b'n' (10 ∷ []) _ rounds _ refl (pieces-source ps rounds h.1 (omega arith))
  pieces-source (carriage_return ∷ ps) (suc rounds) h enough =
      pieces-escape b'r' (13 ∷ []) _ rounds _ refl (pieces-source ps rounds h.1 (omega arith))
  pieces-source (tab ∷ ps) (suc rounds) h enough =
      pieces-escape b't' (9 ∷ []) _ rounds _ refl (pieces-source ps rounds h.1 (omega arith))
  pieces-source (other_escape c ∷ ps) (suc rounds) h enough =
      pieces-escape c _ _ rounds _ (other_escaped c h.0) (pieces-source ps rounds h.1 (omega arith))
  pieces-source (cwd_tag ∷ ps) (suc rounds) h enough =
      pieces-tag cwd_name _ _ rounds _ (refl, (refl, (refl, tt))) (omega arith) (cwd_tag-text cwd)
        (pieces-source ps rounds h.1 (omega arith))
  pieces-source (style_tag style ∷ ps) (suc rounds) h enough =
      let (named, short) = style_name-IsTagName style in
      let x = length-append (style_name style) (b'>' ∷ source ps) in
      pieces-tag (style_name style) _ _ rounds _ named short (style_tag-text cwd style)
        (pieces-source ps rounds h.1 (omega arith))
  pieces-source (other_tag name ∷ ps) (suc rounds) h enough =
      let x = length-append name (b'>' ∷ source ps) in
      pieces-tag name _ _ rounds _ h.0.0 h.0.1.0 (other_tag-text cwd name h.0)
        (pieces-source ps rounds h.1 (omega arith))

drop_quote-end : (s : List ℕ) → drop_quote (s ++ (quote ∷ [])) ≡ s
unfolding drop_quote
drop_quote-end [] = refl
drop_quote-end (c ∷ []) = refl
drop_quote-end (c ∷ d ∷ s) = ap (λ l. c ∷ l) (drop_quote-end (d ∷ s))

-- A text in quotes that is made of plain bytes, escapes and tags of at most 31 bytes is shown part by part:
-- `print_formatted` puts out a newline for "\n", a carriage return for "\r" and a tab for "\t", the current
-- directory for "<cwd>" and the ANSI sequence for the tag of a colour or a style; plain bytes, other escapes
-- and other tags stay as they are.
pub print_formatted-shown :
    (ps : List Piece) (cwd : List ℕ)
    → ArePieces ps
    → print_formatted (quote ∷ (source ps ++ (quote ∷ []))) cwd ≡ shown cwd ps
unfolding print_formatted skip_quote
print_formatted-shown ps cwd h =
    rw (drop_quote-end (source ps)) (pieces-source cwd ps (length (source ps)) h (omega arith))
