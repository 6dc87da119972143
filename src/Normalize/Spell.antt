-- ===== src/Normalize/Spell.antt =====
-- Paths written out of their components, behind fs_normalize_path of kernel/fs.c.
use dmaos.Base.{
  ◌∙◌, ℕ, zero, suc, ◌+◌, ◌-◌, ◌≤◌, ◌<◌, ◌≡◌, ltb, refl, ap, inl, inr, Bool-cases, true, false,
  ◌&&◌, List, [], ◌∷◌, ◌++◌, length, length-append, arith, take-all,
}
use mathlib.Core.List.{append_assoc}
use dmaos.Machine.Consts.{max_path_depth, max_filename}
use dmaos.Str.{strcmp, is_zero}
use dmaos.Str.Compare.{strcmp-zero_iff, IsString}
use dmaos.Dir.{dot, dotdot}
use dmaos.Names.{slash, skip_slashes, component, after_component}
use dmaos.Normalize.{add_token, tokens_of, render, add_slash, append_upto}
use dmaos.Normalize.Paths.{HasNoSlash, IsToken, AreTokens}

-- The components with a slash before each, the first one first.
unfoldable pub spell : List (List ℕ) → List ℕ
spell [] = []
spell (t ∷ ts) = slash ∷ (t ++ spell ts)

-- The components, moved to those with the last one first.
unfoldable pub move : List (List ℕ) → List (List ℕ) → List (List ℕ)
move [] tokens = tokens
move (t ∷ ts) tokens = move ts (t ∷ tokens)

-- The bytes of a path with these components.
unfoldable pub path_length : List (List ℕ) → ℕ
path_length [] = 0
path_length (t ∷ tokens) = suc (length t) + path_length tokens

component-spell : (t : List ℕ) (ts : List (List ℕ)) → HasNoSlash t → component (t ++ spell ts) ≡ t
unfolding component spell
component-spell [] [] h = refl
component-spell [] (u ∷ ts) h = refl
component-spell (c ∷ t) ts h = rw h.0 (ap (λ l. c ∷ l) (component-spell t ts h.1))

after_component-spell :
    (t : List ℕ) (ts : List (List ℕ)) → HasNoSlash t → after_component (t ++ spell ts) ≡ spell ts
unfolding after_component spell
after_component-spell [] [] h = refl
after_component-spell [] (u ∷ ts) h = refl
after_component-spell (c ∷ t) ts h = rw h.0 (after_component-spell t ts h.1)

-- A component whose bytes are a string is added as it is.
add_token-IsToken :
    (t : List ℕ) (tokens : List (List ℕ))
    → IsToken t
    → IsString t
    → length tokens < max_path_depth
    → add_token t tokens ≡ t ∷ tokens
unfolding add_token
add_token-IsToken t tokens h string room =
    let a : is_zero (strcmp t dot) ≡ false = elim (Bool-cases (is_zero (strcmp t dot))) [
      | inl e ↦ absurd (h.not_dot ((strcmp-zero_iff t dot string ((λ z. omega arith), tt)).0 e))
      | inr e ↦ e
    ] in
    let b : is_zero (strcmp t dotdot) ≡ false = elim (Bool-cases (is_zero (strcmp t dotdot))) [
      | inl e ↦ absurd (
          h.not_dotdot
            ((strcmp-zero_iff t dotdot string ((λ z. omega arith), ((λ z. omega arith), tt))).0 e))
      | inr e ↦ e
    ] in
    let c : ltb 0 (length t) && ltb (length tokens) max_path_depth ≡ true =
      let x = h.some_byte in ground arith in
    rw (a, b, c)
      (ap (λ l. l ∷ tokens) (take-all (max_filename - 1) t (let x = h.fits in omega arith)))

-- The first bytes of a component are no slashes.
skip_slashes-token : (t : List ℕ) (rest : List ℕ) → IsToken t → skip_slashes (t ++ rest) ≡ t ++ rest
unfolding skip_slashes
skip_slashes-token [] rest h = absurd (let x = h.some_byte in omega arith)
skip_slashes-token (c ∷ t) rest h = rw h.no_slash.0 refl

abbrev pub AreStrings : List (List ℕ) → Type 0
AreStrings [] = Unit
AreStrings (t ∷ ts) = IsString t × AreStrings ts

-- One round of the loop on a path that starts with a component.
tokens_of-token :
    (rounds : ℕ) (t : List ℕ) (ts tokens : List (List ℕ))
    → IsToken t
    → IsString t
    → length tokens < max_path_depth
    → tokens_of (suc rounds) (t ++ spell ts) tokens
      ≡ tokens_of rounds (skip_slashes (spell ts)) (t ∷ tokens)
unfolding tokens_of
tokens_of-token rounds [] ts tokens h string room = absurd (let x = h.some_byte in omega arith)
tokens_of-token rounds (c ∷ t) ts tokens h string room =
    rw (component-spell (c ∷ t) ts h.no_slash, after_component-spell (c ∷ t) ts h.no_slash)
      (rw (add_token-IsToken (c ∷ t) tokens h string room) refl)

pub tokens_of-spell :
    (rounds : ℕ) (ts tokens : List (List ℕ))
    → AreTokens ts
    → AreStrings ts
    → length tokens + length ts ≤ max_path_depth
    → length ts ≤ rounds
    → tokens_of rounds (skip_slashes (spell ts)) tokens ≡ move ts tokens
unfolding spell skip_slashes tokens_of move
tokens_of-spell zero [] tokens h strings room enough = refl
tokens_of-spell (suc rounds) [] tokens h strings room enough = refl
tokens_of-spell zero (t ∷ ts) tokens h strings room enough = absurd (omega arith)
tokens_of-spell (suc rounds) (t ∷ ts) tokens h strings room enough =
    rw (skip_slashes-token t (spell ts) h.0) (
      tokens_of-token rounds t ts tokens h.0 strings.0 (omega arith)
      ∙ tokens_of-spell rounds ts (t ∷ tokens) h.1 strings.1 (omega arith) (omega arith))

-- Components that fit are written out in full.
append_upto-fits :
    (size : ℕ) (buf s : List ℕ) → length buf + length s < size → append_upto size buf s ≡ buf ++ s
append_upto-fits size buf s h =
    ap (λ l. buf ++ l) (take-all (size - length buf - 1) s (omega arith))

pub render-fits :
    (dst_len : ℕ) (t : List ℕ) (tokens rest : List (List ℕ))
    → path_length (t ∷ tokens) < dst_len
    → (length (render dst_len (t ∷ tokens)) ≡ path_length (t ∷ tokens))
      × (render dst_len (t ∷ tokens) ++ spell rest ≡ spell (move (t ∷ tokens) rest))
unfolding render add_slash path_length spell move
render-fits dst_len t [] rest h =
    let e = append_upto-fits dst_len (slash ∷ []) t (omega arith) in
    (ap length e ∙ omega arith, ap (λ l. l ++ spell rest) e)
render-fits dst_len t (u ∷ tokens) rest h =
    let before = render dst_len (u ∷ tokens) in
    let (len, spelled) = render-fits dst_len u tokens (t ∷ rest) (omega arith) in
    let a : append_upto dst_len before (slash ∷ []) ≡ before ++ slash ∷ [] =
      append_upto-fits dst_len before (slash ∷ []) (omega arith) in
    let x = length-append before (slash ∷ []) in
    let b = append_upto-fits dst_len (before ++ slash ∷ []) t (omega arith) in
    let whole : render dst_len (t ∷ u ∷ tokens) ≡ (before ++ slash ∷ []) ++ t =
      ap (λ l. append_upto dst_len l t) a ∙ b in
    let y = length-append (before ++ slash ∷ []) t in
    (
      ap length whole ∙ omega arith,
      ap (λ l. l ++ spell rest) whole
          ∙ append_assoc (before ++ slash ∷ []) t (spell rest)
          ∙ append_assoc before (slash ∷ []) (t ++ spell rest)
          ∙ spelled,
    )

pub move-nil : (tokens : List (List ℕ)) → move [] tokens ≡ tokens
unfolding move
move-nil tokens = refl

pub move-move :
    (ts tokens rest : List (List ℕ)) → move (move ts tokens) rest ≡ move tokens (ts ++ rest)
unfolding move
move-move [] tokens rest = refl
move-move (t ∷ ts) tokens rest = move-move ts (t ∷ tokens) rest

pub move-AreTokens :
    (ts tokens : List (List ℕ)) → AreTokens ts → AreTokens tokens → AreTokens (move ts tokens)
unfolding move
move-AreTokens [] tokens h h' = h'
move-AreTokens (t ∷ ts) tokens h h' = move-AreTokens ts (t ∷ tokens) h.1 (h.0, h')

pub move-AreStrings :
    (ts tokens : List (List ℕ)) → AreStrings ts → AreStrings tokens → AreStrings (move ts tokens)
unfolding move
move-AreStrings [] tokens h h' = h'
move-AreStrings (t ∷ ts) tokens h h' = move-AreStrings ts (t ∷ tokens) h.1 (h.0, h')

pub length-move : (ts tokens : List (List ℕ)) → length (move ts tokens) ≡ length ts + length tokens
unfolding move
length-move [] tokens = omega arith
length-move (t ∷ ts) tokens = let x = length-move ts (t ∷ tokens) in omega arith

length-spell : (ts : List (List ℕ)) → length ts ≤ length (spell ts)
unfolding spell
length-spell [] = omega arith
length-spell (t ∷ ts) = let x = length-append t (spell ts) in let y = length-spell ts in omega arith

-- The path has a byte for each component, without its leading slash.
pub length-skip_slashes :
    (ts : List (List ℕ)) → AreTokens ts → length ts ≤ length (skip_slashes (spell ts))
unfolding spell skip_slashes
length-skip_slashes [] h = omega arith
length-skip_slashes (t ∷ ts) h =
    let a = h.0.some_byte in
    let x = length-append t (spell ts) in
    let y = length-spell ts in rw (skip_slashes-token t (spell ts) h.0) (omega arith)
