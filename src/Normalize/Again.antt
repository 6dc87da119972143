-- ===== src/Normalize/Again.antt =====
-- The path that fs_normalize_path of kernel/fs.c writes, normalized again.
use dmaos.Base.{
  ◌∙◌, ℕ, ◌-◌, ◌≤◌, ◌<◌, ◌≡◌, refl, ap, sym, true, List, [], ◌∷◌, ◌++◌, length, arith, take-all,
}
use mathlib.Core.List.{append-nil}
use dmaos.Machine.Consts.{max_path, max_path_depth}
use dmaos.Str.Compare.{IsString}
use dmaos.Names.{starts_at_root, skip_slashes}
use dmaos.Normalize.{tokens_of, render, add_slash, append_upto, joined, fs_normalize_path}
use dmaos.Normalize.Paths.{AreTokens, length-render, tokens_of-AreTokens}
use dmaos.Normalize.Strings.{skip_slashes-IsString, joined-IsString, tokens_of-AreStrings}
use dmaos.Normalize.Spell.{
  path_length, move, spell, AreStrings, tokens_of-spell, move-nil, move-move, move-AreTokens,
  move-AreStrings, length-move, length-skip_slashes, render-fits,
}

add_slash-root :
    (dst_len : ℕ) (tokens : List (List ℕ)) (s : List ℕ)
    → starts_at_root s ≡ true
    → starts_at_root (add_slash dst_len tokens s) ≡ true
unfolding add_slash
add_slash-root dst_len [] s h = h
add_slash-root dst_len (t ∷ tokens) [] h = cc
add_slash-root dst_len (t ∷ tokens) (c ∷ s) h = h

append_upto-root :
    (size : ℕ) (buf s : List ℕ)
    → starts_at_root buf ≡ true
    → starts_at_root (append_upto size buf s) ≡ true
append_upto-root size [] s h = cc
append_upto-root size (c ∷ buf) s h = h

render-root : (dst_len : ℕ) (tokens : List (List ℕ)) → starts_at_root (render dst_len tokens) ≡ true
unfolding render
render-root dst_len [] = refl
render-root dst_len (t ∷ tokens) =
    append_upto-root dst_len (add_slash dst_len tokens (render dst_len tokens)) t
      (add_slash-root dst_len tokens (render dst_len tokens) (render-root dst_len tokens))

-- What is left of the path for the loop.
skip_slashes-render :
    (dst_len : ℕ) (tokens : List (List ℕ))
    → path_length tokens < dst_len
    → skip_slashes (render dst_len tokens) ≡ skip_slashes (spell (move tokens []))
unfolding skip_slashes render spell move
skip_slashes-render dst_len [] h = refl
skip_slashes-render dst_len (t ∷ tokens) h =
    ap skip_slashes
      (sym (append-nil (render dst_len (t ∷ tokens))) ∙ (render-fits dst_len t tokens [] h).1)

-- The loop finds the components of a path that is written out of them.
tokens_of-render :
    (dst_len : ℕ) (tokens : List (List ℕ))
    → AreTokens tokens
    → AreStrings tokens
    → length tokens ≤ max_path_depth
    → path_length tokens < dst_len
    → (let p = skip_slashes (render dst_len tokens) in tokens_of (length p) p []) ≡ tokens
tokens_of-render dst_len tokens h strings few fits =
    let ts = move tokens [] in
    let e = skip_slashes-render dst_len tokens fits in
    let are = move-AreTokens tokens [] h tt in
    let n = length-move tokens [] in
    ap (λ p. tokens_of (length p) p []) e
    ∙ tokens_of-spell (length (skip_slashes (spell ts))) ts [] are
        (move-AreStrings tokens [] strings tt) (omega arith) (length-skip_slashes ts are)
    ∙ move-move tokens [] []
    ∙ (move-nil (tokens ++ []) ∙ append-nil tokens)

-- A path that starts at the root is taken alone.
joined-root :
    (base rel : List ℕ) → starts_at_root rel ≡ true → length rel < max_path → joined base rel ≡ rel
unfolding joined
joined-root base rel root short = rw root (take-all (max_path - 1) rel (omega arith))

fs_normalize_path-render :
    (base : List ℕ) (dst_len : ℕ) (tokens : List (List ℕ))
    → AreTokens tokens
    → AreStrings tokens
    → length tokens ≤ max_path_depth
    → path_length tokens < dst_len
    → 1 < dst_len
    → dst_len ≤ max_path
    → fs_normalize_path base (render dst_len tokens) dst_len ≡ render dst_len tokens
unfolding fs_normalize_path
fs_normalize_path-render base dst_len tokens h strings few fits some_room size =
    let q = render dst_len tokens in
    let short = length-render dst_len tokens some_room in
    let e = joined-root base q (render-root dst_len tokens) (omega arith) in
    rw e (ap (render dst_len) (tokens_of-render dst_len tokens h strings few fits))

-- The components that `fs_normalize_path` finds.
abbrev pub found_tokens : List ℕ → List ℕ → List (List ℕ)
found_tokens base rel = let p = skip_slashes (joined base rel) in tokens_of (length p) p []

-- `fs_normalize_path` of a path that it has made, in a buffer of 2 to 256 bytes that the components it
-- had found fit in, gives that path again, whatever the base is then.
pub fs_normalize_path-again :
    (base rel base' : List ℕ) (dst_len : ℕ)
    → IsString base
    → IsString rel
    → 1 < dst_len
    → dst_len ≤ max_path
    → path_length (found_tokens base rel) < dst_len
    → fs_normalize_path base' (fs_normalize_path base rel dst_len) dst_len
      ≡ fs_normalize_path base rel dst_len
unfolding fs_normalize_path
fs_normalize_path-again base rel base' dst_len hb hr room size fits =
    let p = skip_slashes (joined base rel) in
    let string = skip_slashes-IsString (joined base rel) (joined-IsString base rel hb hr) in
    let (are, few) = tokens_of-AreTokens (length p) p [] (tt, omega arith) in
    fs_normalize_path-render base' dst_len (found_tokens base rel) are
      (tokens_of-AreStrings (length p) p [] string tt) few fits room size
