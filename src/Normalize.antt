-- ===== src/Normalize.antt =====
-- Absolute names of directories: fs_normalize_path of kernel/fs.c. A path is a C string, as a list.
pub mod Paths
pub mod Spell
pub mod Strings
pub mod Again
use dmaos.Base.{
  ℕ, zero, suc, ◌-◌, ltb, ◌==◌, if◌then◌else◌, Bool, true, false, not, ◌&&◌, List, [], ◌∷◌, ◌++◌,
  take, length,
}
use dmaos.Machine.Consts.{max_path, max_path_depth, max_filename}
use dmaos.Str.{strcmp, is_zero}
use dmaos.Names.{slash, starts_at_root, skip_slashes, component, after_component}
use dmaos.Dir.{dot, dotdot}

-- `buf[len - 1] != '/'`, for `len > 0`.
unfoldable pub ends_open : List ℕ → Bool
ends_open [] = false
ends_open (c ∷ []) = not (c == slash)
ends_open (c ∷ d ∷ s) = ends_open (d ∷ s)

-- `strncat(buf, s, sizeof(buf) - strlen(buf) - 1)`.
abbrev pub append_upto : ℕ → List ℕ → List ℕ → List ℕ
append_upto size buf s = buf ++ take (size - length buf - 1) s

-- The name before it is split: `rel` alone if it starts at the root, else behind `base`; at most
-- 255 bytes. `base` has at most 254: from 255 on the buffer has no NUL yet where the source takes its
-- length, and what the source does then is not modelled.
unfoldable pub joined : List ℕ → List ℕ → List ℕ
joined base rel =
    let start = take (max_path - 1) base in
    let dir = if ends_open start then append_upto max_path start (slash ∷ []) else start in
    if starts_at_root rel then take (max_path - 1) rel else append_upto max_path dir rel

-- `--num_tokens`, unless there is none. The tokens stand with the last one first.
unfoldable pub drop_token : List (List ℕ) → List (List ℕ)
drop_token [] = []
drop_token (t ∷ tokens) = tokens

-- The tokens after the component `p`.
unfoldable pub add_token : List ℕ → List (List ℕ) → List (List ℕ)
add_token p tokens =
    if is_zero (strcmp p dot)
    then tokens
    else if is_zero (strcmp p dotdot)
    then drop_token tokens
    else if ltb 0 (length p) && ltb (length tokens) max_path_depth
    then take (max_filename - 1) p ∷ tokens
    else tokens

-- The loop over the components of a path without leading slashes.
unfoldable pub tokens_of : ℕ → List ℕ → List (List ℕ) → List (List ℕ)
tokens_of zero p tokens = tokens
tokens_of (suc rounds) [] tokens = tokens
tokens_of (suc rounds) (c ∷ p) tokens =
    tokens_of rounds (skip_slashes (after_component (c ∷ p))) (add_token (component (c ∷ p)) tokens)

-- A slash before every token but the first.
unfoldable pub add_slash : ℕ → List (List ℕ) → List ℕ → List ℕ
add_slash dst_len [] dst = dst
add_slash dst_len (_ ∷ _) dst = append_upto dst_len dst (slash ∷ [])

-- The last loop, from the first token on, for a destination of at least two bytes: for fewer
-- `dst_len - strlen(dst) - 1` wraps around, which is not modelled.
unfoldable pub render : ℕ → List (List ℕ) → List ℕ
render dst_len [] = slash ∷ []
render dst_len (t ∷ tokens) =
    append_upto dst_len (add_slash dst_len tokens (render dst_len tokens)) t

unfoldable pub fs_normalize_path : List ℕ → List ℕ → ℕ → List ℕ
fs_normalize_path base rel dst_len =
    let p = skip_slashes (joined base rel) in render dst_len (tokens_of (length p) p [])
