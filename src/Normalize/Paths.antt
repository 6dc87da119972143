-- ===== src/Normalize/Paths.antt =====
-- The components and the length of the names behind fs_normalize_path of kernel/fs.c.
use dmaos.Base.{
  take-all, ◌∙◌, ℕ, zero, suc, ◌-◌, ◌≤◌, ◌<◌, ◌≡◌, ◌≢◌, ◌==◌, ltb, refl, ap, sym, inl, inr,
  Bool-cases, true, false, ◌&&◌, List, [], ◌∷◌, take, length, length-append, length-take, arith,
}
use native.Mathlib.Decide.{dec_le}
use dmaos.Machine.Consts.{max_path, max_path_depth, max_filename}
use dmaos.Str.{strcmp, is_zero}
use dmaos.Dir.{dot, dotdot}
use dmaos.Names.{slash, skip_slashes, component, after_component, starts_at_root}
use dmaos.Normalize.{
  joined, drop_token, add_token, tokens_of, add_slash, render, fs_normalize_path, append_upto,
  ends_open,
}

-- No byte is a slash.
abbrev pub HasNoSlash : List ℕ → Type 0
HasNoSlash [] = Unit
HasNoSlash (c ∷ s) = ((c == slash) ≡ false) × HasNoSlash s

-- A component of a normal path.
pub record IsToken (t : List ℕ) : Type 0 where
  pub some_byte : 0 < length t
  pub fits : length t < max_filename
  pub not_dot : t ≢ dot
  pub not_dotdot : t ≢ dotdot
  pub no_slash : HasNoSlash t

abbrev pub AreTokens : List (List ℕ) → Type 0
AreTokens [] = Unit
AreTokens (t ∷ tokens) = IsToken t × AreTokens tokens

component-HasNoSlash : (p : List ℕ) → HasNoSlash (component p)
unfolding component
component-HasNoSlash [] = tt
component-HasNoSlash (c ∷ p) = elim (Bool-cases (c == slash)) [
  | inl e ↦ rw e tt
  | inr e ↦ rw e (e, component-HasNoSlash p)
]

take-HasNoSlash : (n : ℕ) (s : List ℕ) → HasNoSlash s → HasNoSlash (take n s)
take-HasNoSlash zero s h = tt
take-HasNoSlash (suc n) [] h = tt
take-HasNoSlash (suc n) (c ∷ s) h = (h.0, take-HasNoSlash n s h.1)

-- A component that is cut is longer than `q`, and one that is not is not `q`.
cut-ne : (p q : List ℕ) → length q < max_filename - 1 → p ≢ q → take (max_filename - 1) p ≢ q
cut-ne p q short ne e = elim (dec_le (length p) (max_filename - 1)) [
  | yes le ↦ ne (sym (take-all (max_filename - 1) p le) ∙ e)
  | no gt ↦ let a = ap length e in let b = length-take (max_filename - 1) p in absurd (omega arith)
]

strcmp-dot : is_zero (strcmp dot dot) ≡ true
unfolding strcmp
strcmp-dot = refl

strcmp-dotdot : is_zero (strcmp dotdot dotdot) ≡ true
unfolding strcmp
strcmp-dotdot = refl

-- A name that compares unequal to `q` is another.
other_name : (p q : List ℕ) → is_zero (strcmp q q) ≡ true → is_zero (strcmp p q) ≡ false → p ≢ q
other_name p q self differs e = let x = ap (λ s. is_zero (strcmp s q)) e in cc

drop_token-AreTokens :
    (tokens : List (List ℕ))
    → AreTokens tokens × (length tokens ≤ max_path_depth)
    → AreTokens (drop_token tokens) × (length (drop_token tokens) ≤ max_path_depth)
unfolding drop_token
drop_token-AreTokens [] h = h
drop_token-AreTokens (t ∷ tokens) h = (h.0.1, omega (arith, h.1))

add_token-AreTokens :
    (p : List ℕ) (tokens : List (List ℕ))
    → HasNoSlash p
    → AreTokens tokens × (length tokens ≤ max_path_depth)
    → AreTokens (add_token p tokens) × (length (add_token p tokens) ≤ max_path_depth)
unfolding add_token
add_token-AreTokens p tokens ns h = elim (Bool-cases (is_zero (strcmp p dot))) [
  | inl e ↦ rw e h
  | inr e ↦ elim (Bool-cases (is_zero (strcmp p dotdot))) [
    | inl e2 ↦ rw (e, e2) (drop_token-AreTokens tokens h)
    | inr e2 ↦ elim (Bool-cases (ltb 0 (length p) && ltb (length tokens) max_path_depth)) [
      | inl e3 ↦
          rw (e, e2, e3)
            (
              (
                record {
                  some_byte = let x = length-take (max_filename - 1) p in ground arith;
                  fits = let x = length-take (max_filename - 1) p in omega arith;
                  not_dot = cut-ne p dot (omega arith) (other_name p dot strcmp-dot e);
                  not_dotdot = cut-ne p dotdot (omega arith) (other_name p dotdot strcmp-dotdot e2);
                  no_slash = take-HasNoSlash (max_filename - 1) p ns;
                },
                h.0,
              ),
              ground arith,
            )
      | inr e3 ↦ rw (e, e2, e3) h
    ]
  ]
]

-- The loop of `fs_normalize_path` fills at most the 32 places of its table, each with a component of
-- a normal path: at least one and at most 127 bytes, none of them a slash, and neither "." nor "..".
pub tokens_of-AreTokens :
    (rounds : ℕ) (p : List ℕ) (tokens : List (List ℕ))
    → AreTokens tokens × (length tokens ≤ max_path_depth)
    → AreTokens (tokens_of rounds p tokens) × (length (tokens_of rounds p tokens) ≤ max_path_depth)
unfolding tokens_of
tokens_of-AreTokens zero p tokens h = h
tokens_of-AreTokens (suc rounds) [] tokens h = h
tokens_of-AreTokens (suc rounds) (c ∷ p) tokens h =
    tokens_of-AreTokens rounds (skip_slashes (after_component (c ∷ p))) _
      (add_token-AreTokens (component (c ∷ p)) tokens (component-HasNoSlash (c ∷ p)) h)

pub length-append_upto :
    (size : ℕ) (buf s : List ℕ) → length buf < size → length (append_upto size buf s) < size
length-append_upto size buf s h =
    let x = length-append buf (take (size - length buf - 1) s) in
    let y = length-take (size - length buf - 1) s in omega arith

pub length-render :
    (dst_len : ℕ) (tokens : List (List ℕ)) → 1 < dst_len → length (render dst_len tokens) < dst_len
unfolding render add_slash
length-render dst_len [] h = h
length-render dst_len (t ∷ []) h = length-append_upto dst_len (slash ∷ []) t h
length-render dst_len (t ∷ u ∷ tokens) h =
    length-append_upto dst_len (append_upto dst_len (render dst_len (u ∷ tokens)) (slash ∷ [])) t (
      length-append_upto dst_len (render dst_len (u ∷ tokens)) (slash ∷ [])
        (length-render dst_len (u ∷ tokens) h))

length-take-short : (s : List ℕ) → length (take (max_path - 1) s) < max_path
length-take-short s = let x = length-take (max_path - 1) s in omega arith

length-joined : (base rel : List ℕ) → length (joined base rel) < max_path
unfolding joined
length-joined base rel = elim (Bool-cases (starts_at_root rel)) [
  | inl e ↦ rw e (length-take-short rel)
  | inr e ↦ elim (Bool-cases (ends_open (take (max_path - 1) base))) [
    | inl o ↦
        let start = take (max_path - 1) base in
        rw (e, o)
          (length-append_upto max_path (append_upto max_path start (slash ∷ [])) rel
            (length-append_upto max_path start (slash ∷ []) (length-take-short base)))
    | inr o ↦
        rw (e, o)
          (length-append_upto max_path (take (max_path - 1) base) rel (length-take-short base))
  ]
]

-- For a base of at most 254 bytes `fs_normalize_path` stays within the 256 bytes of its buffer and, if
-- there are at least two, within the `dst_len` bytes of its destination, the NUL included both times.
pub length-fs_normalize_path :
    (base rel : List ℕ) (dst_len : ℕ)
    → length base < max_path - 1
    → 1 < dst_len
    → (length (joined base rel) < max_path)
      × (length (fs_normalize_path base rel dst_len) < dst_len)
unfolding fs_normalize_path
length-fs_normalize_path base rel dst_len short h =
    (length-joined base rel, length-render dst_len _ h)
