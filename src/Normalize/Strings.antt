-- ===== src/Normalize/Strings.antt =====
-- The bytes of the components behind fs_normalize_path of kernel/fs.c.
use dmaos.Base.{
  ℕ, zero, suc, ◌-◌, ◌==◌, ltb, inl, inr, Bool-cases, ◌&&◌, List, [], ◌∷◌, ◌++◌, take, length,
  arith,
}
use dmaos.Machine.Consts.{max_path, max_path_depth, max_filename}
use dmaos.Str.{strcmp, is_zero}
use dmaos.Str.Compare.{IsString}
use dmaos.Dir.{dot, dotdot}
use dmaos.Names.{slash, starts_at_root, skip_slashes, component, after_component}
use dmaos.Normalize.{add_token, tokens_of, append_upto, joined, drop_token, ends_open}
use dmaos.Normalize.Spell.{AreStrings}

take-IsString : (n : ℕ) (s : List ℕ) → IsString s → IsString (take n s)
take-IsString zero s h = tt
take-IsString (suc n) [] h = tt
take-IsString (suc n) (c ∷ s) h = (h.0, take-IsString n s h.1)

append-IsString : (s t : List ℕ) → IsString s → IsString t → IsString (s ++ t)
append-IsString [] t h h' = h'
append-IsString (c ∷ s) t h h' = (h.0, append-IsString s t h.1 h')

pub skip_slashes-IsString : (s : List ℕ) → IsString s → IsString (skip_slashes s)
unfolding skip_slashes
skip_slashes-IsString [] h = tt
skip_slashes-IsString (c ∷ s) h = elim (Bool-cases (c == slash)) [
  | inl e ↦ rw e (skip_slashes-IsString s h.1)
  | inr e ↦ rw e h
]

component-IsString : (s : List ℕ) → IsString s → IsString (component s)
unfolding component
component-IsString [] h = tt
component-IsString (c ∷ s) h = elim (Bool-cases (c == slash)) [
  | inl e ↦ rw e tt
  | inr e ↦ rw e (h.0, component-IsString s h.1)
]

after_component-IsString : (s : List ℕ) → IsString s → IsString (after_component s)
unfolding after_component
after_component-IsString [] h = tt
after_component-IsString (c ∷ s) h = elim (Bool-cases (c == slash)) [
  | inl e ↦ rw e h
  | inr e ↦ rw e (after_component-IsString s h.1)
]

append_upto-IsString :
    (size : ℕ) (buf s : List ℕ) → IsString buf → IsString s → IsString (append_upto size buf s)
append_upto-IsString size buf s h h' =
    append-IsString buf (take (size - length buf - 1) s) h
      (take-IsString (size - length buf - 1) s h')

pub joined-IsString :
    (base rel : List ℕ) → IsString base → IsString rel → IsString (joined base rel)
unfolding joined
joined-IsString base rel h h' =
    let start = take (max_path - 1) base in
    let hs = take-IsString (max_path - 1) base h in
    elim (Bool-cases (starts_at_root rel)) [
      | inl e ↦ rw e (take-IsString (max_path - 1) rel h')
      | inr e ↦ elim (Bool-cases (ends_open start)) [
        | inl o ↦
            rw (e, o)
              (append_upto-IsString max_path (append_upto max_path start (slash ∷ [])) rel
                (append_upto-IsString max_path start (slash ∷ []) hs ((λ z. omega arith), tt)) h')
        | inr o ↦ rw (e, o) (append_upto-IsString max_path start rel hs h')
      ]
    ]

drop_token-AreStrings :
    (tokens : List (List ℕ)) → AreStrings tokens → AreStrings (drop_token tokens)
unfolding drop_token
drop_token-AreStrings [] h = h
drop_token-AreStrings (t ∷ tokens) h = h.1

add_token-AreStrings :
    (p : List ℕ) (tokens : List (List ℕ))
    → IsString p
    → AreStrings tokens
    → AreStrings (add_token p tokens)
unfolding add_token
add_token-AreStrings p tokens hp h = elim (Bool-cases (is_zero (strcmp p dot))) [
  | inl e ↦ rw e h
  | inr e ↦ elim (Bool-cases (is_zero (strcmp p dotdot))) [
    | inl e2 ↦ rw (e, e2) (drop_token-AreStrings tokens h)
    | inr e2 ↦ elim (Bool-cases (ltb 0 (length p) && ltb (length tokens) max_path_depth)) [
      | inl e3 ↦ rw (e, e2, e3) (take-IsString (max_filename - 1) p hp, h)
      | inr e3 ↦ rw (e, e2, e3) h
    ]
  ]
]

pub tokens_of-AreStrings :
    (rounds : ℕ) (p : List ℕ) (tokens : List (List ℕ))
    → IsString p
    → AreStrings tokens
    → AreStrings (tokens_of rounds p tokens)
unfolding tokens_of
tokens_of-AreStrings zero p tokens hp h = h
tokens_of-AreStrings (suc rounds) [] tokens hp h = h
tokens_of-AreStrings (suc rounds) (c ∷ p) tokens hp h =
    tokens_of-AreStrings rounds (skip_slashes (after_component (c ∷ p))) _
      (skip_slashes-IsString _ (after_component-IsString (c ∷ p) hp))
      (add_token-AreStrings (component (c ∷ p)) tokens (component-IsString (c ∷ p) hp) h)
