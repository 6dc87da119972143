-- ===== src/Shell/Config/Fields.antt =====
-- The directories that init_config of user/sh/shell.c finds in PATH.
use dmaos.Base.{
  ℕ, zero, suc, ◌≡◌, ◌==◌, refl, ap, sym, subst, ◌∙◌, inl, inr, Bool-cases, true, false,
  if◌then◌else◌, List, [], ◌∷◌, take,
}
use dmaos.Shell.Config.{skip_colons, dir_of, after_colon, next_dir, path_dirs}

-- A byte before the first field.
unfoldable pub before : ℕ → List (List ℕ) → List (List ℕ)
before c [] = (c ∷ []) ∷ []
before c (f ∷ fs) = (c ∷ f) ∷ fs

-- All that stands between two colons, or at an end.
unfoldable pub fields : List ℕ → List (List ℕ)
fields [] = [] ∷ []
fields (c ∷ s) = if c == b':' then [] ∷ fields s else before c (fields s)

-- The lists that are not empty.
unfoldable pub nonempty : List (List ℕ) → List (List ℕ)
nonempty [] = []
nonempty ([] ∷ fs) = nonempty fs
nonempty ((c ∷ f) ∷ fs) = (c ∷ f) ∷ nonempty fs

-- The parts behind the first colon.
unfoldable more_fields : List ℕ → List (List ℕ)
more_fields [] = []
more_fields (c ∷ s) = if c == b':' then fields s else more_fields s

fields-dir_of : (s : List ℕ) → fields s ≡ dir_of s ∷ more_fields s
unfolding fields dir_of more_fields before
fields-dir_of [] = refl
fields-dir_of (c ∷ s) = elim (Bool-cases (c == b':')) [
  | inl e ↦ rw e refl
  | inr e ↦ rw e (rw (fields-dir_of s) refl)
]

more_fields-after_colon :
    (s : List ℕ) → nonempty (more_fields s) ≡ nonempty (fields (after_colon s))
unfolding fields more_fields after_colon nonempty
more_fields-after_colon [] = refl
more_fields-after_colon (c ∷ s) = elim (Bool-cases (c == b':')) [
  | inl e ↦ rw e refl
  | inr e ↦ rw e (more_fields-after_colon s)
]

fields-colon :
    (c : ℕ) (s : List ℕ) → (c == b':') ≡ true → nonempty (fields (c ∷ s)) ≡ nonempty (fields s)
unfolding fields nonempty
fields-colon c s e = rw e refl

fields-skip_colons : (s : List ℕ) → nonempty (fields (skip_colons s)) ≡ nonempty (fields s)
unfolding skip_colons
fields-skip_colons [] = refl
fields-skip_colons (c ∷ s) = elim (Bool-cases (c == b':')) [
  | inl e ↦ rw e (fields-skip_colons s ∙ sym (fields-colon c s e))
  | inr e ↦ rw e refl
]

-- A part that does not start with a colon is not empty.
skip_colons-head : (s : List ℕ) (c : ℕ) (t : List ℕ) → skip_colons s ≡ c ∷ t → (c == b':') ≡ false
unfolding skip_colons
skip_colons-head [] c t h = cc
skip_colons-head (d ∷ s) c t h = elim (Bool-cases (d == b':')) [
  | inl e ↦ skip_colons-head s c t (rw e at h)
  | inr e ↦ let h' = rw e at h in let x : d ≡ c = cc in subst (λ b. (b == b':') ≡ false) x e
]

dir_of-nonempty :
    (c : ℕ) (s : List ℕ) (fs : List (List ℕ))
    → (c == b':') ≡ false
    → nonempty (dir_of (c ∷ s) ∷ fs) ≡ dir_of (c ∷ s) ∷ nonempty fs
unfolding dir_of nonempty
dir_of-nonempty c s fs e = rw e refl

next_dir-fields :
    (room : ℕ) (rest : List ℕ → List (List ℕ)) (q : List ℕ)
    → ((p : List ℕ) → rest p ≡ take room (nonempty (fields p)))
    → ((c : ℕ) (t : List ℕ) → q ≡ c ∷ t → (c == b':') ≡ false)
    → next_dir rest q ≡ take (suc room) (nonempty (fields q))
unfolding next_dir
next_dir-fields room rest [] later start = unfold fields nonempty in refl
next_dir-fields room rest (c ∷ q) later start =
    rw
      (
        fields-dir_of (c ∷ q),
        dir_of-nonempty c q (more_fields (c ∷ q)) (start c q refl),
        more_fields-after_colon (c ∷ q),
      )
      (ap (λ l. dir_of (c ∷ q) ∷ l) (later (after_colon (c ∷ q))))

-- The shell's directories are the parts of PATH between the colons that are not empty, in their order, as
-- many of them as there is room for.
pub path_dirs-fields : (room : ℕ) (p : List ℕ) → path_dirs room p ≡ take room (nonempty (fields p))
unfolding path_dirs
path_dirs-fields zero p = refl
path_dirs-fields (suc room) p =
    next_dir-fields room (λ q. path_dirs room q) (skip_colons p) (λ q. path_dirs-fields room q)
      (skip_colons-head p)
    ∙ ap (take (suc room)) (fields-skip_colons p)
