-- ===== src/Str/Compare.antt =====
-- The string functions of kernel/stdlib.c on C strings, which hold no NUL.
use dmaos.Base.{
  ℕ, zero, suc, ◌-◌, ◌≤◌, ◌≡◌, refl, ap, ◌≢◌, ◌↔◌, inl, inr, Bool-cases, ◌==◌, true, false, some,
  List, [], ◌∷◌, ◌++◌, length, take, take-length, replicate, arith, sym, ◌∙◌, subst, ==_ne,
}
use dmaos.Str.{strcmp, strncmp, strlen, strncpy, strncat, head_of, strstr_from, strstr, is_zero}

-- No byte of the list is NUL.
abbrev pub IsString : List ℕ → Type 0
IsString [] = Unit
IsString (c ∷ s) = (c ≢ 0) × IsString s

pub strlen-length : (s : List ℕ) → IsString s → strlen s ≡ length s
unfolding strlen
strlen-length [] h = refl
strlen-length (c ∷ s) h = ground (arith, strlen-length s h.1)

-- `strcmp` returns 0 exactly for equal strings.
pub strcmp-zero_iff :
    (s t : List ℕ) → IsString s → IsString t → (is_zero (strcmp s t) ≡ true) ↔ (s ≡ t)
unfolding strcmp
strcmp-zero_iff [] [] hs ht = (λ _. refl, λ _. refl)
strcmp-zero_iff [] (b ∷ t) hs ht = (ground arith, λ e. cc)
strcmp-zero_iff (a ∷ s) [] hs ht = (ground arith, λ e. cc)
strcmp-zero_iff (a ∷ s) (b ∷ t) hs ht =
    let ih = strcmp-zero_iff s t hs.1 ht.1 in (ground (arith, ih.0), ground (arith, ih.1))

-- `strncmp` with a bound returns 0 exactly if the strings agree up to the bound.
pub strncmp-zero_iff :
    (n : ℕ) (s t : List ℕ)
    → IsString s
    → IsString t
    → (is_zero (strncmp s t n) ≡ true) ↔ (take n s ≡ take n t)
unfolding strncmp
strncmp-zero_iff zero s t hs ht = (λ _. refl, λ _. refl)
strncmp-zero_iff (suc n) [] [] hs ht = (λ _. refl, λ _. refl)
strncmp-zero_iff (suc n) [] (b ∷ t) hs ht = (ground arith, λ e. cc)
strncmp-zero_iff (suc n) (a ∷ s) [] hs ht = (ground arith, λ e. cc)
strncmp-zero_iff (suc n) (a ∷ s) (b ∷ t) hs ht =
    let ih = strncmp-zero_iff n s t hs.1 ht.1 in (ground (arith, ih.0), ground (arith, ih.1))

head_of-take : (s : List ℕ) (n : ℕ) → IsString s → head_of s n ≡ take n s
unfolding head_of
head_of-take s zero h = refl
head_of-take [] (suc n) h = refl
head_of-take (c ∷ s) (suc n) h = ground (arith, head_of-take s n h.1)

-- `strncat` appends at most `n` bytes of the second string to the first.
pub strncat-append :
    (d s : List ℕ) (n : ℕ) → IsString d → IsString s → strncat d s n ≡ d ++ take n s
unfolding strncat
strncat-append [] s n hd hs = head_of-take s n hs
strncat-append (c ∷ d) s n hd hs = ground (arith, strncat-append d s n hd.1 hs)

length-head_of-le : (s : List ℕ) (n : ℕ) → length (head_of s n) ≤ n
unfolding head_of
length-head_of-le s zero = omega arith
length-head_of-le [] (suc n) = omega arith
length-head_of-le (c ∷ s) (suc n) = ground (arith, length-head_of-le s n)

strncpy-nil : (n : ℕ) → strncpy [] n ≡ replicate n 0
unfolding strncpy
strncpy-nil zero = refl
strncpy-nil (suc n) = ap (λ l. 0 ∷ l) (strncpy-nil n)

-- `strncpy` stores the source's bytes up to its NUL, `n` at most, and fills up with NULs to `n`.
pub strncpy-pads :
    (s : List ℕ) (n : ℕ) → strncpy s n ≡ head_of s n ++ replicate (n - length (head_of s n)) 0
unfolding strncpy head_of
strncpy-pads s zero = refl
strncpy-pads [] (suc n) = let e : suc n - 0 ≡ suc n = omega arith in rw e (strncpy-nil (suc n))
strncpy-pads (c ∷ s) (suc n) =
    let e : suc n - 0 ≡ suc n = omega arith in
    let e' : suc n - suc (length (head_of s n)) ≡ n - length (head_of s n) = omega arith in
    elim (Bool-cases (c == 0)) [
      | inl z ↦ rw (z, e) (ap (λ l. 0 ∷ l) (strncpy-nil n))
      | inr z ↦ rw (z, e') (ap (λ l. c ∷ l) (strncpy-pads s n))
    ]

-- A pointer into `s` at the first occurrence of a prefix that `p` accepts.
pub data FirstAt (P : List ℕ → Type 0) : List ℕ → List ℕ → Type 0 where
  here : {s : List ℕ} → P s → FirstAt P s s
  later : {c : ℕ} {s t : List ℕ} → ¬ P (c ∷ s) → FirstAt P s t → FirstAt P (c ∷ s) t

-- The needle stands at the start of the list.
abbrev pub Starts : List ℕ → List ℕ → Type 0
Starts needle r = take (length needle) r ≡ needle

strncmp-Starts :
    (needle r : List ℕ)
    → IsString needle
    → IsString r
    → (is_zero (strncmp r needle (strlen needle)) ≡ true) ↔ Starts needle r
strncmp-Starts needle r hn hr =
    let z = strncmp-zero_iff (strlen needle) r needle hr hn in
    let len = strlen-length needle hn in
    let all = take-length needle in (λ h. rw len at (z.0 h) ∙ all, λ h. z.1 (rw len (h ∙ sym all)))

strstr_from-FirstAt :
    (s needle t : List ℕ)
    → IsString s
    → IsString needle
    → strstr_from s needle ≡ some t
    → FirstAt (Starts needle) s t
unfolding strstr_from
strstr_from-FirstAt [] needle t hs hn e = cc
strstr_from-FirstAt (c ∷ s) needle t hs hn e =
    let nz : (c == 0) ≡ false = ==_ne c 0 hs.0 in
    elim (Bool-cases (is_zero (strncmp (c ∷ s) needle (strlen needle)))) [
      | inl y ↦
          let at : (c ∷ s) ≡ t = ground arith in
          subst (FirstAt (Starts needle) (c ∷ s)) at
            (here ((strncmp-Starts needle (c ∷ s) hn hs).0 y))
      | inr n ↦
          later (λ p. let y = (strncmp-Starts needle (c ∷ s) hn hs).1 p in cc)
            (strstr_from-FirstAt s needle t hs.1 hn (rw (nz, n) at e))
    ]

take-nil : (n : ℕ) → take {A = ℕ} n [] ≡ []
take-nil zero = refl
take-nil (suc n) = refl

FirstAt-strstr_from :
    (s needle t : List ℕ)
    → IsString s
    → IsString needle
    → needle ≢ []
    → FirstAt (Starts needle) s t
    → strstr_from s needle ≡ some t
unfolding strstr_from
FirstAt-strstr_from [] needle t hs hn ne (here p) = absurd (ne (sym p ∙ take-nil (length needle)))
FirstAt-strstr_from (c ∷ s) needle t hs hn ne (here p) =
    let nz : (c == 0) ≡ false = ==_ne c 0 hs.0 in
    let y = (strncmp-Starts needle (c ∷ s) hn hs).1 p in rw (nz, y) refl
FirstAt-strstr_from (c ∷ s) needle t hs hn ne (later away f) =
    let nz : (c == 0) ≡ false = ==_ne c 0 hs.0 in
    elim (Bool-cases (is_zero (strncmp (c ∷ s) needle (strlen needle)))) [
      | inl y ↦ absurd (away ((strncmp-Starts needle (c ∷ s) hn hs).0 y))
      | inr n ↦ rw (nz, n) (FirstAt-strstr_from s needle t hs.1 hn ne f)
    ]

empty-first : (s t : List ℕ) → FirstAt (Starts []) s t → s ≡ t
empty-first s t (here p) = refl
empty-first (c ∷ s) t (later away f) = absurd (away refl)

-- `strstr` returns a place exactly if it is the first one where the needle stands; so NULL says that there
-- is none.
pub strstr-FirstAt :
    (s needle t : List ℕ)
    → IsString s
    → IsString needle
    → (strstr s needle ≡ some t) ↔ FirstAt (Starts needle) s t
unfolding strstr strlen
strstr-FirstAt s [] t hs hn = (
  λ e. let at : s ≡ t = ground arith in subst (FirstAt (Starts []) s) at (here refl),
  λ f. ap some (empty-first s t f),
)
strstr-FirstAt s (c ∷ needle) t hs hn =
    let nz : (c == 0) ≡ false = ==_ne c 0 hn.0 in
    (
      λ e. strstr_from-FirstAt s (c ∷ needle) t hs hn (ground arith),
      λ f. let found = FirstAt-strstr_from s (c ∷ needle) t hs hn (λ z. cc) f in ground arith,
    )
