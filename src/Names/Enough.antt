-- ===== src/Names/Enough.antt =====
-- The number of rounds of the loop of namex in kernel/fs.c.
use dmaos.Base.{
  ℕ, zero, suc, ◌≤◌, ◌<◌, ◌≡◌, refl, ap, ◌==◌, inl, inr, Bool, Bool-cases, false, none, some, List,
  [], ◌∷◌, length, take, arith, subst, sym, ◌∙◌,
}
use dmaos.Names.{
  slash, skip_slashes, component, after_component, skipto, split_name, enter, namex_round,
  namex_loop, path_end,
}

skip_slashes-le : (p : List ℕ) → length (skip_slashes p) ≤ length p
unfolding skip_slashes
skip_slashes-le [] = omega arith
skip_slashes-le (c ∷ p) = ground (arith, skip_slashes-le p)

-- What is left does not begin with a slash.
skip_slashes-head :
    (p : List ℕ) (c : ℕ) (q : List ℕ) → skip_slashes p ≡ c ∷ q → (c == slash) ≡ false
unfolding skip_slashes
skip_slashes-head [] c q h = cc
skip_slashes-head (b ∷ p) c q h = elim (Bool-cases (b == slash)) [
  | inl e ↦ skip_slashes-head p c q (rw e at h)
  | inr e ↦ let same : b ≡ c = ground arith in subst (λ x. (x == slash) ≡ false) same e
]

after_component-le : (p : List ℕ) → length (after_component p) ≤ length p
unfolding after_component
after_component-le [] = omega arith
after_component-le (c ∷ p) = ground (arith, after_component-le p)

after_component-lt :
    (c : ℕ) (p : List ℕ) → (c == slash) ≡ false → length (after_component (c ∷ p)) < suc (length p)
unfolding after_component
after_component-lt c p h = rw h (omega (arith, after_component-le p))

-- A path is empty but for slashes, or has a component, after which it is shorter.
data Step (path : List ℕ) : Type 0 where
  ends : skipto path ≡ none → Step path
  goes : (p n : List ℕ) → skipto path ≡ some (p, n) → length p < length path → Step path

step : (path : List ℕ) → Step path
unfolding skipto split_name
step path = go (skip_slashes path) refl
  where
    go : (rest : List ℕ) → skip_slashes path ≡ rest → Step path
    go [] h = ends (ap (λ l. split_name l) h)
    go (c ∷ q) h =
        let nonslash = skip_slashes-head path c q h in
        let a = after_component-lt c q nonslash in
        let b = skip_slashes-le (after_component (c ∷ q)) in
        let d : suc (length q) ≤ length path =
          subst (λ l. length l ≤ length path) h (skip_slashes-le path) in
        goes (skip_slashes (after_component (c ∷ q))) (take 29 (component (c ∷ q)))
          (ap (λ l. split_name l) h) (omega arith)

skipto-nil : skipto [] ≡ none
unfolding skipto split_name skip_slashes
skipto-nil = refl

-- At the end of the path any number of rounds does the same.
namex_loop-end :
    (parent : Bool) (n ip : ℕ) (path name : List ℕ)
    → skipto path ≡ none
    → namex_loop parent n ip path name ≡ path_end parent ip name
unfolding namex_loop namex_round
namex_loop-end parent zero ip path name e = refl
namex_loop-end parent (suc n) ip path name e = rw e refl

namex_loop-step :
    (parent : Bool) (n ip : ℕ) (path name p nm : List ℕ)
    → skipto path ≡ some (p, nm)
    → namex_loop parent (suc n) ip path name
      ≡ enter parent ip p nm (λ j. namex_loop parent n j p nm)
unfolding namex_loop namex_round
namex_loop-step parent n ip path name p nm e = rw e refl

-- The loop of `namex` ends by itself: rounds beyond the length of the path make no difference.
pub namex_loop-enough :
    (parent : Bool) (n m ip : ℕ) (path name : List ℕ)
    → length path ≤ n
    → length path ≤ m
    → namex_loop parent n ip path name ≡ namex_loop parent m ip path name
namex_loop-enough parent zero m ip [] name hn hm =
    let e : skipto [] ≡ none = skipto-nil in
    namex_loop-end parent 0 ip [] name e ∙ sym (namex_loop-end parent m ip [] name e)
namex_loop-enough parent zero m ip (c ∷ path) name hn hm = absurd (omega arith)
namex_loop-enough parent (suc n) zero ip [] name hn hm =
    let e : skipto [] ≡ none = skipto-nil in
    namex_loop-end parent (suc n) ip [] name e ∙ sym (namex_loop-end parent 0 ip [] name e)
namex_loop-enough parent (suc n) zero ip (c ∷ path) name hn hm = absurd (omega arith)
namex_loop-enough parent (suc n) (suc m) ip path name hn hm = elim (step path) [
  | ends e ↦
      namex_loop-end parent (suc n) ip path name e
      ∙ sym (namex_loop-end parent (suc m) ip path name e)
  | goes p nm e lt ↦
      namex_loop-step parent n ip path name p nm e
      ∙ (ap (λ rest. enter parent ip p nm rest)
            (λ t j. namex_loop-enough parent n m j p nm (omega arith) (omega arith) t)
          ∙ sym (namex_loop-step parent m ip path name p nm e))
]
