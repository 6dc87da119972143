-- ===== src/Process/Args.antt =====
-- The words of a command line: spawn_process of kernel/process.c.
use dmaos.Base.{
  take-all, ℕ, zero, suc, ◌≤◌, ◌≡◌, refl, ap, ◌≢◌, ==_ne, ◌++◌, length, List, [], ◌∷◌, arith, ◌∙◌,
}
use dmaos.Process.{space, skip_spaces, word, after_word, args_of, next_arg, argv_of}

-- No byte is a space.
abbrev NoSpace : List ℕ → Type 0
NoSpace [] = Unit
NoSpace (c ∷ w) = (c ≢ space) × NoSpace w

-- A word has a byte, and no space.
abbrev pub IsWord : List ℕ → Type 0
IsWord [] = ⊥
IsWord (c ∷ w) = NoSpace (c ∷ w)

abbrev pub AreWords : List (List ℕ) → Type 0
AreWords [] = Unit
AreWords (w ∷ ws) = IsWord w × AreWords ws

-- The words with one space between each two.
abbrev pub joined : List (List ℕ) → List ℕ
joined [] = []
joined (w ∷ []) = w
joined (w ∷ v ∷ ws) = w ++ (space ∷ joined (v ∷ ws))

word-NoSpace : (w : List ℕ) → NoSpace w → word w ≡ w
unfolding word
word-NoSpace [] h = refl
word-NoSpace (c ∷ w) h = rw (==_ne c space h.0) (ap (λ l. c ∷ l) (word-NoSpace w h.1))

after_word-NoSpace : (w : List ℕ) → NoSpace w → after_word w ≡ []
unfolding after_word
after_word-NoSpace [] h = refl
after_word-NoSpace (c ∷ w) h = rw (==_ne c space h.0) (after_word-NoSpace w h.1)

word-append : (w r : List ℕ) → NoSpace w → word (w ++ (space ∷ r)) ≡ w
unfolding word
word-append [] r h = refl
word-append (c ∷ w) r h = rw (==_ne c space h.0) (ap (λ l. c ∷ l) (word-append w r h.1))

after_word-append : (w r : List ℕ) → NoSpace w → after_word (w ++ (space ∷ r)) ≡ r
unfolding after_word
after_word-append [] r h = refl
after_word-append (c ∷ w) r h = rw (==_ne c space h.0) (after_word-append w r h.1)

skip_spaces-word : (c : ℕ) (p : List ℕ) → c ≢ space → skip_spaces (c ∷ p) ≡ c ∷ p
unfolding skip_spaces
skip_spaces-word c p h = rw (==_ne c space h)

-- One round, where a word begins.
args_of-word :
    (n c : ℕ) (p : List ℕ)
    → c ≢ space
    → args_of (suc n) (c ∷ p) ≡ word (c ∷ p) ∷ args_of n (after_word (c ∷ p))
unfolding args_of next_arg
args_of-word n c p h = rw (skip_spaces-word c p h) refl

args_of-nil : (n : ℕ) → args_of n [] ≡ []
unfolding args_of next_arg skip_spaces
args_of-nil zero = refl
args_of-nil (suc n) = refl

args_of-joined :
    (n : ℕ) (ws : List (List ℕ)) → AreWords ws → length ws ≤ n → args_of n (joined ws) ≡ ws
args_of-joined n [] h le = args_of-nil n
args_of-joined n ([] ∷ ws) h le = absurd h.0
args_of-joined zero ((c ∷ w) ∷ ws) h le = absurd (omega arith)
args_of-joined (suc n) ((c ∷ w) ∷ []) h le =
    args_of-word n c w h.0.0
    ∙ rw (word-NoSpace (c ∷ w) h.0, after_word-NoSpace (c ∷ w) h.0, args_of-nil n)
args_of-joined (suc n) ((c ∷ w) ∷ v ∷ ws) h le =
    args_of-word n c (w ++ (space ∷ joined (v ∷ ws))) h.0.0
    ∙ rw (
      word-append (c ∷ w) (joined (v ∷ ws)) h.0,
      after_word-append (c ∷ w) (joined (v ∷ ws)) h.0,
      args_of-joined n (v ∷ ws) h.1 (omega arith),
    )

-- `spawn_process` finds the arguments of a command line again: for at most 16 words with one space
-- between each two, in a line of at most 127 bytes, `argv` is these words.
pub argv_of-joined :
    (ws : List (List ℕ))
    → AreWords ws
    → length ws ≤ 16
    → length (joined ws) ≤ 127
    → argv_of (joined ws) ≡ ws
unfolding argv_of
argv_of-joined ws h few short = rw (take-all 127 (joined ws) short) (args_of-joined 16 ws h few)
