-- ===== src/User/Console.antt =====
-- Reading from the console, user/lib/user.c.
use dmaos.Base.{
  ℕ, zero, suc, ◌≤◌, ◌≡◌, refl, some, List, [], ◌∷◌, take, drop, length, arith, ℤ, pos, negsuc,
}
use dmaos.User.{read_min}

-- The bytes among what getchar returns.
unfoldable pub available : List ℤ → List ℕ
available [] = []
available (pos ch ∷ input) = ch ∷ available input
available (negsuc _ ∷ input) = available input

-- A read that waits for `n` bytes returns once the console sends that many: it returns the first `n` of
-- them in order, and loses none of those that follow.
pub read_min-available :
    (n : ℕ) (input : List ℤ)
    → n ≤ length (available input)
    → (rest : List ℤ) × (read_min n input ≡ some (take n (available input), rest))
      × (available rest ≡ drop n (available input))
unfolding read_min available
read_min-available zero input h = (input, refl, refl)
read_min-available (suc n) [] h = absurd (omega arith)
read_min-available (suc n) (negsuc _ ∷ input) h = read_min-available (suc n) input h
read_min-available (suc n) (pos ch ∷ input) h =
    let (rest, at, left) = read_min-available n input (omega arith) in (rest, rw at refl, left)
