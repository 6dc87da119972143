-- ===== src/Snake/Board.antt =====
-- The snake's points and the place of its food, user/bin/snake.c.
use dmaos.Base.{
  ℕ, zero, suc, ◌%◌, ◌≡◌, refl, inl, inr, Bool-cases, false, Option, none, some, List, [], ◌∷◌,
  take, arith, pos,
}
use dmaos.Snake.{Point, on_snake, outside, at_least, place_food, width, height}

-- Every point is within the borders.
unfoldable pub Inside : List Point → Type 0
Inside [] = Unit
Inside (p ∷ snake) = (outside p ≡ false) × Inside snake

-- The snake does not cross itself.
unfoldable pub Uncrossed : List Point → Type 0
Uncrossed [] = Unit
Uncrossed (p ∷ snake) = (on_snake p snake ≡ false) × Uncrossed snake

pub Inside-take : (n : ℕ) (snake : List Point) → Inside snake → Inside (take n snake)
unfolding Inside
Inside-take zero snake h = tt
Inside-take (suc n) [] h = tt
Inside-take (suc n) (p ∷ snake) (at, h) = (at, Inside-take n snake h)

pub on_snake-take :
    (p : Point) (n : ℕ) (snake : List Point)
    → on_snake p snake ≡ false
    → on_snake p (take n snake) ≡ false
unfolding on_snake
on_snake-take p zero snake h = refl
on_snake-take p (suc n) [] h = refl
on_snake-take p (suc n) (q ∷ snake) h = ground (arith, on_snake-take p n snake)

pub Uncrossed-take : (n : ℕ) (snake : List Point) → Uncrossed snake → Uncrossed (take n snake)
unfolding Uncrossed
Uncrossed-take zero snake h = tt
Uncrossed-take (suc n) [] h = tt
Uncrossed-take (suc n) (p ∷ snake) (free, h) =
    (on_snake-take p n snake free, Uncrossed-take n snake h)

-- What holds of a result, if there is one.
abbrev pub Any {ℓ} : {A : Type ℓ} → (A → Type 0) → Option A → Type 0
Any P none = Unit
Any P (some a) = P a

abbrev pub Free : List Point → Point × List ℕ → Type 0
Free snake (food, rest) = (outside food ≡ false) × (on_snake food snake ≡ false)

food-inside : (a b : ℕ) → outside (record { x = pos (a % width); y = pos (b % height) }) ≡ false
unfolding outside at_least
food-inside a b = ground arith

-- The food is placed within the borders, off the snake.
pub place_food-Free :
    (snake : List Point) (rands : List ℕ) → Any (Free snake) (place_food snake rands)
unfolding place_food
place_food-Free snake [] = tt
place_food-Free snake (a ∷ []) = tt
place_food-Free snake (a ∷ b ∷ rands) =
    let here : Point = record { x = pos (a % width); y = pos (b % height) } in
    elim (Bool-cases (on_snake here snake)) [
      | inl taken ↦ rw taken (place_food-Free snake rands)
      | inr free ↦ rw free (food-inside a b, free)
    ]
