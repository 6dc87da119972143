-- ===== src/Snake/Fair.antt =====
-- The rules of the game hold throughout, user/bin/snake.c.
use dmaos.Base.{
  ℕ, zero, suc, ◌-◌, ◌≤◌, ◌<◌, ◌≡◌, refl, inl, inr, Bool-cases, if◌then◌else◌, Bool, true, false,
  ◌&&◌, Option, none, some, List, length, length-take, arith, ℤ, pos, ◌+ℤ◌,
}
use dmaos.Machine.Consts.{minus_one}
use dmaos.Snake.{
  Point, Game, on_snake, same_point, outside, at_least, served, shifted, init_game, eat,
  update_game, is_letter, is_still, steer, play, game, new_game, same_int, max_snake, first_point,
  get_input,
}
use dmaos.Snake.Board.{
  Inside, Uncrossed, Any, Free, Inside-take, on_snake-take, Uncrossed-take, place_food-Free,
}

-- The snake is on the board, does not cross itself and fits into its array; the food is on the board and
-- not on the snake.
pub record Fair (g : Game) : Type 0 where
  pub inside : Inside g.snake
  pub uncrossed : Uncrossed g.snake
  pub some_points : 0 < length g.snake
  pub fits : length g.snake ≤ max_snake
  pub food_inside : outside g.food ≡ false
  pub food_free : on_snake g.food g.snake ≡ false

abbrev FairNext : Game × List ℕ → Type 0
FairNext (g, rest) = Fair g

-- The snake is on the board, whole, and as long as it may be.
abbrev Sound : List Point → Type 0
Sound snake = Inside snake × (Uncrossed snake × ((0 < length snake) × (length snake ≤ max_snake)))

served-Fair :
    (g : Game) (placed : Option (Point × List ℕ))
    → Sound g.snake
    → Any (Free g.snake) placed
    → Any FairNext (served g placed)
unfolding served
served-Fair g none sound free = tt
served-Fair g (some (food, rands)) (inside, (uncrossed, (some_points, fits))) (within, free) =
    record {
      inside = inside;
      uncrossed = uncrossed;
      some_points = some_points;
      fits = fits;
      food_inside = within;
      food_free = free;
    }

module _ (new_head : Point) (g : Game) (fair : Fair g) (within : outside new_head ≡ false)
    (free : on_snake new_head g.snake ≡ false) where
  shifted-Sound : (n : ℕ) → n ≤ max_snake → Sound (shifted new_head n g.snake)
  unfolding Inside Uncrossed
  shifted-Sound n h = (
    (within, Inside-take (n - 1) (g.snake) (fair.inside)),
    (
      (
        on_snake-take new_head (n - 1) (g.snake) free,
        Uncrossed-take (n - 1) (g.snake) (fair.uncrossed),
      ),
      (omega arith, omega (arith, length-take (n - 1) (g.snake))),
    ),
  )

  eat-Fair : (rands : List ℕ) → Any FairNext (eat new_head g rands)
  unfolding eat
  eat-Fair rands =
      served-Fair _ _ (shifted-Sound _ (ground (arith, fair.fits))) (place_food-Free _ rands)

  move-Fair :
      same_point new_head g.food ≡ false
      → Fair (record g { snake = shifted new_head (length g.snake) g.snake })
  unfolding on_snake
  move-Fair missed =
      let (inside, (uncrossed, (some_points, fits))) = shifted-Sound (length g.snake) (fair.fits) in
      record {
        inside = inside;
        uncrossed = uncrossed;
        some_points = some_points;
        fits = fits;
        food_inside = fair.food_inside;
        food_free =
            rw missed (on_snake-take (g.food) (length g.snake - 1) (g.snake) (fair.food_free));
      }

abbrev over : Game → Game
over g = record g { game_over = true }

over-Fair : (g : Game) → Fair g → Fair (over g)
over-Fair g fair = record {
  inside = fair.inside;
  uncrossed = fair.uncrossed;
  some_points = fair.some_points;
  fits = fair.fits;
  food_inside = fair.food_inside;
  food_free = fair.food_free;
}

update_game-Fair : (g : Game) (rands : List ℕ) → Fair g → Any FairNext (update_game g rands)
unfolding update_game
update_game-Fair g rands fair =
    let head = first_point g.snake in
    let new_head : Point = record { x = head.x +ℤ g.dx; y = head.y +ℤ g.dy } in
    elim (Bool-cases (outside new_head)) [
      | inl out ↦ rw out (over-Fair g fair)
      | inr within ↦ elim (Bool-cases (on_snake new_head g.snake)) [
        | inl crossed ↦ rw (within, crossed) (over-Fair g fair)
        | inr free ↦ elim (Bool-cases (same_point new_head g.food)) [
          | inl found ↦ rw (within, free, found) (eat-Fair new_head g fair within free rands)
          | inr missed ↦ rw (within, free, missed) (move-Fair new_head g fair within free missed)
        ]
      ]
    ]

turned-Fair : (g : Game) (dx dy : ℤ) → Fair g → Fair (record g { dx = dx; dy = dy })
turned-Fair g dx dy fair = record {
  inside = fair.inside;
  uncrossed = fair.uncrossed;
  some_points = fair.some_points;
  fits = fair.fits;
  food_inside = fair.food_inside;
  food_free = fair.food_free;
}

steer-Fair : (ch : ℤ) (g : Game) → Fair g → Fair (steer ch g)
unfolding steer
steer-Fair ch g fair =
    branch (is_letter ch b'w' && is_still g.dy) (turned-Fair g (pos 0) minus_one fair) (
      branch (is_letter ch b's' && is_still g.dy) (turned-Fair g (pos 0) (pos 1) fair) (
        branch (is_letter ch b'a' && is_still g.dx) (turned-Fair g minus_one (pos 0) fair) (
          branch (is_letter ch b'd' && is_still g.dx) (turned-Fair g (pos 1) (pos 0) fair)
            (branch (is_letter ch b'q') (over-Fair g fair) fair))))
  where
    branch : {a b : Game} (test : Bool) → Fair a → Fair b → Fair (if test then a else b)
    branch true p q = p
    branch false p q = q

either_way :
    (test : Bool) (a b : Option Game) → Any Fair a → Any Fair b → Any Fair (if test then a else b)
either_way true a b p q = p
either_way false a b p q = q

-- What is played after a turn.
on_with-Fair :
    (turns : ℕ) (keys : List ℤ)
    → ((g : Game) (rands : List ℕ) → Fair g → Any Fair (play turns keys g rands))
    → (next : Option (Game × List ℕ)) → Any FairNext next
    → Any Fair (elim next [ none ↦ none | some (g, rands) ↦ play turns keys g rands ])
on_with-Fair turns keys rest none fair = tt
on_with-Fair turns keys rest (some (g, rands)) fair = rest g rands fair

play-Fair :
    (turns : ℕ) (keys : List ℤ) (g : Game) (rands : List ℕ)
    → Fair g
    → Any Fair (play turns keys g rands)
unfolding play
play-Fair zero keys g rands fair = fair
play-Fair (suc turns) keys g rands fair =
    let (ch, rest) = get_input keys in
    let steered = steer ch g in
    either_way g.game_over _ _ fair (
      either_way steered.game_over _ _ (steer-Fair ch g fair) (
        on_with-Fair turns rest (play-Fair turns rest) (update_game steered rands)
          (update_game-Fair steered rands (steer-Fair ch g fair))))

new_game-Sound : Sound new_game.snake
unfolding Inside Uncrossed outside at_least on_snake same_point same_int
new_game-Sound =
    ((refl, (refl, (refl, tt))), ((refl, (refl, (refl, tt))), (omega arith, omega arith)))

game-Any : (turns : ℕ) (keys : List ℤ) (rands : List ℕ) → Any Fair (game turns keys rands)
unfolding game init_game
game-Any turns keys rands =
    on_with-Fair turns keys (play-Fair turns keys) _
      (served-Fair new_game _ new_game-Sound (place_food-Free new_game.snake rands))

-- Whatever is typed and whatever rand gives, after any number of turns the snake is within the borders,
-- does not cross itself and fits into its array, and the food is within the borders and not on the snake.
pub game-Fair :
    (turns : ℕ) (keys : List ℤ) (rands : List ℕ) (g : Game)
    → game turns keys rands ≡ some g
    → Fair g
game-Fair turns keys rands g e = rw e at (game-Any turns keys rands)
