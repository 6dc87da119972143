-- ===== src/Snake/Rules.antt =====
-- The rules of the game in words of their own, user/bin/snake.c.
use dmaos.Base.{
  ℕ, ◌≤◌, ◌<◌, ◌≡◌, ◌≢◌, refl, ==_refl, true, false, some, List, [], ◌∷◌, length, arith, ℤ, pos,
  negsuc,
}
use dmaos.Snake.{Point, Game, on_snake, same_point, same_int, outside, at_least, game}
use dmaos.Snake.Board.{Inside, Uncrossed}
use dmaos.Snake.Fair.{game-Fair}

-- One of the 32 columns and 16 rows.
abbrev pub OnBoard : Point → Type 0
OnBoard p =
    (column : ℕ) × (row : ℕ) × (p.x ≡ pos column) × ((p.y ≡ pos row) × ((column < 32) × (row < 16)))

-- The point is none of the list.
abbrev pub IsOff : Point → List Point → Type 0
IsOff p [] = Unit
IsOff p (q ∷ snake) = (p ≢ q) × IsOff p snake

abbrev pub AllOnBoard : List Point → Type 0
AllOnBoard [] = Unit
AllOnBoard (p ∷ snake) = OnBoard p × AllOnBoard snake

abbrev pub AllDistinct : List Point → Type 0
AllDistinct [] = Unit
AllDistinct (p ∷ snake) = IsOff p snake × AllDistinct snake

pub record Follows (g : Game) : Type 0 where
  pub on_board : AllOnBoard g.snake
  pub distinct : AllDistinct g.snake
  pub some_points : 0 < length g.snake
  pub fits : length g.snake ≤ 100
  pub food_on_board : OnBoard g.food
  pub food_off : IsOff g.food g.snake

on_board : (x y : ℤ) → outside (record { x = x; y = y }) ≡ false → OnBoard (record { x = x; y = y })
unfolding outside at_least
on_board (pos a) (pos b) h = (a, b, refl, (refl, (ground arith, ground arith)))
on_board (negsuc a) y h = absurd (ground arith)
on_board (pos a) (negsuc b) h = absurd (ground arith)

same_int_refl : (a : ℤ) → same_int a a ≡ true
unfolding same_int
same_int_refl (pos a) = ==_refl a
same_int_refl (negsuc a) = ==_refl a

same_point_refl : (p : Point) → same_point p p ≡ true
unfolding same_point
same_point_refl p = rw (same_int_refl p.x, same_int_refl p.y) refl

off : (p : Point) (snake : List Point) → on_snake p snake ≡ false → IsOff p snake
unfolding on_snake
off p [] h = tt
off p (q ∷ snake) h = (
  λ e. let s = same_point_refl q in let t : same_point q p ≡ true = rw e s in ground arith,
  off p snake (ground arith),
)

all_on_board : (snake : List Point) → Inside snake → AllOnBoard snake
unfolding Inside
all_on_board [] h = tt
all_on_board (p ∷ snake) (within, h) = (on_board p.x p.y within, all_on_board snake h)

all_distinct : (snake : List Point) → Uncrossed snake → AllDistinct snake
unfolding Uncrossed
all_distinct [] h = tt
all_distinct (p ∷ snake) (free, h) = (off p snake free, all_distinct snake h)

-- Whatever is typed and whatever rand gives, after any number of turns each point of the snake is in one of
-- the 32 columns and 16 rows, no two of them are the same, there are at most 100, and the food is in one
-- of the columns and rows and at no point of the snake.
pub game-Follows :
    (turns : ℕ) (keys : List ℤ) (rands : List ℕ) (g : Game)
    → game turns keys rands ≡ some g
    → Follows g
game-Follows turns keys rands g e =
    let fair = game-Fair turns keys rands g e in
    record {
      on_board = all_on_board (g.snake) (fair.inside);
      distinct = all_distinct (g.snake) (fair.uncrossed);
      some_points = fair.some_points;
      fits = fair.fits;
      food_on_board = on_board g.food.x g.food.y (fair.food_inside);
      food_off = off (g.food) (g.snake) (fair.food_free);
    }
