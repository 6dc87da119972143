-- ===== src/Snake.antt =====
-- The game of user/bin/snake.c. The characters that getchar_nonblock returns and the numbers of rand
-- are lists, in the order in which the game asks for them; what it prints is left out.
pub mod Board
pub mod Fair
pub mod Rules
use dmaos.Base.{
  ℕ, zero, suc, ◌+◌, ◌-◌, ◌*◌, ◌/◌, ◌%◌, ltb, leb, ◌==◌, if◌then◌else◌, Bool, true, false, not,
  ◌&&◌, ◌||◌, Option, none, some, List, [], ◌∷◌, take, length, ℤ, pos, negsuc, is_neg, ◌+ℤ◌,
}
use dmaos.Machine.Consts.{minus_one}

abbrev pub width : ℕ
width = 32

abbrev pub height : ℕ
height = 16

pub record Point : Type 0 where
  pub x : ℤ
  pub y : ℤ

-- `snake` holds the `snake_len` points in use of the array, the head first.
pub record Game : Type 0 where
  pub snake : List Point
  pub food : Point
  pub dx : ℤ
  pub dy : ℤ
  pub game_over : Bool
  pub score : ℕ

unfoldable pub same_int : ℤ → ℤ → Bool
same_int (pos a) (pos b) = a == b
same_int (negsuc a) (negsuc b) = a == b
same_int (pos a) (negsuc b) = false
same_int (negsuc a) (pos b) = false

unfoldable pub same_point : Point → Point → Bool
same_point p q = same_int (p.x) (q.x) && same_int (p.y) (q.y)

-- The loop over the snake that looks for a point.
unfoldable pub on_snake : Point → List Point → Bool
on_snake p [] = false
on_snake p (q ∷ snake) = same_point q p || on_snake p snake

unfoldable pub at_least : ℤ → ℕ → Bool
at_least (pos n) bound = leb bound n
at_least (negsuc n) bound = false

-- Beyond the borders.
unfoldable pub outside : Point → Bool
outside p = is_neg (p.x) || (at_least (p.x) width || (is_neg (p.y) || at_least (p.y) height))

-- `none` while every place that rand gave is on the snake. The other result is what rand gives next.
unfoldable pub place_food : List Point → List ℕ → Option (Point × List ℕ)
place_food snake [] = none
place_food snake (a ∷ []) = none
place_food snake (a ∷ b ∷ rands) =
    let rest = place_food snake rands in
    let food : Point = record { x = pos (a % width); y = pos (b % height) } in
    if on_snake food snake then rest else some (food, rands)

abbrev pub max_snake : ℕ
max_snake = 100

-- `snake[0]`.
unfoldable pub first_point : List Point → Point
first_point [] = record { x = pos 0; y = pos 0 }
first_point (p ∷ snake) = p

-- The points shifted by one behind the new head, `snake_len` of them in all.
abbrev pub shifted : Point → ℕ → List Point → List Point
shifted new_head snake_len snake = new_head ∷ take (snake_len - 1) snake

abbrev pub middle : ℕ → Point
middle x = record { x = pos x; y = pos (height / 2) }

-- The food that was placed, if it was.
unfoldable pub served : Game → Option (Point × List ℕ) → Option (Game × List ℕ)
served g none = none
served g (some (food, rands)) = some (record g { food = food }, rands)

-- The game before it has any food.
abbrev pub new_game : Game
new_game = record {
  snake = middle (width / 2) ∷ middle (width / 2 - 1) ∷ middle (width / 2 - 2) ∷ [];
  food = record { x = pos 0; y = pos 0 };
  dx = pos 1;
  dy = pos 0;
  game_over = false;
  score = 0;
}

unfoldable pub init_game : List ℕ → Option (Game × List ℕ)
init_game rands = served new_game (place_food new_game.snake rands)

-- The head has reached the food.
unfoldable pub eat : Point → Game → List ℕ → Option (Game × List ℕ)
eat new_head g rands =
    let len = length g.snake in
    let snake = shifted new_head (if ltb len max_snake then len + 1 else len) g.snake in
    served (record g { snake = snake; score = g.score + 10 }) (place_food snake rands)

unfoldable pub update_game : Game → List ℕ → Option (Game × List ℕ)
update_game g rands =
    let head = first_point g.snake in
    let new_head : Point = record { x = head.x +ℤ g.dx; y = head.y +ℤ g.dy } in
    if outside new_head || on_snake new_head g.snake
    then some (record g { game_over = true }, rands)
    else if same_point new_head g.food
    then eat new_head g rands
    else some (record g { snake = shifted new_head (length g.snake) g.snake }, rands)

-- Up to `tries` looks at the keyboard.
unfoldable pub next_key : ℕ → List ℤ → ℤ × List ℤ
next_key zero keys = (minus_one, keys)
next_key (suc tries) [] = (minus_one, [])
next_key (suc tries) (pos ch ∷ keys) = (pos ch, keys)
next_key (suc tries) (negsuc _ ∷ keys) = next_key tries keys

abbrev pub is_char : ℤ → ℕ → Bool
is_char ch c = same_int ch (pos c)

-- The letter for an arrow key.
abbrev pub arrow : ℤ → ℤ
arrow next2 =
    if is_char next2 b'A'
    then pos b'w'
    else if is_char next2 b'B'
    then pos b's'
    else if is_char next2 b'C'
    then pos b'd'
    else if is_char next2 b'D'
    then pos b'a'
    else pos 27

unfoldable pub after_bracket : ℤ × List ℤ → ℤ × List ℤ
after_bracket (next1, keys) =
    let (next2, rest) = next_key 10 keys in
    if is_char next1 b'[' then (arrow next2, rest) else (pos 27, keys)

unfoldable pub get_input : List ℤ → ℤ × List ℤ
get_input keys =
    let (ch, rest) = next_key 1 keys in
    if is_char ch 27 then after_bracket (next_key 10 rest) else (ch, rest)

-- A letter in either case.
abbrev pub is_letter : ℤ → ℕ → Bool
is_letter ch c = is_char ch c || is_char ch (c - 32)

abbrev pub is_still : ℤ → Bool
is_still d = same_int d (pos 0)

-- The new direction, which is never the opposite of the old one; `q` ends the game.
unfoldable pub steer : ℤ → Game → Game
steer ch g =
    if is_letter ch b'w' && is_still g.dy
    then record g { dx = pos 0; dy = minus_one }
    else if is_letter ch b's' && is_still g.dy
    then record g { dx = pos 0; dy = pos 1 }
    else if is_letter ch b'a' && is_still g.dx
    then record g { dx = minus_one; dy = pos 0 }
    else if is_letter ch b'd' && is_still g.dx
    then record g { dx = pos 1; dy = pos 0 }
    else if is_letter ch b'q'
    then record g { game_over = true }
    else g

-- `turns` rounds of the loop of main, or fewer when the game is over.
unfoldable pub play : ℕ → List ℤ → Game → List ℕ → Option Game
play zero keys g rands = some g
play (suc turns) keys g rands =
    let (ch, rest) = get_input keys in
    let steered = steer ch g in
    if g.game_over
    then some g
    else if steered.game_over
    then some steered
    else elim (update_game steered rands) [
      | none ↦ none
      | some (next, rands) ↦ play turns rest next rands
    ]

-- main, for that many rounds.
unfoldable pub game : ℕ → List ℤ → List ℕ → Option Game
game turns keys rands = elim (init_game rands) [
  | none ↦ none
  | some (g, rest) ↦ play turns keys g rest
]
