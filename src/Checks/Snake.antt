-- ===== src/Checks/Snake.antt =====
-- The game of user/bin/snake.c on a few turns.
use dmaos.Base.{ℕ, ◌≡◌, refl, false, true, some, List, [], ◌∷◌, ℤ, pos, negsuc}
use dmaos.Machine.Consts.{minus_one}
use dmaos.Snake.{
  Point, Game, game, play, init_game, served, place_food, on_snake, same_point, same_int, outside,
  at_least, update_game, first_point, eat, steer, get_input, next_key, after_bracket,
}
use dmaos.Snake.Rules.{Follows, game-Follows}

abbrev point : ℕ → ℕ → Point
point x y = record { x = pos x; y = pos y }

-- The snake has eaten the food in front of it, and then turned up.
abbrev after_two : Game
after_two = record {
  snake = point 17 7 ∷ point 17 8 ∷ point 16 8 ∷ point 15 8 ∷ [];
  food = point 3 4;
  dx = pos 0;
  dy = minus_one;
  game_over = false;
  score = 10;
}

-- No key, then the arrow up.
abbrev keys : List ℤ
keys = negsuc 0 ∷ pos 27 ∷ pos b'[' ∷ pos b'A' ∷ []

-- The second place that rand gives is on the snake.
abbrev rands : List ℕ
rands = 17 ∷ 8 ∷ 48 ∷ 24 ∷ 3 ∷ 4 ∷ []

played : game 2 keys rands ≡ some after_two
unfolding game play init_game served place_food on_snake same_point same_int outside at_least
    update_game first_point eat steer get_input next_key after_bracket
played = refl

game-Follows_example : Follows after_two
game-Follows_example = game-Follows 2 keys rands after_two played

-- Straight on from the middle of 32 columns, the 16th turn runs into the border.
border : (g : Game) × (game 16 [] (0 ∷ 0 ∷ []) ≡ some g) × (g.game_over ≡ true)
unfolding game play init_game served place_food on_snake same_point same_int outside at_least
    update_game first_point eat steer get_input next_key after_bracket
border = (_, refl, refl)
