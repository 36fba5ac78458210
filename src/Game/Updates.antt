-- ===== src/Game/Updates.antt =====
-- The loops of `Game::update` that send states in batches.
use mniam_headless.Base.{
  ℕ, ◌+◌, ◌%◌, ◌^◌, not, ◌&&◌, ◌||◌, List, [], ◌∷◌, get_elem?, is_empty, if◌then◌else◌,
}
use mniam_headless.Engine.{World}
use mniam_headless.Amcom.{
  PlayerState, FoodState, add_food_state, is_full_food, add_player_state, is_full_player,
}
use mniam_headless.Game.State.{
  Player, Food, Sent, food_update_sent, wrap, hp_or_zero, position_or_origin, update_food,
}

-- The state that is reported of a food, with `hp()` as `uint8_t`.
unfoldable pub food_state : World → ℕ → Food → FoodState
food_state w food_no f =
    let m = get_elem? w.food f.engine_food in
    record {
      food_no = food_no;
      state = wrap (2 ^ 8) (hp_or_zero m);
      x = (position_or_origin m).x;
      y = (position_or_origin m).y;
    }

-- The number is a `uint16_t` that is stored as `uint8_t`.
unfoldable pub player_state : World → ℕ → Player → PlayerState
player_state w player_no p =
    let m = get_elem? w.players p.engine_player in
    record {
      player_no = player_no % 2 ^ 8;
      hp = wrap (2 ^ 16) (hp_or_zero m);
      x = (position_or_origin m).x;
      y = (position_or_origin m).y;
    }

-- The loop of FOOD_UPDATE_REQUEST: a state is added for each food, and the batch is sent when it is
-- full or the food is the last.
unfoldable pub send_food : World → ℕ → List FoodState → List Food → List Sent
unfolding food_state add_food_state is_full_food
send_food w food_no batch [] = []
send_food w food_no batch (f ∷ fs) =
    let batch' = add_food_state (food_state w food_no f) batch in
    let no' = (food_no + 1) % 2 ^ 16 in
    let sends = is_full_food batch' || is_empty fs in
    let rest = send_food w no' (if sends then [] else batch') fs in
    if sends then food_update_sent batch' ∷ rest else rest

-- The loop of PLAYER_UPDATE_REQUEST and, with another transaction, of GAME_OVER_REQUEST.
unfoldable pub send_players :
    (List PlayerState → Sent) → World → ℕ → List PlayerState → List Player → List Sent
unfolding player_state add_player_state is_full_player
send_players sent w player_no batch [] = []
send_players sent w player_no batch (p ∷ ps) =
    let batch' = add_player_state (player_state w player_no p) batch in
    let no' = (player_no + 1) % 2 ^ 16 in
    let sends = is_full_player batch' || is_empty ps in
    let rest = send_players sent w no' (if sends then [] else batch') ps in
    if sends then sent batch' ∷ rest else rest

-- The state that is reported of a food that was just eaten.
unfoldable pub eaten_state : World → ℕ → Food → FoodState
eaten_state w food_no f =
    let m = get_elem? w.food f.engine_food in
    record {
      food_no = food_no;
      state = 0;
      x = (position_or_origin m).x;
      y = (position_or_origin m).y;
    }

-- `if (f.updateSprite()) { … addFood(foodState); }`, for what it does to the batch.
unfoldable pub add_if_eaten : World → ℕ → Food → List FoodState → List FoodState
unfolding update_food eaten_state add_food_state
add_if_eaten w food_no f batch =
    let (f', eaten) = update_food w f in
    if eaten then add_food_state (eaten_state w food_no f') batch else batch

-- The loop of MOVE_REQUEST: only foods that were just eaten are reported, and a batch that holds
-- nothing is not sent.
unfoldable pub send_eaten : World → ℕ → List FoodState → List Food → List Food × List Sent
unfolding is_full_food
send_eaten w food_no batch [] = ([], [])
send_eaten w food_no batch (f ∷ fs) =
    let batch' = add_if_eaten w food_no f batch in
    let sends = is_full_food batch' || (is_empty fs && not (is_empty batch')) in
    let (fs', sent) = send_eaten w ((food_no + 1) % 2 ^ 16) (if sends then [] else batch') fs in
    ((update_food w f).0 ∷ fs', if sends then food_update_sent batch' ∷ sent else sent)
