-- ===== src/Game/State.antt =====
-- The state of `Game` (src/amgame.h), `Player` (src/player.*) and `Food` (src/food.*).
-- The references `enginePlayer` and `engineFood` are places in the lists of the world.
use mniam_headless.Base.{
  ℕ, ◌%◌, ◌-◌, Bool, true, false, List, [], ◌∷◌, Option, none, some, get_elem?, set, if◌then◌else◌,
}
use mniam_headless.Base.Int.{ℤ, pos, negsuc}
use mniam_headless.Connection.{Bytes}
use mniam_headless.Engine.{
  Float, Vector2D, Mortal, World, new_world, alive, zero_float, thousand_float,
}
use mniam_headless.Amcom.{Responses, PlayerState, FoodState}

-- `GamePhase` names the enumeration `phase`.
pub data GamePhase : Type 0 where
  main_menu tester game_idle new_game_phase player_update_phase food_update_phase : GamePhase
  move_phase game_over_phase game_end : GamePhase

pub record Player : Type 0 where
  pub engine_player : ℕ
  pub last_hp : ℤ
  pub client_id : ℕ
  pub name : Bytes

pub record Food : Type 0 where
  pub engine_food : ℕ
  pub is_alive : Bool

-- `identified` is what `identifyTransaction` has got for responses. `game_time` is the static
-- counter of the move phase.
pub record Game : Type 0 where
  pub phase : GamePhase
  pub number_of_players : ℕ
  pub map_width : Float
  pub map_height : Float
  pub world : World
  pub players : List Player
  pub food : List Food
  pub identified : Responses
  pub game_time : ℕ

unfoldable pub new_game : Game
unfolding new_world
new_game = record {
  phase = main_menu;
  number_of_players = 0;
  map_width = thousand_float;
  map_height = thousand_float;
  world = new_world thousand_float;
  players = [];
  food = [];
  identified = [];
  game_time = 0;
}

-- A transaction that the game runs, with what its request is made from.
pub data Sent : Type 0 where
  new_game_to : ℕ → ℕ → ℕ → Sent
  food_update_sent : List FoodState → Sent
  player_update_sent : List PlayerState → Sent
  move_sent : ℕ → Sent
  game_over_sent : List PlayerState → Sent

-- An `int` converted to an unsigned type of a given modulus.
abbrev pub wrap : ℕ → ℤ → ℕ
wrap modulus (pos n) = n % modulus
wrap modulus (negsuc n) = modulus - 1 - n % modulus

abbrev pub hp_or_zero : Option Mortal → ℤ
hp_or_zero none = pos 0
hp_or_zero (some m) = m.hitpoints

abbrev pub alive_or_false : Option Mortal → Bool
alive_or_false none = false
alive_or_false (some m) = alive m

abbrev pub position_or_origin : Option Mortal → Vector2D
position_or_origin none = record { x = zero_float; y = zero_float }
position_or_origin (some m) = m.body.position

-- A change of the player or food that a reference leads to.
abbrev pub change_found : ℕ → (Mortal → Mortal) → List Mortal → Option Mortal → List Mortal
change_found i g ms none = ms
change_found i g ms (some m) = set ms i (g m)

abbrev pub change_at : ℕ → (Mortal → Mortal) → List Mortal → List Mortal
change_at i g ms = change_found i g ms (get_elem? ms i)

-- `Player::updateSprite`
unfoldable pub update_player : World → Player → Player
update_player w p =
    let m = get_elem? w.players p.engine_player in
    if alive_or_false m then record p { last_hp = hp_or_zero m } else p

unfoldable pub update_players : World → List Player → List Player
unfolding update_player
update_players w [] = []
update_players w (p ∷ ps) = update_player w p ∷ update_players w ps

-- `Food::updateSprite`: the food has just been eaten.
unfoldable pub update_food : World → Food → Food × Bool
update_food w f =
    if f.is_alive
    then (if alive_or_false (get_elem? w.food f.engine_food)
        then (f, false)
        else (record f { is_alive = false }, true))
    else (f, false)
