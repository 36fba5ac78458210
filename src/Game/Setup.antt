-- ===== src/Game/Setup.antt =====
-- The setting up of a match in src/amgame.cpp: `newMatch`, the phase NEW_GAME_REQUEST, the placing of
-- players and food, and `clear`.
use mniam_headless.Base.{
  ℕ, zero, suc, ◌+◌, ◌*◌, ◌%◌, Bool, true, List, [], ◌∷◌, ◌++◌, length, get_elem?, if◌then◌else◌,
}
use mniam_headless.Connection.{Server, remove_all_inactive_clients, get_clients}
use mniam_headless.Engine.{
  Float, FloatOps, Vector2D, World, add_player, add_food, set_position, set_angle, init_world,
  zero_float, quarter_thousand_float, thousand_float,
}
use mniam_headless.Amcom.{get_name}
use mniam_headless.Game.State.{
  new_game_phase, food_update_phase, game_over_phase, Player, Food, Game, Sent, new_game_to,
  hp_or_zero, change_at, update_players, update_food,
}

-- What the outside answers in one `update`: the ids in the snapshot of the clients, whether a client
-- answered NEW_GAME.request in time, the random positions and the angles in the move responses.
pub record Answers : Type 0 where
  pub client_ids : List ℕ
  pub joins : ℕ → Bool
  pub player_position : ℕ → Vector2D
  pub food_position : ℕ → Vector2D

-- The constructor of `Player`, and `players.push_back`.
unfoldable pub join : FloatOps → Answers → ℕ → Game → Game
unfolding add_player get_name
join f a client_id g =
    let (w, i) = add_player f (a.player_position (length g.world.players)) g.world in
    record g {
      world = w;
      players =
          g.players
          ++ record {
            engine_player = i;
            last_hp = hp_or_zero (get_elem? w.players i);
            client_id = client_id;
            name = get_name client_id g.identified;
          }
            ∷ [];
    }

-- The loop over the clients: `player_no` is a `uint8_t`, and so is the number of players in the
-- request. A client that does not answer in time gets no player, and its number is used up.
unfoldable pub join_all : FloatOps → Answers → ℕ → ℕ → List ℕ → Game → Game × List Sent
unfolding join
join_all f a n player_no [] g = (g, [])
join_all f a n player_no (k ∷ ks) g =
    let g' = (if a.joins k then join f a k g else g) in
    let (g'', sent) = join_all f a n ((player_no + 1) % 256) ks g' in
    (g'', new_game_to k player_no (n % 256) ∷ sent)

-- `positionPlayers`
unfoldable pub position_players : FloatOps → Float → Float → List Player → World → World
unfolding set_position set_angle
position_players f step angle [] w = w
position_players f step angle (p ∷ ps) w =
    let spot : Vector2D = record {
      x = f.mul quarter_thousand_float (f.cos angle);
      y = f.mul quarter_thousand_float (f.sin angle);
    } in
    position_players f step (f.add angle step) ps (record w {
      players =
          change_at p.engine_player (λ m. set_angle f zero_float (set_position spot m)) w.players;
    })

-- `positionFood`, for the rounds that are left.
unfoldable pub position_food : FloatOps → Answers → ℕ → Game → Game
unfolding add_food
position_food f a zero g = g
position_food f a (suc rounds) g =
    let (w, i) = add_food f (a.food_position (length g.world.food)) g.world in
    position_food f a rounds
      (record g { world = w; food = g.food ++ record { engine_food = i; is_alive = true } ∷ [] })

unfoldable pub update_foods : World → List Food → List Food
unfolding update_food
update_foods w [] = []
update_foods w (f ∷ fs) = (update_food w f).0 ∷ update_foods w fs

-- The rest of the phase, after the loop. `updateSprite` in `positionPlayers` sees the same hitpoints
-- for each player, since the placing changes bodies only.
unfoldable pub set_out : FloatOps → Answers → Game → Game
unfolding position_players position_food init_world update_players update_foods
set_out f a g =
    let placed = position_players f (f.turn_part (length g.players)) zero_float g.players g.world in
    let fed =
      position_food f a (length g.players * 6)
        (record g { world = placed; players = update_players placed g.players }) in
    let w = init_world f fed.world in
    record fed {
      world = w;
      players = update_players w fed.players;
      food = update_foods w fed.food;
      phase = food_update_phase;
    }

unfoldable pub new_game_request : FloatOps → Answers → Game → Game × List Sent
unfolding join_all set_out
new_game_request f a g =
    let (g', sent) = join_all f a (length a.client_ids) 0 a.client_ids g in (set_out f a g', sent)

-- `newMatch`: the inactive clients leave the server first.
unfoldable pub new_match : Server → Game → Server × Game
unfolding remove_all_inactive_clients get_clients
new_match v g =
    let v' = remove_all_inactive_clients v in
    (
      v',
      record g {
        number_of_players = length (get_clients 0 v');
        map_width = thousand_float;
        map_height = thousand_float;
        phase = new_game_phase;
      },
    )

-- `finish`
unfoldable pub finish : Game → Game
finish g = record g { phase = game_over_phase }

-- `clear`
unfoldable pub clear : Game → Game
clear g = record g { players = []; food = [] }
