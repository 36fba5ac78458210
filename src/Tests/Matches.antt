-- ===== src/Tests/Matches.antt =====
-- A match of two players with the foods of a world, one of which was just eaten.
use mniam_headless.Base.{
  ◌-◌, ◌/◌, refl, ◌==◌, ◌%◌, get_elem?, take, some, ℕ, ◌+◌, ◌<◌, ◌≡◌, true, List, [], ◌∷◌, length,
  map, All, arith,
}
use mniam_headless.Base.Int.{pos}
use mniam_headless.Amcom.{
  FoodState, PlayerState, max_food_updates, Responses, move_kind, move_transaction, validate,
}
use mniam_headless.Game.{
  new_game_to, player_state, join_all, Answers, move_phase, Player, Food, Game, new_game,
  food_update_sent, player_update_sent, send_players, send_food, send_eaten, Outside, play,
  five_steps, steer_all, move_request,
}
use mniam_headless.Game.Batches.{Batches, food_states, flatten, send_food-Batches}
use mniam_headless.Game.Eaten.{reported, eaten_states, IsUpdate, send_eaten-reported}
use mniam_headless.Game.Joining.{joiners, join_all-numbers, join_all-misnumbers}
use mniam_headless.Tests.Worlds.{ops, spot, arena, meal}
use mniam_headless.Connection.{Exchange, run_transaction}
use mniam_headless.Connection.Rounds.{Shared, turns}
use mniam_headless.Game.Cycle.{in_move}
use mniam_headless.Game.Times.{moves, times, wait, play-times}
use mniam_headless.Game.Steering.{answered_angle, move_request-steers}
use mniam_headless.Tests.Packets.{framing, angle_packet}
use mniam_headless.Tests.Servers.{
  early_hall, early_hall-IsRegistry, early_hall-IsFree, memory, memory-IsStore, reply,
}

abbrev pub table : List Food
table =
    record { engine_food = 0; is_alive = true } ∷ record { engine_food = 1; is_alive = true } ∷ []

abbrev player : ℕ → Player
player k = record { engine_player = k; last_hp = pos 2; client_id = k; name = [] }

abbrev pub seated : List Player
seated = player 0 ∷ player 1 ∷ []

abbrev pub game : Game
game = record {
  phase = move_phase;
  number_of_players = 2;
  map_width = 1000;
  map_height = 1000;
  world = arena;
  players = seated;
  food = table;
  identified = [];
  game_time = 7;
}

abbrev pub outside : Outside
outside = record {
  answers = record {
    client_ids = 0 ∷ 1 ∷ [];
    joins = λ k. true;
    player_position = λ i. spot;
    food_position = λ i. spot;
  };
  moves = (0, 0 ∷ 0 ∷ 128 ∷ 63 ∷ []) ∷ [];
  events = λ i. meal;
}

send_food-Batches_example :
    (bs : List (List FoodState)) × (send_food arena 0 [] table ≡ map food_update_sent bs)
    × Batches max_food_updates (food_states arena 0 table) bs
send_food-Batches_example = send_food-Batches arena table

send_eaten-reported_example :
    (reported (send_eaten arena 0 [] table).1 ≡ eaten_states arena 0 table)
    × All IsUpdate (send_eaten arena 0 [] table).1
send_eaten-reported_example = send_eaten-reported arena table

abbrev late : Answers
late = record outside.answers { client_ids = 0 ∷ 1 ∷ []; joins = λ k. k == 1 }

-- The second of two clients, when the first does not answer: it is told the number 1, and updates have it as 0.
join_all-numbers_example :
    let (g', sent) = join_all ops late 2 0 (0 ∷ 1 ∷ []) new_game in
    ((i k : ℕ)
      → get_elem? (0 ∷ 1 ∷ []) i ≡ some k
      → get_elem? sent i ≡ some (new_game_to k (i % 256) (2 % 256)))
    × (map (λ p. p.client_id) g'.players ≡ joiners late.joins (0 ∷ 1 ∷ []))
unfolding new_game
join_all-numbers_example = join_all-numbers ops late 2 (0 ∷ 1 ∷ []) new_game refl

join_all-misnumbers_example :
    let (g', sent) = join_all ops late 2 0 (0 ∷ 1 ∷ []) new_game in
    let place = length (joiners late.joins (take 1 (0 ∷ 1 ∷ []))) in
    (p : Player) × (bs : List (List PlayerState)) × (get_elem? sent 1
      ≡ some (new_game_to 1 1 (2 % 256)))
    × (p.client_id ≡ 1)
    × (get_elem? g'.players place ≡ some p)
    × (send_players player_update_sent arena 0 [] g'.players ≡ map player_update_sent bs)
    × (get_elem? (flatten bs) place ≡ some (player_state arena place p))
    × ((player_state arena place p).player_no ≡ place)
    × (place < 1)
unfolding new_game
join_all-misnumbers_example =
    join_all-misnumbers ops late 2 (0 ∷ 1 ∷ []) new_game arena 1 0 1 0 refl refl refl refl refl
      (omega arith) (omega arith)

-- A MOVE.response that is read whole.
abbrev turn_reply : Exchange
turn_reply = record reply { written = pos 9; read_count = pos 9; read_data = angle_packet }

move_request-steers_example :
    let (v', r) = run_transaction early_hall (move_transaction framing [] game.game_time) memory in
    (after : Shared Responses) × (turns
        (validate framing move_kind)
        (λ k. turn_reply)
        v'.clients
        (record { store = r.store; kept = [] })
      ≡ some after)
    × ((move_request ops (record outside { moves = after.kept }) game).0.world
        ≡ five_steps ops outside.events (
            steer_all ops
              (answered_angle framing (λ k. turn_reply) [] game.game_time early_hall)
              game.players
              game.world))
move_request-steers_example =
    move_request-steers framing (λ k. turn_reply) [] ops outside game early_hall memory
      early_hall-IsRegistry memory-IsStore early_hall-IsFree

play-times_example :
    moves (play ops (outside ∷ outside ∷ outside ∷ []) game).1
    ≡ times ((3 + 1 - wait move_phase) / 2) 7
play-times_example = play-times ops (outside ∷ outside ∷ outside ∷ []) game in_move
