-- ===== src/Tests/Programs.antt =====
-- The program as a whole, on the server of Tests/Servers and the match of Tests/Matches.
use mniam_headless.Base.{
  ℕ, ◌+◌, ◌*◌, ◌≡◌, refl, true, List, [], ◌∷◌, some, length, map, arith, Option, none,
  if◌then◌else◌, ◌==◌, ◌++◌,
}
use mniam_headless.Base.Int.{pos, ◌≤ℤ◌, ◌+ℤ◌, ◌-ℤ◌}
use mniam_headless.Connection.{Bytes, Exchange, connection, default_validator}
use mniam_headless.Connection.Talking.{Told, tell}
use mniam_headless.Connection.Postbox.{listeners, listens, to_client, hears}
use mniam_headless.Connection.Hearing.{TakesAll, up_to_failure, tell-up_to_failure}
use mniam_headless.Engine.Hitpoints.{IsSound, total_hp}
use mniam_headless.Amcom.{
  food_update_transaction, player_update_transaction, array_bytes, food_state_bytes,
  player_state_bytes, food_update,
}
use mniam_headless.Game.{
  play, player_update_sent, send_food, send_players, update, move_request, five_steps, add_if_eaten,
  food_state, update_food,
}
use mniam_headless.Game.Batches.{food_states, player_states}
use mniam_headless.Game.Broadcast.{request_of, foods_read, players_read}
use mniam_headless.Game.Resting.{IsAtRest, IsOrderly}
use mniam_headless.Game.Serving.{Circumstances, Program, play_served, main_program}
use mniam_headless.Game.Answering.{heard_along, heard_from}
use mniam_headless.Game.Playing.{HeedsAlong, AndThen, play_served-plays, play_served-serves}
use mniam_headless.Base.OrderedMap.{find}
use mniam_headless.Engine.{step, process_ongoing_contacts, ongoing_contact, begin_contact}
use mniam_headless.Amcom.Validation.{first_response}
use mniam_headless.Game.Heeding.{sents_for, heeds}
use mniam_headless.Tests.Packets.{angle_packet, framing, framing-IsAmcom}
use mniam_headless.Game.Understanding.{CircumstancesFit, play_served-reads}
use mniam_headless.Game.Placing.{ProductsFit}
use mniam_headless.Game.Reading.{players_reported}
use mniam_headless.Game.Eaten.{reported}
use mniam_headless.Engine.Positions.{WorldFits}
use mniam_headless.Game.Whole.{main_program-total_hp}
use mniam_headless.Game.Reception.{updates_received}
use mniam_headless.Tests.Worlds.{ops, spot, arena, meal}
use mniam_headless.Tests.Matches.{game, seated, table}
use mniam_headless.Tests.Servers.{
  early_hall, early_hall-Ascends, early_hall-IsReady, memory, memory-IsStore, reply,
}

-- A socket that takes an update of two foods or two players whole.
abbrev sockets : ℕ → ℕ → Exchange
sockets i k = record reply { written = pos 27 }

abbrev evening : Circumstances
evening = record {
  arrivals = (20, connection (128 ∷ [])) ∷ [];
  sockets = sockets;
  player_position = λ i. spot;
  food_position = λ i. spot;
  events = λ i. meal;
}

abbrev program : Program
program = record { server = early_hall; store = memory; game = game; writes = [] }

early_hall-IsAtRest : IsAtRest early_hall.clients
early_hall-IsAtRest = record {
  is_ordered = early_hall-Ascends;
  named = (refl, (refl, tt));
  are_ready = early_hall-IsReady;
}

program-IsOrderly : IsOrderly program
program-IsOrderly = record { at_rest = early_hall-IsAtRest; is_store = memory-IsStore }

play_served-plays_example :
    (after : Program) × (play_served framing [] ops (evening ∷ evening ∷ []) program ≡ some after)
    × (after.game ≡ (play ops (heard_along framing [] ops (evening ∷ evening ∷ []) program) game).0)
play_served-plays_example =
    play_served-plays framing [] ops framing-IsAmcom (evening ∷ evening ∷ []) program
      program-IsOrderly

main_program-total_hp_example :
    (after : Program) × (main_program framing [] ops evening.arrivals (evening ∷ evening ∷ [])
      ≡ some after)
    × IsSound after.game.world
    × (total_hp after.game.world
        ≤ℤ pos (2 * length after.game.world.players + length after.game.world.food))
main_program-total_hp_example =
    main_program-total_hp framing [] ops framing-IsAmcom evening.arrivals (evening ∷ evening ∷ [])

abbrev requests : List Bytes
requests = (1 ∷ 2 ∷ []) ∷ (3 ∷ []) ∷ (4 ∷ 5 ∷ []) ∷ []

-- The second request is not taken whole.
tell-up_to_failure_example :
    (after : Told (Unit {0})) × (tell default_validator
        (λ i k. reply)
        0
        requests
        early_hall
        (food_update_transaction [])
        memory
        tt
      ≡ some after)
    × (to_client 3 after.writes
        ≡ up_to_failure (λ i. reply) 0 requests (listens 3 (listeners early_hall.clients)))
unfolding food_update_transaction
tell-up_to_failure_example =
    tell-up_to_failure default_validator (λ i k. reply) requests early_hall
      (food_update_transaction []) memory tt 3 refl early_hall-Ascends memory-IsStore
      early_hall-IsReady

third_listens : listens 3 (listeners early_hall.clients) ≡ true
unfolding listens
third_listens = refl

takes_foods :
    TakesAll (λ i. sockets i 3) 0 (map (request_of framing []) (send_food arena 0 [] table))
unfolding send_food request_of array_bytes food_state_bytes
takes_foods = (refl, tt)

takes_players :
    TakesAll
      (λ i. sockets i 3)
      0
      (map (request_of framing []) (send_players player_update_sent arena 0 [] seated))
unfolding send_players request_of array_bytes player_state_bytes
takes_players = (refl, tt)

updates_received_example :
    (b b' : Told (Unit {0})) × (tell default_validator sockets 0
        (map (request_of framing []) (send_food arena 0 [] table))
        early_hall
        (food_update_transaction [])
        memory
        tt
      ≡ some b)
    × (foods_read framing (to_client 3 b.writes) ≡ food_states arena 0 table)
    × (tell default_validator sockets 0
          (map (request_of framing []) (send_players player_update_sent arena 0 [] seated))
          b.server
          (player_update_transaction [])
          b.store
          tt
        ≡ some b')
    × (players_read framing (to_client 3 b'.writes) ≡ player_states arena 0 seated)
updates_received_example =
    updates_received framing framing-IsAmcom [] sockets sockets arena table seated early_hall memory
      3 ((omega arith, omega arith), ((omega arith, omega arith), tt))
      ((omega arith, omega arith), ((omega arith, omega arith), ((omega arith, omega arith), tt)))
      early_hall-IsAtRest memory-IsStore third_listens takes_foods takes_players

-- The socket takes the MOVE request and answers it, and takes an update of two foods.
abbrev dinner : Circumstances
dinner = record evening {
  sockets = λ i k.
      if i == 0
      then record reply { written = pos 9; read_count = pos 9; read_data = angle_packet }
      else record reply { written = pos 27 };
}

at_the_end :
    (o : Option Program)
    → AndThen framing [] ops framing-IsAmcom o
        (λ q. HeedsAlong framing [] ops framing-IsAmcom 3 [] q)
at_the_end none = tt
at_the_end (some q) = tt

heeds_dinner : HeedsAlong framing [] ops framing-IsAmcom 3 (dinner ∷ []) program
unfolding update heard_from move_request sents_for heeds request_of first_response five_steps step
    add_if_eaten food_state food_update array_bytes food_state_bytes update_food
    process_ongoing_contacts ongoing_contact begin_contact ◌+ℤ◌ ◌-ℤ◌ mniam_headless.Engine.update
heeds_dinner = ((refl, (refl, tt)), at_the_end _)

play_served-serves_example :
    (after : Program) × (play_served framing [] ops (dinner ∷ []) program ≡ some after)
    × (hears (find 3 after.server.clients) ≡ true)
    × (to_client 3 after.writes
        ≡ to_client 3 []
          ++ map
              (request_of framing [])
              (sents_for 3 (play ops (heard_along framing [] ops (dinner ∷ []) program) game).1))
play_served-serves_example =
    play_served-serves framing [] ops framing-IsAmcom (dinner ∷ []) program 3 program-IsOrderly
      (unfold find in refl) heeds_dinner

products_fit : ProductsFit ops
products_fit x y = omega arith

arena-WorldFits : WorldFits arena
arena-WorldFits = (
  ((omega arith, omega arith), ((omega arith, omega arith), tt)),
  ((omega arith, omega arith), ((omega arith, omega arith), ((omega arith, omega arith), tt))),
)

dinner-CircumstancesFit : CircumstancesFit dinner
dinner-CircumstancesFit = (
  ((λ i. (omega arith, omega arith)), (λ i. (omega arith, omega arith))),
  (λ i. ((λ j. (omega arith, omega arith)), (λ j. (omega arith, omega arith)))),
)

play_served-reads_example :
    let sent = (play ops (heard_along framing [] ops (dinner ∷ []) program) game).1 in
    (after : Program) × (play_served framing [] ops (dinner ∷ []) program ≡ some after)
    × (foods_read framing (to_client 3 after.writes) ≡ reported sent)
    × (players_read framing (to_client 3 after.writes) ≡ players_reported sent)
play_served-reads_example =
    play_served-reads framing [] ops framing-IsAmcom (dinner ∷ []) program 3 program-IsOrderly refl
      (unfold find in refl) heeds_dinner products_fit arena-WorldFits (dinner-CircumstancesFit, tt)
