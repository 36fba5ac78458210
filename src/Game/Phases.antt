-- ===== src/Game/Phases.antt =====
-- `Game::update` of src/amgame.cpp and the loops of src/main.cpp.
use mniam_headless.Base.{ℕ, suc, ◌+◌, ◌%◌, ◌^◌, List, [], ◌∷◌, ◌++◌, leb, if◌then◌else◌}
use mniam_headless.Engine.{Float, FloatOps, World, Events, step, set_angle}
use mniam_headless.Amcom.{Responses, get_angle}
use mniam_headless.Game.State.{
  GamePhase, new_game_phase, player_update_phase, food_update_phase, move_phase, game_over_phase,
  game_end, Player, Game, Sent, player_update_sent, move_sent, game_over_sent, change_at,
  update_players,
}
use mniam_headless.Game.Setup.{Answers, new_game_request}
use mniam_headless.Game.Updates.{send_food, send_players, send_eaten}

-- What the outside answers: for the setting up of a match, to the move requests (the
-- responses that were saved when the wait is over) and for the five steps of the world.
pub record Outside : Type 0 where
  pub answers : Answers
  pub moves : Responses
  pub events : ℕ → Events

unfoldable pub steer_all : FloatOps → (ℕ → Float) → List Player → World → World
unfolding set_angle
steer_all f angle [] w = w
steer_all f angle (p ∷ ps) w =
    steer_all f angle ps
      (record w { players = change_at p.engine_player (set_angle f (angle p.client_id)) w.players })

unfoldable pub five_steps : FloatOps → (ℕ → Events) → World → World
five_steps f e w = step f (e 4) (step f (e 3) (step f (e 2) (step f (e 1) (step f (e 0) w))))

unfoldable pub move_request : FloatOps → Outside → Game → Game × List Sent
unfolding steer_all five_steps update_players send_eaten get_angle
move_request f o g =
    let w = five_steps f o.events (steer_all f (λ k. get_angle k o.moves) g.players g.world) in
    let (food, sent) = send_eaten w 0 [] g.food in
    (
      record g {
        world = w;
        players = update_players w g.players;
        food = food;
        game_time = (g.game_time + 1) % 2 ^ 32;
        phase = player_update_phase;
      },
      move_sent g.game_time ∷ sent,
    )

abbrev pub update_phase : FloatOps → Outside → GamePhase → Game → Game × List Sent
update_phase f o new_game_phase g = new_game_request f o.answers g
update_phase f o food_update_phase g =
    (record g { phase = player_update_phase }, send_food g.world 0 [] g.food)
update_phase f o player_update_phase g =
    (record g { phase = move_phase }, send_players player_update_sent g.world 0 [] g.players)
update_phase f o move_phase g = move_request f o g
update_phase f o game_over_phase g =
    (record g { phase = game_end }, send_players game_over_sent g.world 0 [] g.players)
update_phase f o _ g = (g, [])

unfoldable pub update : FloatOps → Outside → Game → Game × List Sent
unfolding new_game_request send_food send_players move_request
update f o g = update_phase f o g.phase g

-- The first loop of `main`: the numbers of clients that the server shows, one for each round, until
-- there are two at least. It gives the number of rounds that slept.
unfoldable pub wait_for_clients : List ℕ → ℕ
wait_for_clients [] = 0
wait_for_clients (n ∷ ns) = let rest = wait_for_clients ns in if leb 2 n then 0 else suc rest

-- The second loop of `main`, for as many rounds as the outside answers.
unfoldable pub play : FloatOps → List Outside → Game → Game × List Sent
unfolding update
play f [] g = (g, [])
play f (o ∷ os) g =
    let (g', sent) = update f o g in let (g'', later) = play f os g' in (g'', sent ++ later)
