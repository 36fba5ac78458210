-- ===== src/Game/Serving.antt =====
-- The program as a whole: `Game::update` (src/amgame.cpp) with the server below it, so that every
-- transaction goes through the server, the threads of the clients and their sockets.
use mniam_headless.Base.{ℕ, Bool, false, List, [], ◌∷◌, ◌++◌, Option, none, some, length, map, drop}
use mniam_headless.Engine.{FloatOps, Vector2D, Events}
use mniam_headless.Connection.{
  Bytes, Exchange, Incoming, Run, Server, Store, Transaction, accept_step, default_validator,
  get_clients, new_server, reset, run_transaction, wait_for_finish,
}
use mniam_headless.Connection.Talking.{Talked, Told, rounds, tell}
use mniam_headless.Amcom.{
  Amcom, Responses, food_update_transaction, game_over_kind, game_over_transaction, move_kind,
  move_transaction, player_update_transaction, validate,
}
use mniam_headless.Game.State.{
  Game, GamePhase, Sent, new_game, new_game_phase, food_update_phase, player_update_phase,
  move_phase, game_over_phase,
}
use mniam_headless.Game.Setup.{Answers, new_match, set_out}
use mniam_headless.Game.Phases.{Outside, move_request, update_phase}
use mniam_headless.Game.Served.{Joined, join_served}
use mniam_headless.Game.Broadcast.{request_of}

-- What the world outside does in one `update`: who connects before it, what the sockets answer in the
-- round after each of its transactions, the random positions, and the physics of the five steps.
pub record Circumstances : Type 0 where
  pub arrivals : List (ℕ × Incoming)
  pub sockets : ℕ → ℕ → Exchange
  pub player_position : ℕ → Vector2D
  pub food_position : ℕ → Vector2D
  pub events : ℕ → Events

-- The server, the memory of the transactions, the game, and what the sockets were handed, with the ids of
-- the clients.
pub record Program : Type 0 where
  pub server : Server
  pub store : Store
  pub game : Game
  pub writes : List (ℕ × Bytes)

-- The circumstances as the game alone sees them.
abbrev pub seen : Circumstances → List ℕ → (ℕ → Bool) → Responses → Outside
seen c ids joins moves = record {
  answers = record {
    client_ids = ids;
    joins = joins;
    player_position = c.player_position;
    food_position = c.food_position;
  };
  moves = moves;
  events = c.events;
}

-- The server's thread, between two updates.
unfoldable pub arrive : List (ℕ × Incoming) → Server → Server
unfolding accept_step
arrive [] v = v
arrive ((now, i) ∷ is) v = arrive is (accept_step now i v)

module _ {R : Type 0} (a : Amcom R) (buffer : Bytes) (f : FloatOps) where
  abbrev pub after_told : {V : Type 0} → Game → Option (Told V) → Option Program
  after_told g none = none
  after_told g (some b) =
      some (record { server = b.server; store = b.store; game = g; writes = b.writes })

  -- A loop over states that are sent in batches, from the transaction `i` of the update on.
  unfoldable pub tell_updates :
      Circumstances → ℕ → Transaction → Server → Store → Game × List Sent → Option Program
  unfolding tell default_validator request_of
  tell_updates c i t v s (g, sent) =
      after_told g (tell default_validator c.sockets i (map (request_of a buffer) sent) v t s tt)

  -- NEW_GAME_REQUEST
  abbrev pub after_joined : Answers → Option Joined → Option Program
  after_joined o none = none
  after_joined o (some j) =
      some (record {
        server = j.server;
        store = j.store;
        game = set_out f o j.game;
        writes = j.writes;
      })

  unfoldable pub start_served : Circumstances → Program → Option Program
  unfolding join_served set_out get_clients
  start_served c p =
      let ids = map (λ i. i.client_id) (get_clients 0 p.server) in
      let o = (seen c [] (λ k. false) []).answers in
      after_joined o
        (join_served a (c.sockets 0) buffer f o (length ids) 0 ids p.server p.store p.game)

  -- MOVE_REQUEST: the responses steer the players, the world is stepped, eaten foods are reported, and
  -- then the move transaction ends.
  abbrev pub end_move : Transaction → Option Program → Option Program
  end_move t none = none
  end_move t (some p) = some (record p { store = (reset t p.store).1 })

  abbrev pub writes_before : List (ℕ × Bytes) → Option Program → Option Program
  writes_before writes none = none
  writes_before writes (some p) = some (record p { writes = writes ++ p.writes })

  unfoldable pub after_move :
      Circumstances → Server → Run → Game → Option (Talked Responses) → Option Program
  unfolding move_request tell_updates food_update_transaction reset wait_for_finish
  after_move c v r g none = none
  after_move c v r g (some b) =
      let s = (wait_for_finish r.transaction b.store).0 in
      let (g', sent) = move_request f (seen c [] (λ k. false) b.kept) g in
      writes_before b.writes (
        end_move r.transaction (
          tell_updates c 1 (food_update_transaction []) (record v { clients = b.clients }) s
            (g', drop 1 sent)))

  unfoldable pub move_served : Circumstances → Program → Option Program
  unfolding move_transaction run_transaction rounds validate after_move
  move_served c p =
      let (v', r) = run_transaction p.server (move_transaction a buffer p.game.game_time) p.store in
      after_move c v' r p.game (rounds (validate a move_kind) (c.sockets 0) v'.clients r.store [])

  -- GAME_OVER_REQUEST
  unfoldable pub over_served : Circumstances → Program → Option Program
  unfolding tell validate game_over_transaction request_of
  over_served c p =
      let (g', sent) = update_phase f (seen c [] (λ k. false) []) game_over_phase p.game in
      after_told g' (
        tell (validate a game_over_kind) c.sockets 0 (map (request_of a buffer) sent) p.server
          (game_over_transaction []) p.store [])

  abbrev pub phase_served : Circumstances → GamePhase → Program → Option Program
  phase_served c new_game_phase p = start_served c p
  phase_served c food_update_phase p =
      tell_updates c 0 (food_update_transaction []) p.server p.store
        (update_phase f (seen c [] (λ k. false) []) food_update_phase p.game)
  phase_served c player_update_phase p =
      tell_updates c 0 (player_update_transaction []) p.server p.store
        (update_phase f (seen c [] (λ k. false) []) player_update_phase p.game)
  phase_served c move_phase p = move_served c p
  phase_served c game_over_phase p = over_served c p
  phase_served c _ p = some (record p { writes = [] })

  unfoldable pub update_served : Circumstances → Program → Option Program
  unfolding arrive start_served tell_updates move_served over_served
  update_served c p =
      writes_before p.writes
        (phase_served c p.game.phase (record p { server = arrive c.arrivals p.server }))

  abbrev pub then_played : Option Program → (Program → Option Program) → Option Program
  then_played none next = none
  then_played (some p) next = next p

  -- The second loop of `main`.
  unfoldable pub play_served : List Circumstances → Program → Option Program
  unfolding update_served
  play_served [] p = some p
  play_served (c ∷ cs) p = then_played (update_served c p) (λ p'. play_served cs p')

  -- `main`: the server listens for at most 8 clients, those of `arrivals` connect, and the match begins.
  abbrev pub match_begun : Server × Game → Program
  match_begun (v, g) = record {
    server = v;
    store = record { cells = []; fresh = 0 };
    game = g;
    writes = [];
  }

  unfoldable pub main_program : List (ℕ × Incoming) → List Circumstances → Option Program
  unfolding arrive new_match play_served new_server new_game
  main_program arrivals cs =
      play_served cs (match_begun (new_match (arrive arrivals (new_server 8)) new_game))
