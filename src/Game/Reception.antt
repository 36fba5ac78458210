-- ===== src/Game/Reception.antt =====
-- What a client makes of the phases FOOD_UPDATE_REQUEST and PLAYER_UPDATE_REQUEST of `Game::update`
-- (src/amgame.cpp): from the state of the world over the server and the client's socket to the states
-- that the client reads.
use mniam_headless.Base.{ℕ, ◌≡◌, refl, ap, ◌∙◌, true, List, [], map, some, All}
use mniam_headless.Engine.{World}
use mniam_headless.Connection.{Bytes, Exchange, Server, Store, Transaction, default_validator}
use mniam_headless.Connection.Rounds.{is_listening}
use mniam_headless.Connection.Runs.{IsStore}
use mniam_headless.Connection.Talking.{Told, tell}
use mniam_headless.Connection.Postbox.{listeners, listens, to_client}
use mniam_headless.Connection.Telling.{map-Ascends, tell-Phased}
use mniam_headless.Connection.Hearing.{
  TakesAll, listens-left_after, to_client-told_all, up_to_failure, up_to_failure-TakesAll,
}
use mniam_headless.Amcom.{Amcom, IsAmcom, food_update_transaction, player_update_transaction}
use mniam_headless.Game.State.{Player, Food, player_update_sent}
use mniam_headless.Game.Updates.{send_food, send_players}
use mniam_headless.Game.Batches.{food_states, player_states}
use mniam_headless.Engine.Positions.{PositionFits}
use mniam_headless.Game.Broadcast.{request_of, foods_read, players_read, updates_read}
use mniam_headless.Game.Resting.{names-IsAtRest, IsAtRest}

-- What a phase of updates comes to for a client that listens and whose socket takes all of them.
record Received (k : ℕ) (requests : List Bytes) (after : Told (Unit {0})) : Type 0 where
  pub all_received : to_client k after.writes ≡ requests
  pub still_listens : listens k (listeners after.server.clients) ≡ true
  pub at_rest : IsAtRest after.server.clients
  pub is_store : IsStore after.store

receive_all :
    (sockets : ℕ → ℕ → Exchange) (requests : List Bytes) (k : ℕ) (v : Server) (t : Transaction)
    (s : Store)
    → t.response_size ≡ 0
    → IsAtRest v.clients
    → IsStore s
    → listens k (listeners v.clients) ≡ true
    → TakesAll (λ i. sockets i k) 0 requests
    → (after : Told (Unit {0})) × (tell default_validator sockets 0 requests v t s tt ≡ some after)
      × Received k requests after
receive_all sockets requests k v t s silent h is_store on takes =
    let phase =
      tell-Phased default_validator sockets 0 requests v t s tt h.is_ordered is_store h.are_ready in
    let ls = listeners v.clients in
    (
      phase.after,
      phase.result,
      record {
        all_received =
            ap (to_client k) (phase.heard silent).0
            ∙ to_client-told_all k 0 sockets requests ls
                (map-Ascends (λ e. is_listening e.1) 0 v.clients h.is_ordered)
            ∙ ap (up_to_failure (λ i. sockets i k) 0 requests) on
            ∙ up_to_failure-TakesAll (λ i. sockets i k) 0 requests takes;
        still_listens =
            ap (listens k) (phase.heard silent).1
            ∙ listens-left_after k 0 sockets requests ls on takes;
        at_rest =
            names-IsAtRest v.clients phase.after.server.clients h phase.same_names phase.are_ready;
        is_store = phase.is_store;
      },
    )

module _ {R : Type 0} (a : Amcom R) (h : IsAmcom a) (buffer : Bytes) where
  -- With a packet library as documented, coordinates that are bit patterns of floats, clients in ascending
  -- order of their ids with empty queues where the threads go on, and the cells of memory below the next
  -- address: a FOOD update and the PLAYER update after it, with the same world, have a result, each thread
  -- making a round before a wait ends. A client whose thread goes on and whose socket takes every request
  -- whole, whatever the other clients do, reads in the requests of the first the states of all
  -- foods, each once and in order, and in those of the second the states of all players.
  pub updates_received :
      (sockets sockets' : ℕ → ℕ → Exchange) (w : World) (fs : List Food) (ps : List Player)
      (v : Server) (s : Store) (k : ℕ)
      → All PositionFits w.food
      → All PositionFits w.players
      → IsAtRest v.clients
      → IsStore s
      → listens k (listeners v.clients) ≡ true
      → TakesAll (λ i. sockets i k) 0 (map (request_of a buffer) (send_food w 0 [] fs))
      → TakesAll
          (λ i. sockets' i k)
          0
          (map (request_of a buffer) (send_players player_update_sent w 0 [] ps))
      → (b b' : Told (Unit {0})) × (tell default_validator sockets 0
            (map (request_of a buffer) (send_food w 0 [] fs))
            v
            (food_update_transaction [])
            s
            tt
          ≡ some b)
        × (foods_read a (to_client k b.writes) ≡ food_states w 0 fs)
        × (tell default_validator sockets' 0
              (map (request_of a buffer) (send_players player_update_sent w 0 [] ps))
              b.server
              (player_update_transaction [])
              b.store
              tt
            ≡ some b')
        × (players_read a (to_client k b'.writes) ≡ player_states w 0 ps)
  unfolding food_update_transaction player_update_transaction
  updates_received sockets sockets' w fs ps v s k foods_fit players_fit rest is_store on takes
        takes' =
      let (foods, players) = updates_read a h buffer w fs ps foods_fit players_fit in
      let (b, result, got) =
        receive_all sockets (map (request_of a buffer) (send_food w 0 [] fs)) k v
          (food_update_transaction []) s refl rest is_store on takes in
      let (b', result', got') =
        receive_all sockets' (map (request_of a buffer) (send_players player_update_sent w 0 [] ps))
          k b.server (player_update_transaction []) b.store refl got.at_rest got.is_store
          got.still_listens takes' in
      (
        b,
        b',
        result,
        ap (foods_read a) got.all_received ∙ foods,
        result',
        ap (players_read a) got'.all_received ∙ players,
      )
