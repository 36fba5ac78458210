-- ===== src/Game/Served.antt =====
-- The loop of the phase NEW_GAME_REQUEST of `Game::update` (src/amgame.cpp) with the server below it.
use mniam_headless.Base.{
  ℕ, ◌+◌, ◌%◌, List, [], ◌∷◌, ◌++◌, map, Option, none, some, ◌==◌, if◌then◌else◌,
}
use mniam_headless.Engine.{FloatOps}
use mniam_headless.Connection.{Bytes, Exchange, Server, Store}
use mniam_headless.Connection.Asking.{Asked, ask}
use mniam_headless.Amcom.{Amcom, Responses, new_game_kind, new_game_transaction, validate}
use mniam_headless.Game.State.{Game, Sent, new_game_to}
use mniam_headless.Game.Setup.{Answers, join}

-- What there is after the loop, and what the sockets were handed in it.
pub record Joined : Type 0 where
  pub server : Server
  pub store : Store
  pub game : Game
  pub sent : List Sent
  pub writes : List (ℕ × Bytes)

-- One more transaction was sent before those.
abbrev pub sent_before : Sent → List (ℕ × Bytes) → Option Joined → Option Joined
sent_before t writes none = none
sent_before t writes (some j) = some (record j { sent = t ∷ j.sent; writes = writes ++ j.writes })

abbrev pub with_answer :
    Option (Asked Responses) → (Asked Responses → Option Joined) → Option Joined
with_answer none next = none
with_answer (some b) next = next b

module _ {R : Type 0} (a : Amcom R) (exchanges : ℕ → Exchange) (buffer : Bytes) (f : FloatOps)
    (o : Answers) where
  -- The loop over the snapshot of `n` clients. Each round makes a new transaction, asks one client, and
  -- gives it a player if the wait for it gives 1.
  unfoldable pub join_served : ℕ → ℕ → List ℕ → Server → Store → Game → Option Joined
  unfolding new_game_transaction validate ask join
  join_served n player_no [] v s g =
      some (record { server = v; store = s; game = g; sent = []; writes = [] })
  join_served n player_no (k ∷ ks) v s g =
      with_answer
        (ask (validate a new_game_kind) (exchanges k) k v
          (new_game_transaction a buffer player_no (n % 256)) s [])
        (λ b. sent_before (new_game_to k player_no (n % 256)) (map (λ w. (k, w)) b.writes) (
          join_served n ((player_no + 1) % 256) ks b.server b.store
            (if b.count == 1 then join f o k g else g)))
