-- ===== src/Game/Steering.antt =====
-- The move phase of `Game::update` (src/amgame.cpp) with the server below it: the transaction that
-- the game runs, the rounds of the clients' threads, and the angles that the players get.
use mniam_headless.Base.{ℕ, ◌≡◌, ap, ◌∙◌, fun_ext, [], some, All, arith}
use mniam_headless.Base.OrderedMap.{find}
use mniam_headless.Engine.{Float, FloatOps}
use mniam_headless.Connection.{
  Bytes, Client, Exchange, Server, Store, new_transaction, run_transaction,
}
use mniam_headless.Connection.Membership.{IsRegistry}
use mniam_headless.Connection.Runs.{IsStore, scheduled_cell}
use mniam_headless.Connection.Group.{run_transaction-turns}
use mniam_headless.Connection.Rounds.{IsFree, Shared, turns, keeps_all}
use mniam_headless.Amcom.{
  Amcom, Responses, move_kind, move_transaction, validate, get_angle, angle_or_zero,
}
use mniam_headless.Amcom.Answers.{client_answer, find-keeps_all}
use mniam_headless.Game.State.{Game}
use mniam_headless.Game.Phases.{Outside, steer_all, five_steps, move_request}

module _ {R : Type 0} (a : Amcom R) (exchanges : ℕ → Exchange) (buffer : Bytes) where
  -- The angle that the client with an id answers: the one in the first MOVE.response it sends back in
  -- time, and 0 without one.
  abbrev pub answered_angle : ℕ → Server → ℕ → Float
  answered_angle game_time v k = angle_or_zero (
      client_answer a move_kind exchanges (move_transaction a buffer game_time) k
        (find k v.clients))

  get_angle-answered :
      (game_time : ℕ) (v : Server) (after : Responses) (k : ℕ)
      → IsRegistry v
      → let t = move_transaction a buffer game_time in
        after ≡ keeps_all (validate a move_kind) exchanges (scheduled_cell t) v.clients []
        → get_angle k after ≡ answered_angle game_time v k
  unfolding get_angle find move_transaction new_transaction
  get_angle-answered game_time v after k r e =
      let t = move_transaction a buffer game_time in
      ap (λ m. get_angle k m) e
      ∙ ap angle_or_zero (
          find-keeps_all a move_kind exchanges t 0 k v.clients [] r.ascends r.named tt
            (omega arith))

  -- With registered clients, the cells of memory below the next address, and every active client free for work: after the game's
  -- MOVE transaction is run with the server's clients, the rounds of their threads have a result, and
  -- the responses it keeps make the move phase step the world five times with every player steered by the angle
  -- that its client answered: the one in the first MOVE.response of the right size, and 0 without one or if the client is not active.
  pub move_request-steers :
      (f : FloatOps) (o : Outside) (g : Game) (v : Server) (s : Store)
      → IsRegistry v
      → IsStore s
      → All (λ (e : ℕ × Client). IsFree e.1) v.clients
      → let (v', r) = run_transaction v (move_transaction a buffer g.game_time) s in
        (after : Shared Responses) × (turns
            (validate a move_kind)
            exchanges
            v'.clients
            (record { store = r.store; kept = [] })
          ≡ some after)
        × ((move_request f (record o { moves = after.kept }) g).0.world
            ≡ five_steps f o.events (steer_all f (answered_angle g.game_time v) g.players g.world))
  unfolding move_request
  move_request-steers f o g v s r h free =
      let t = move_transaction a buffer g.game_time in
      let (after, result, _, kept) =
        run_transaction-turns (validate a move_kind) exchanges t v s [] r.ascends h free in
      let angles : (λ k. get_angle k after.kept) ≡ answered_angle g.game_time v =
        fun_ext (λ k. get_angle-answered g.game_time v after.kept k r kept) in
      (
        after,
        result,
        ap (λ angle. five_steps f o.events (steer_all f angle g.players g.world)) angles,
      )
