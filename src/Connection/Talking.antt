-- ===== src/Connection/Talking.antt =====
-- What goes over the sockets of all clients while the game runs transactions: rounds of the clients'
-- threads, with what each hands to `write_n` (src/connection_client.cpp), and one transaction that is
-- run again and again with new requests, as the update phases of src/amgame.cpp do.
use mniam_headless.Base.{ℕ, suc, Bool, List, [], ◌∷◌, ◌++◌, map, Option, none, some, if◌then◌else◌}
use mniam_headless.Base.OrderedMap.{find}
use mniam_headless.Connection.Requests.{Bytes, ClientTransaction, is_scheduled}
use mniam_headless.Connection.Clients.{Client, Exchange}
use mniam_headless.Connection.Transactions.{Store, Transaction, reset, wait_for_finish}
use mniam_headless.Connection.Servers.{Server, Run, run_transaction}
use mniam_headless.Connection.Thread.{Session, thread_step}
use mniam_headless.Connection.Rounds.{is_listening}

-- What a thread hands to its socket in a round: the request of the next transaction of the queue, if that one is
-- scheduled.
abbrev pub cell_writes : Option ClientTransaction → List Bytes
cell_writes none = []
cell_writes (some t) = if is_scheduled t.state then t.request ∷ [] else []

abbrev pub queue_writes : List ℕ → List (ℕ × ClientTransaction) → List Bytes
queue_writes [] cells = []
queue_writes (a ∷ rest) cells = cell_writes (find a cells)

-- After a round of every client's thread; `writes` are the bytes handed to sockets, with the ids.
pub record Talked (V : Type 0) : Type 0 where
  pub clients : List (ℕ × Client)
  pub store : Store
  pub kept : V
  pub writes : List (ℕ × Bytes)

-- After a phase of transactions.
pub record Told (V : Type 0) : Type 0 where
  pub server : Server
  pub store : Store
  pub kept : V
  pub writes : List (ℕ × Bytes)

module _ {V : Type 0} where
  unfoldable pub thread_writes : Session V → List Bytes
  thread_writes s =
      if is_listening s.client then queue_writes s.client.transactions s.store.cells else []

  abbrev pub sat_down : ℕ → List Bytes → Session V → Option (Talked V) → Option (Talked V)
  sat_down k writes s none = none
  sat_down k writes s (some r) = some (record r {
    clients = (k, s.client) ∷ r.clients;
    writes = map (λ b. (k, b)) writes ++ r.writes;
  })

  abbrev pub seat :
      ℕ → List Bytes → Option (Session V) → (Session V → Option (Talked V)) → Option (Talked V)
  seat k writes none next = none
  seat k writes (some s) next = sat_down k writes s (next s)

  abbrev pub told_before : List (ℕ × Bytes) → Option (Told V) → Option (Told V)
  told_before writes none = none
  told_before writes (some r) = some (record r { writes = writes ++ r.writes })

  -- `waitForFinish`, before the next run.
  unfoldable pub wait_then :
      Server
      → Run
      → Option (Talked V)
      → (Server → Transaction → Store → V → Option (Told V))
      → Option (Told V)
  unfolding wait_for_finish
  wait_then v r none next = none
  wait_then v r (some b) next = told_before b.writes (
      next (record v { clients = b.clients }) r.transaction
        (wait_for_finish r.transaction b.store).0 b.kept)

module _ {V : Type 0} (validator : ℕ → Bytes → V → V × Bool) where
  -- The round of a client's thread, if it has not ended. A thread that was asked to stop ends in its next
  -- round.
  abbrev pub round_of : Exchange → Session V → Option (Session V)
  round_of x s = if s.client.active then thread_step validator x.received_at x s else some s

  -- Every client's thread makes a round, in the order of the ids.
  unfoldable pub rounds : (ℕ → Exchange) → List (ℕ × Client) → Store → V → Option (Talked V)
  unfolding thread_step thread_writes
  rounds exchanges [] s kept = some (record { clients = []; store = s; kept = kept; writes = [] })
  rounds exchanges ((k, c) ∷ m) s kept =
      let session : Session V = record { client = c; store = s; kept = kept } in
      seat k (thread_writes session) (round_of (exchanges k) session)
        (λ after. rounds exchanges m after.store after.kept)

  -- The transaction `t` is run with one request after another, with a wait after each; in the round
  -- `i` the sockets answer `exchanges i`. Then its life ends.
  unfoldable pub tell :
      (ℕ → ℕ → Exchange) → ℕ → List Bytes → Server → Transaction → Store → V → Option (Told V)
  unfolding run_transaction rounds wait_then reset
  tell exchanges i [] v t s kept =
      some (record { server = v; store = (reset t s).1; kept = kept; writes = [] })
  tell exchanges i (request ∷ requests) v t s kept =
      let (v', r) = run_transaction v (record t { request = request }) s in
      wait_then v' r (rounds (exchanges i) v'.clients r.store kept)
        (λ v'' t' s' kept'. tell exchanges (suc i) requests v'' t' s' kept')
