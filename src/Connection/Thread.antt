-- ===== src/Connection/Thread.antt =====
-- One round of the loop of `clientThreadFunc` in src/connection_client.cpp.
use mniam_headless.Base.{ℕ, Bool, true, false, List, [], ◌∷◌, Option, none, some, if◌then◌else◌}
use mniam_headless.Base.OrderedMap.{find, assign}
use mniam_headless.Connection.Requests.{Bytes, ClientTransaction}
use mniam_headless.Connection.Clients.{Client, Exchange, serve, close_connection}
use mniam_headless.Connection.Transactions.{Store}

-- A client with the memory and the state of the validators that its thread works on.
pub record Session (V : Type 0) : Type 0 where
  pub client : Client
  pub store : Store
  pub kept : V

module _ {V : Type 0} (validator : ℕ → Bytes → V → V × Bool) where
  -- The transaction at the address that was taken from the queue; `none` is the use of a client
  -- transaction that no longer exists.
  unfoldable pub serve_at : Exchange → ℕ → Option ClientTransaction → Session V → Option (Session V)
  unfolding serve
  serve_at x a none s = none
  serve_at x a (some t) s =
      let (c, t', v) = serve validator x s.client t s.kept in
      some (record {
        client = c;
        store = record s.store { cells = assign a t' s.store.cells };
        kept = v;
      })

  unfoldable pub serve_queue : Exchange → List ℕ → Session V → Option (Session V)
  unfolding serve_at
  serve_queue x [] s = some s
  serve_queue x (a ∷ rest) s =
      serve_at x a (find a s.store.cells)
        (record s { client = record s.client { transactions = rest } })

  unfoldable pub thread_step : ℕ → Exchange → Session V → Option (Session V)
  unfolding serve_queue
  thread_step now x s =
      if s.client.stop_requested
      then some (record s { client = close_connection now s.client })
      else serve_queue x s.client.transactions s

  -- What follows a round: the loop is left if the thread was asked to stop before it.
  unfoldable pub go_on :
      Bool → Option (Session V) → (Session V → Option (Session V)) → Option (Session V)
  go_on true o continue = o
  go_on false none continue = none
  go_on false (some s) continue = continue s

  -- The loop, while the clock and the socket give these answers.
  unfoldable pub thread_run : List (ℕ × Exchange) → Session V → Option (Session V)
  unfolding go_on
  thread_run [] s = some s
  thread_run ((now, x) ∷ rounds) s =
      go_on s.client.stop_requested (thread_step now x s) (λ s'. thread_run rounds s')
