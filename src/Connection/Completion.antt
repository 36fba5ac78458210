-- ===== src/Connection/Completion.antt =====
-- A transaction from its run through the round of a client's thread.
use mniam_headless.Base.{
  ℕ, ◌≡◌, refl, ap, ◌∙◌, Bool, true, false, [], ◌∷◌, ◌++◌, some, if◌then◌else◌, arith,
}
use mniam_headless.Base.OrderedMap.{find, assign, Ascends, find-assign}
use mniam_headless.Connection.Requests.{Bytes, ClientTransaction, done, timeout}
use mniam_headless.Connection.Clients.{Client, Exchange, serve}
use mniam_headless.Connection.Transactions.{Store, Transaction}
use mniam_headless.Connection.Servers.{Server, run_transaction}
use mniam_headless.Connection.Thread.{Session, serve_at, serve_queue, thread_step}
use mniam_headless.Connection.Exchanges.{succeeds, serve_outcome}
use mniam_headless.Connection.Scheduling.{run_transaction-schedules}
use mniam_headless.Connection.Runs.{IsStore, scheduled_cell}
use mniam_headless.Connection.Waiting.{answered}
use mniam_headless.Connection.Dangling.{thread_on}

pub answered_if :
    (t : ClientTransaction) (b : Bool)
    → t.state ≡ (if b then done else timeout)
    → t.signal ≡ true
    → answered (some t) ≡ (if b then 1 else 0)
answered_if t true e on = rw (on, e)
answered_if t false e on = rw (on, e)

module _ {V : Type 0} (validator : ℕ → Bytes → V → V × Bool) where
  -- The round of a thread whose queue holds one reference, to a cell.
  pub thread_step-one :
      (now : ℕ) (x : Exchange) (s : Session V) (a : ℕ) (t : ClientTransaction)
      → s.client.stop_requested ≡ false
      → s.client.transactions ≡ a ∷ []
      → find a s.store.cells ≡ some t
      → thread_step validator now x s
        ≡ serve_at validator x a
            (some t)
            (record s { client = record s.client { transactions = [] } })
  unfolding thread_step serve_queue
  thread_step-one now x s a t on queue found =
      thread_on validator now x s on
      ∙ ap (λ q. serve_queue validator x q s) queue
      ∙ ap
          (λ o.
            serve_at validator x a o (record s { client = record s.client { transactions = [] } }))
          found

  -- If the clients are in ascending order of their ids and the cells of memory lie below the next
  -- address, then after a transaction is run, the next round of the thread of an active client, whose
  -- queue was empty and whose thread is not asked to stop, ends the client's transaction: a wait counts
  -- it exactly if the request is sent and, where a response is expected, a valid one is read.
  pub run_transaction-serves :
      (v : Server) (t : Transaction) (s : Store) (k : ℕ) (c : Client) (now : ℕ) (x : Exchange)
      (kept : V)
      → Ascends 0 v.clients
      → IsStore s
      → find k v.clients ≡ some c
      → c.active ≡ true
      → c.stop_requested ≡ false
      → c.transactions ≡ []
      → let (v', r) = run_transaction v t s in
        (address : ℕ) × (c' : Client) × (s' : Session V) × (find k r.transaction.client_transactions
          ≡ some address)
        × (find k v'.clients ≡ some c')
        × (thread_step validator now x (record { client = c'; store = r.store; kept = kept })
            ≡ some s')
        × (answered (find address s'.store.cells)
            ≡ (if succeeds validator x c (scheduled_cell t) kept then 1 else 0))
  run_transaction-serves v t s k c now x kept asc h found on open_now empty =
      let (address, client_found, owner, fresh, cell_found) =
        run_transaction-schedules v t s k c asc h found on in
      let r = (run_transaction v t s).1 in
      let c' : Client = record c { transactions = c.transactions ++ address ∷ [] } in
      let c0 : Client = record c { transactions = [] } in
      let served = serve validator x c0 (scheduled_cell t) kept in
      let outcome = serve_outcome validator x c0 (scheduled_cell t) kept refl in
      let cells = assign address served.1 r.store.cells in
      let written : find address cells ≡ some served.1 =
        find-assign address address served.1 (scheduled_cell t) r.store.cells cell_found
        ∙ ground arith in
      (
        address,
        c',
        record { client = served.0; store = record r.store { cells = cells }; kept = served.2 },
        owner,
        client_found,
        thread_step-one now x (record { client = c'; store = r.store; kept = kept }) address
              (scheduled_cell t) open_now (ap (λ q. q ++ address ∷ []) empty) cell_found
            ∙ (unfold serve_at in refl),
        ap answered written
            ∙ answered_if served.1 (succeeds validator x c (scheduled_cell t) kept) outcome.0
                outcome.1,
      )
