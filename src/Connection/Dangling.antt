-- ===== src/Connection/Dangling.antt =====
-- When the references in the clients' queues are good, and how one comes to dangle.
use mniam_headless.Base.{
  ℕ, suc, ◌<◌, ◌≡◌, ◌∙◌, ap, Bool, true, false, Bool-cases, inl, inr, List, [], ◌∷◌, ◌++◌, none,
  some, arith, All-append,
}
use mniam_headless.Base.OrderedMap.{find, Ascends}
use mniam_headless.Connection.Requests.{Bytes}
use mniam_headless.Connection.Clients.{Client, Exchange}
use mniam_headless.Connection.Transactions.{Store, Transaction}
use mniam_headless.Connection.Servers.{Server, Run, schedule_all, run_transaction}
use mniam_headless.Connection.Thread.{Session, serve_at, serve_queue, thread_step}
use mniam_headless.Connection.Scheduling.{after_reset, after_reset-IsRun, run_transaction-schedules}
use mniam_headless.Connection.Runs.{
  IsStore, IsRun, run_after, run_after-IsRun, skip-IsRun, find-run_after, schedule_all-Looped,
  schedule_all-cons, see_to_active, see_to_inactive, scheduled_cell,
}
use mniam_headless.Connection.References.{
  All-imp, IsLive, Looped-IsLive, QueuesApart, QueuesLive, QueuesLive-imp, find-free_all_owned,
  freed-QueuesLive, run_after-IsLive,
}

schedule_all-QueuesLive :
    (b : ℕ) (m : List (ℕ × Client)) (r : Run)
    → Ascends b m
    → IsRun b r
    → QueuesLive r.store.cells m
    → QueuesLive (schedule_all m r).1.store.cells (schedule_all m r).0
schedule_all-QueuesLive b [] r s h live = unfold schedule_all in tt
schedule_all-QueuesLive b ((k, c) ∷ m) r s h live = elim (Bool-cases c.active) [
  | inl on ↦
      let next = run_after-IsRun k b r s.0 h in
      let loop = schedule_all-Looped (suc k) m (run_after k r) s.1 next in
      let now = run_after-IsLive k b r h in
      let later = Looped-IsLive (suc k) (run_after k r) _ next loop in
      let new : IsLive (run_after k r).store.cells r.store.fresh =
        (scheduled_cell r.transaction, ground (arith, find-run_after r.store.fresh k b r h)) in
      rw (schedule_all-cons k c _ m r _ (see_to_active k c r on)) (
        All-append _ c.transactions (r.store.fresh ∷ [])
            (All-imp c.transactions (λ a l. later a (now a l)) live.0)
            (later r.store.fresh new, tt),
        schedule_all-QueuesLive (suc k) m (run_after k r) s.1 next
            (QueuesLive-imp r.store.cells (run_after k r).store.cells m now live.1),
      )
  | inr off ↦
      let next = skip-IsRun k b r s.0 h in
      let loop = schedule_all-Looped (suc k) m r s.1 next in
      rw (schedule_all-cons k c _ m r _ (see_to_inactive k c r off)) (
        All-imp c.transactions (Looped-IsLive (suc k) r _ next loop) live.0,
        schedule_all-QueuesLive (suc k) m r s.1 next live.1,
      )
]

-- If the clients are in ascending order of their ids and the cells of memory lie below the next
-- address, if every reference in the clients' queues is good, and none of them is to a client
-- transaction of this transaction, then every reference in the queues is good after the transaction is run.
pub run_transaction-QueuesLive :
    (v : Server) (t : Transaction) (s : Store)
    → Ascends 0 v.clients
    → IsStore s
    → QueuesApart t.client_transactions v.clients
    → QueuesLive s.cells v.clients
    → let (v', r) = run_transaction v t s in QueuesLive r.store.cells v'.clients
unfolding run_transaction after_reset
run_transaction-QueuesLive v t s a h apart live =
    schedule_all-QueuesLive 0 v.clients (after_reset t s) a (after_reset-IsRun t s h)
      (freed-QueuesLive s t.client_transactions v.clients h apart live)

module _ {V : Type 0} (validator : ℕ → Bytes → V → V × Bool) where
  pub thread_on :
      (now : ℕ) (x : Exchange) (s : Session V)
      → s.client.stop_requested ≡ false
      → thread_step validator now x s ≡ serve_queue validator x s.client.transactions s
  unfolding thread_step
  thread_on now x s on = ground arith

  thread_dangles :
      (now : ℕ) (x : Exchange) (s : Session V) (a : ℕ) (rest : List ℕ)
      → s.client.stop_requested ≡ false
      → s.client.transactions ≡ a ∷ rest
      → find a s.store.cells ≡ none
      → thread_step validator now x s ≡ none
  unfolding serve_queue
  thread_dangles now x s a rest on queue gone =
      thread_on now x s on
      ∙ ap (λ q. serve_queue validator x q s) queue
      ∙ ap
          (λ o.
            serve_at validator x a o
              (record s { client = record s.client { transactions = rest } }))
          gone

-- With the clients in ascending order of their ids and the cells of memory below the next address,
-- a transaction that is run again, while the next reference in the queue of an active client,
-- whose thread is not asked to stop, is to a client transaction of its last run, leaves that
-- reference dangling: the client's thread then uses a client transaction that no longer exists.
pub run_again-dangles :
    {V : Type 0} (validator : ℕ → Bytes → V → V × Bool) (v : Server) (t : Transaction) (s : Store)
    (k a : ℕ) (c : Client) (rest : List ℕ)
    → Ascends 0 v.clients
    → IsStore s
    → find k v.clients ≡ some c
    → c.active ≡ true
    → c.stop_requested ≡ false
    → c.transactions ≡ a ∷ rest
    → find k t.client_transactions ≡ some a
    → a < s.fresh
    → let (v', r) = run_transaction v t s in
      (c' : Client) × (find k v'.clients ≡ some c')
      × ((now : ℕ) (x : Exchange) (kept : V)
          → thread_step validator now x (record { client = c'; store = r.store; kept = kept })
            ≡ none)
unfolding run_transaction after_reset
run_again-dangles validator v t s k a c rest asc h found on stop queue owned old =
    let i = run_transaction-schedules v t s k c asc h found on in
    let loop = schedule_all-Looped 0 v.clients (after_reset t s) asc (after_reset-IsRun t s h) in
    (
      record c { transactions = c.transactions ++ i.0 ∷ [] },
      i.1,
      λ now x kept.
          thread_dangles validator now x _ a (rest ++ i.0 ∷ []) stop (ap (λ q. q ++ i.0 ∷ []) queue)
            (loop.old_cells a old
              ∙ find-free_all_owned k a t.client_transactions s.cells h.cells_ascend owned),
    )
