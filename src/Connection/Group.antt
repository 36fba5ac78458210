-- ===== src/Connection/Group.antt =====
-- A transaction with all clients: `Server::runTransaction`, a round of every client's thread, one
-- after another, and `Transaction::waitForFinish`.
use mniam_headless.Base.{
  ℕ, suc, ◌+◌, ◌≡◌, refl, ap, sym, subst, ◌∙◌, true, false, Bool-cases, inl, inr, List, [], ◌∷◌,
  Option, some, Bool, if◌then◌else◌, arith, All,
}
use mniam_headless.Base.OrderedMap.{Ascends}
use mniam_headless.Connection.Requests.{Bytes}
use mniam_headless.Connection.Clients.{Client, Exchange, serve}
use mniam_headless.Connection.Transactions.{Store, Transaction, wait_for_finish}
use mniam_headless.Connection.Servers.{Server, run_transaction}
use mniam_headless.Connection.Exchanges.{succeeds}
use mniam_headless.Connection.Scheduling.{after_reset, after_reset-IsRun}
use mniam_headless.Connection.Runs.{IsStore, scheduled_cell}
use mniam_headless.Connection.Waiting.{answers, Distinct, wait_for_finish-answers}
use mniam_headless.Connection.Handing.{
  queued, addressed, Hold, addressed-active, addressed-inactive, schedule_all-Handed,
}
use mniam_headless.Connection.Rounds.{
  IsFree, Shared, addressed-Distinct, addressed_above, assign-Hold, keeps_all, successes, turns,
}
use mniam_headless.Connection.Turns.{Turned, after_turn, served, skipped, turned}

module _ {V : Type 0} (validator : ℕ → Bytes → V → V × Bool) (exchanges : ℕ → Exchange)
    (t : Transaction) where
  successes-active :
      (k : ℕ) (c : Client) (m : List (ℕ × Client)) (v : V)
      → c.active ≡ true
      → successes validator exchanges (scheduled_cell t) ((k, c) ∷ m) v
        ≡ (if succeeds validator (exchanges k) c (scheduled_cell t) v then 1 else 0)
          + successes validator exchanges
              (scheduled_cell t)
              m
              (served validator exchanges t k c v).2
  unfolding successes served
  successes-active k c m v on = simp on refl

  successes-inactive :
      (k : ℕ) (c : Client) (m : List (ℕ × Client)) (v : V)
      → c.active ≡ false
      → successes validator exchanges (scheduled_cell t) ((k, c) ∷ m) v
        ≡ successes validator exchanges (scheduled_cell t) m v
  unfolding successes
  successes-inactive k c m v off = ground arith

  pub keeps_all-active :
      (k : ℕ) (c : Client) (m : List (ℕ × Client)) (v : V)
      → c.active ≡ true
      → keeps_all validator exchanges (scheduled_cell t) ((k, c) ∷ m) v
        ≡ keeps_all validator exchanges
            (scheduled_cell t)
            m
            (serve validator (exchanges k) c (scheduled_cell t) v).2
  unfolding keeps_all
  keeps_all-active k c m v on = simp on refl

  pub keeps_all-inactive :
      (k : ℕ) (c : Client) (m : List (ℕ × Client)) (v : V)
      → c.active ≡ false
      → keeps_all validator exchanges (scheduled_cell t) ((k, c) ∷ m) v
        ≡ keeps_all validator exchanges (scheduled_cell t) m v
  unfolding keeps_all
  keeps_all-inactive k c m v off = simp off refl

  relabel :
      (m : List (ℕ × Client)) (n : ℕ) (s : Shared V) (o : Option (Shared V)) {i i' : ℕ} {v v' : V}
      → i ≡ i'
      → v ≡ v'
      → Turned m n i v s o
      → Turned m n i' v' s o
  relabel m n s o e e' h = record {
    after = h.after;
    result = h.result;
    old_cells = h.old_cells;
    count_right = h.count_right ∙ e;
    kept_right = h.kept_right ∙ e';
  }

  turns-Turned :
      (m : List (ℕ × Client)) (n : ℕ) (s : Shared V)
      → All (λ (e : ℕ × Client). IsFree e.1) m
      → Hold (scheduled_cell t) s.store.cells (addressed m n)
      → Turned m n
          (successes validator exchanges (scheduled_cell t) m s.kept)
          (keeps_all validator exchanges (scheduled_cell t) m s.kept)
          s
          (turns validator exchanges (queued m n) s)
  unfolding served after_turn
  turns-Turned [] n s free held = record {
    after = s;
    result = (unfold turns queued in refl);
    old_cells = λ a lt. refl;
    count_right = (unfold successes addressed answers in refl);
    kept_right = (unfold keeps_all in refl);
  }
  turns-Turned ((k, c) ∷ m) n s free held = elim (Bool-cases c.active) [
    | inl on ↦
        let (found, rest) : Hold (scheduled_cell t) s.store.cells ((k, n) ∷ addressed m (suc n)) =
          subst (Hold (scheduled_cell t) s.store.cells) (addressed-active k n c m on) held in
        let still : Hold (scheduled_cell t) (after_turn validator exchanges t k n c s).store.cells
            (addressed m (suc n)) =
          assign-Hold (scheduled_cell t) (scheduled_cell t)
            (served validator exchanges t k c s.kept).1 n s.store.cells (addressed m (suc n)) found
            (addressed_above m n (suc n) (omega arith)) rest in
        relabel ((k, c) ∷ m) n s _ (sym (successes-active k c m s.kept on))
          (sym (keeps_all-active k c m s.kept on))
          (turned validator exchanges t k n _ _ c m s on free.0 found
            (turns-Turned m (suc n) (after_turn validator exchanges t k n c s) free.1 still))
    | inr off ↦
        let rest =
          subst (Hold (scheduled_cell t) s.store.cells) (addressed-inactive k n c m off) held in
        relabel ((k, c) ∷ m) n s _ (sym (successes-inactive k c m s.kept off))
          (sym (keeps_all-inactive k c m s.kept off))
          (skipped validator exchanges t k n _ _ c m s off (turns-Turned m n s free.1 rest))
  ]

  -- The run of a transaction, and the rounds.
  pub run_transaction-turns :
      (v : Server) (s : Store) (kept : V)
      → Ascends 0 v.clients
      → IsStore s
      → All (λ (e : ℕ × Client). IsFree e.1) v.clients
      → let (v', r) = run_transaction v t s in
        (after : Shared V) × (turns validator exchanges v'.clients
            (record { store = r.store; kept = kept })
          ≡ some after)
        × ((wait_for_finish r.transaction after.store).1
            ≡ successes validator exchanges (scheduled_cell t) v.clients kept)
        × (after.kept ≡ keeps_all validator exchanges (scheduled_cell t) v.clients kept)
  unfolding run_transaction after_reset
  run_transaction-turns v s kept asc h free =
      let r = after_reset t s in
      let n = r.store.fresh in
      let handed = schedule_all-Handed 0 v.clients r asc (after_reset-IsRun t s h) in
      let final = (run_transaction v t s).1 in
      let rounds =
        turns-Turned v.clients n (record { store = final.store; kept = kept }) free handed.cells in
      let owners : final.transaction.client_transactions ≡ addressed v.clients n = handed.owners in
      (
        rounds.after,
        ap (λ l. turns validator exchanges l (record { store = final.store; kept = kept }))
              handed.clients
            ∙ rounds.result,
        wait_for_finish-answers final.transaction rounds.after.store
              (subst Distinct (sym owners) (addressed-Distinct v.clients n))
            ∙ ap (λ l. answers l rounds.after.store.cells) owners
            ∙ rounds.count_right,
        rounds.kept_right,
      )

  -- With the clients in ascending order of their ids, the cells of memory below the next address, and
  -- every active client free for work: after a transaction is run with the server's clients, the rounds
  -- of their threads, one after another, have a result, and then a wait for the transaction counts
  -- exactly the active clients that succeed with it.
  pub run_transaction-successes :
      (v : Server) (s : Store) (kept : V)
      → Ascends 0 v.clients
      → IsStore s
      → All (λ (e : ℕ × Client). IsFree e.1) v.clients
      → let (v', r) = run_transaction v t s in
        (after : Shared V) × (turns validator exchanges v'.clients
            (record { store = r.store; kept = kept })
          ≡ some after)
        × ((wait_for_finish r.transaction after.store).1
            ≡ successes validator exchanges (scheduled_cell t) v.clients kept)
  run_transaction-successes v s kept asc h free =
      let (after, result, count, _) = run_transaction-turns v s kept asc h free in
      (after, result, count)
