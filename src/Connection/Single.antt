-- ===== src/Connection/Single.antt =====
-- A transaction with one client: `Server::runTransactionWithSingleClient`, the round of the client's
-- thread, and `Transaction::waitForFinish`.
use mniam_headless.Base.{
  ℕ, ◌≡◌, refl, ap, sym, subst, ◌∙◌, Bool, true, false, not, ◌&&◌, Bool-cases, inl, inr, [], ◌∷◌,
  ◌++◌, some, if◌then◌else◌, arith,
}
use mniam_headless.Base.OrderedMap.{find, emplace, find-assign}
use mniam_headless.Connection.Requests.{Bytes}
use mniam_headless.Connection.Clients.{Client, Exchange}
use mniam_headless.Connection.Transactions.{Store, Transaction, wait_for_finish}
use mniam_headless.Connection.Servers.{
  Server, Run, returned, see_to, run_with_client, run_transaction_with_single_client,
}
use mniam_headless.Connection.Thread.{Session}
use mniam_headless.Connection.Exchanges.{succeeds, hangs_up}
use mniam_headless.Connection.Scheduling.{after_reset, after_reset-IsRun}
use mniam_headless.Connection.Runs.{
  IsStore, scheduled_cell, run_after, see_to_active, see_to_inactive, find-run_after,
  run_after-IsRun,
}
use mniam_headless.Connection.Waiting.{answers, wait_for_finish-answers}
use mniam_headless.Connection.Rounds.{is_listening, IsReady}
use mniam_headless.Connection.Talking.{thread_writes, round_of}
use mniam_headless.Connection.Sitting.{inactive-Sat, active-Sat}

module _ {V : Type 0} (validator : ℕ → Bytes → V → V × Bool) (x : Exchange) where
  -- What the transaction comes to with the client `c`, when its run has left the client and `r`.
  pub record Concluded (c : Client) (t : Transaction) (kept : V) (c' : Client) (r : Run)
      : Type 0 where
    pub after : Session V
    pub result :
        round_of validator x (record { client = c'; store = r.store; kept = kept }) ≡ some after
    pub counted :
        (wait_for_finish r.transaction after.store).1
        ≡ (if is_listening c && succeeds validator x c (scheduled_cell t) kept then 1 else 0)
    pub writes :
        thread_writes (record { client = c'; store = r.store; kept = kept })
        ≡ (if is_listening c then t.request ∷ [] else [])
    pub listens :
        is_listening after.client
        ≡ (is_listening c && not (hangs_up validator x c (scheduled_cell t) kept))
    pub same_id : after.client.client_id ≡ c.client_id
    pub is_ready : IsReady after.client
    pub is_store : IsStore after.store

  active-Concluded :
      (k : ℕ) (c : Client) (t : Transaction) (s : Store) (kept : V)
      → IsStore s
      → c.active ≡ true
      → IsReady c
      → let r = after_reset t s in
        Concluded c t kept
          (record c { transactions = c.transactions ++ r.store.fresh ∷ [] })
          (run_after k r)
  unfolding after_reset emplace answers
  active-Concluded k c t s kept h on ready =
      let r = after_reset t s in
      let n = r.store.fresh in
      let r' = run_after k r in
      let run = after_reset-IsRun t s h in
      let found : find n r'.store.cells ≡ some (scheduled_cell t) =
        find-run_after n k 0 r run ∙ ground arith in
      let sat =
        active-Sat validator t c x n r'.store kept
          (run_after-IsRun k 0 r (omega arith) run).is_store ready on found in
      record {
        after = sat.after;
        result = sat.result;
        counted =
            wait_for_finish-answers r'.transaction sat.after.store (tt, tt)
            ∙ omega (arith, sat.counted on);
        writes = sat.writes;
        listens = sat.listens;
        same_id = sat.same_id;
        is_ready = sat.is_ready;
        is_store = sat.is_store;
      }

  inactive-Concluded :
      (c : Client) (t : Transaction) (s : Store) (kept : V)
      → IsStore s
      → c.active ≡ false
      → Concluded c t kept c (after_reset t s)
  unfolding after_reset answers
  inactive-Concluded c t s kept h off =
      let r = after_reset t s in
      let sat =
        inactive-Sat validator t c x 0 r.store kept (after_reset-IsRun t s h).is_store off in
      record {
        after = sat.after;
        result = sat.result;
        counted =
            wait_for_finish-answers r.transaction sat.after.store tt
            ∙ ap
                (λ b.
                  if b && not c.stop_requested && succeeds validator x c (scheduled_cell t) kept
                  then 1
                  else 0)
                (sym off);
        writes = sat.writes;
        listens = sat.listens;
        same_id = sat.same_id;
        is_ready = sat.is_ready;
        is_store = sat.is_store;
      }

  pub see_to-Concluded :
      (k : ℕ) (c : Client) (t : Transaction) (s : Store) (kept : V)
      → IsStore s
      → IsReady c
      → let (c', r) = see_to k c (after_reset t s) in Concluded c t kept c' r
  see_to-Concluded k c t s kept h ready = elim (Bool-cases c.active) [
    | inl on ↦
        subst (λ p. Concluded c t kept p.0 p.1) (sym (see_to_active k c (after_reset t s) on))
          (active-Concluded k c t s kept h on ready)
    | inr off ↦
        subst (λ p. Concluded c t kept p.0 p.1) (sym (see_to_inactive k c (after_reset t s) off))
          (inactive-Concluded c t s kept h off)
  ]

  -- With the cells of memory below the next address, and a client under an id that has an empty queue if
  -- its thread goes on: a transaction with this client alone returns, and after a round of the client's
  -- thread a wait for it gives 1 if the thread goes on and the client succeeds with it, and 0 otherwise.
  pub run_single-Concluded :
      (v : Server) (k : ℕ) (c : Client) (t : Transaction) (s : Store) (kept : V)
      → IsStore s
      → find k v.clients ≡ some c
      → IsReady c
      → let (v', r, outcome) = run_transaction_with_single_client k v t s in
        (c' : Client) × (outcome ≡ returned)
        × (find k v'.clients ≡ some c')
        × Concluded c t kept c' r
  unfolding run_transaction_with_single_client after_reset
  run_single-Concluded v k c t s kept h found ready =
      subst
        (λ o.
          let (v', r, outcome) = run_with_client o k v (after_reset t s) in
          (c' : Client) × (outcome ≡ returned)
          × (find k v'.clients ≡ some c')
          × Concluded c t kept c' r)
        (sym found)
        (unfold run_with_client in
          (
            (see_to c.client_id c (after_reset t s)).0,
            refl,
            find-assign k k (see_to c.client_id c (after_reset t s)).0 c v.clients found
                ∙ ground arith,
            see_to-Concluded c.client_id c t s kept h ready,
          ))
