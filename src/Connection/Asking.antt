-- ===== src/Connection/Asking.antt =====
-- One client is asked, and its answer waited for: `Server::runTransactionWithSingleClient`, the round
-- of the client's thread, which comes before the wait ends, `Transaction::waitForFinish`, and the end
-- of the transaction's life.
use mniam_headless.Base.{
  ℕ, ◌≡◌, ◌≢◌, refl, ap, sym, subst, ◌∙◌, Bool, not, ◌&&◌, Bool-cases, inl, inr, List, [], ◌∷◌,
  Option, none, some, if◌then◌else◌, arith, All, ◌==◌,
}
use mniam_headless.Base.OrderedMap.{find, assign, find-assign, assign-Ascends, assign-Below}
use mniam_headless.Connection.Requests.{Bytes, ClientTransaction, wait_until}
use mniam_headless.Connection.Clients.{Client, Exchange}
use mniam_headless.Connection.Transactions.{
  Store, Transaction, reset, wait_cell, wait_all, wait_for_finish,
}
use mniam_headless.Connection.Servers.{
  Server, Run, returned, see_to, run_with_client, run_transaction_with_single_client,
}
use mniam_headless.Connection.Thread.{Session, thread_step}
use mniam_headless.Connection.Exchanges.{succeeds, hangs_up}
use mniam_headless.Connection.Scheduling.{after_reset, after_reset-IsRun}
use mniam_headless.Connection.Runs.{IsStore, scheduled_cell}
use mniam_headless.Connection.Rounds.{is_listening, IsReady, names}
use mniam_headless.Connection.Talking.{thread_writes, round_of}
use mniam_headless.Connection.Single.{Concluded, see_to-Concluded}

-- What is there after a client was asked; `count` is what the wait gave, `writes` what the client's
-- socket was handed.
pub record Asked (V : Type 0) : Type 0 where
  pub server : Server
  pub store : Store
  pub kept : V
  pub count : ℕ
  pub writes : List Bytes

module _ {V : Type 0} where
  unfoldable pub wait_and_end :
      ℕ → Server → Run → List Bytes → Option (Session V) → Option (Asked V)
  unfolding wait_for_finish reset
  wait_and_end k v r writes none = none
  wait_and_end k v r writes (some after) =
      let (s, n) = wait_for_finish r.transaction after.store in
      some (record {
        server = record v { clients = assign k after.client v.clients };
        store = (reset r.transaction s).1;
        kept = after.kept;
        count = n;
        writes = writes;
      })

module _ {V : Type 0} (validator : ℕ → Bytes → V → V × Bool) (x : Exchange) where
  -- `none`: no client has the id, or its thread uses a client transaction that no longer exists.
  unfoldable pub hear : ℕ → Server → Run → V → Option Client → Option (Asked V)
  unfolding thread_step wait_and_end thread_writes
  hear k v r kept none = none
  hear k v r kept (some c) =
      let session : Session V = record { client = c; store = r.store; kept = kept } in
      wait_and_end k v r (thread_writes session) (round_of validator x session)

  unfoldable pub ask : ℕ → Server → Transaction → Store → V → Option (Asked V)
  unfolding run_transaction_with_single_client hear
  ask k v t s kept =
      let (v', r, outcome) = run_transaction_with_single_client k v t s in
      hear k v' r kept (find k v'.clients)

wait_cell-IsStore :
    (o : Option ClientTransaction) (a : ℕ) (s : Store) → IsStore s → IsStore (wait_cell o a s).0
unfolding wait_cell
wait_cell-IsStore none a s h = h
wait_cell-IsStore (some c) a s h = record {
  cells_ascend = assign-Ascends a 0 (wait_until c).0 s.cells h.cells_ascend;
  cells_below = assign-Below a s.fresh (wait_until c).0 s.cells h.cells_below;
}

pub wait_all-IsStore : (m : List (ℕ × ℕ)) (s : Store) → IsStore s → IsStore (wait_all m s).0
unfolding wait_all
wait_all-IsStore [] s h = h
wait_all-IsStore ((k, a) ∷ m) s h =
    wait_all-IsStore m (wait_cell (find a s.cells) a s).0 (wait_cell-IsStore (find a s.cells) a s h)

pub reset-IsStore : (t : Transaction) (s : Store) → IsStore s → IsStore (reset t s).1
reset-IsStore t s h = unfold after_reset in (after_reset-IsRun t s h).is_store

-- A client that takes the place of another with its id.
assign_twice-names :
    (k : ℕ) (d c e : Client) (m : List (ℕ × Client))
    → find k m ≡ some e
    → d.client_id ≡ e.client_id
    → names (assign k d (assign k c m)) ≡ names m
unfolding assign find
assign_twice-names k d c e [] found same = refl
assign_twice-names k d c e ((j, b) ∷ m) found same = elim (Bool-cases (j == k)) [
  | inl hit ↦
      let here : b ≡ e = ground arith in
      rw (hit, hit)
        (ap (λ i. (j, i) ∷ names m) (same ∙ ap (λ (a : Client). a.client_id) (sym here)))
  | inr miss ↦
      let there : find k m ≡ some e = ground arith in
      rw (miss, miss) (ap (◌∷◌ (j, b.client_id)) (assign_twice-names k d c e m there same))
]

-- The client that is written last is ready, whatever was written before it.
assign_twice-IsReady :
    (k : ℕ) (d c : Client) (m : List (ℕ × Client))
    → IsReady d
    → All (λ e. IsReady e.1) m
    → All (λ e. IsReady e.1) (assign k d (assign k c m))
unfolding assign
assign_twice-IsReady k d c [] now ready = tt
assign_twice-IsReady k d c ((j, e) ∷ m) now ready = elim (Bool-cases (j == k)) [
  | inl hit ↦ rw (hit, hit) (now, ready.1)
  | inr miss ↦ rw (miss, miss) (ready.0, assign_twice-IsReady k d c m now ready.1)
]

module _ {V : Type 0} (validator : ℕ → Bytes → V → V × Bool) (x : Exchange) where
  single-eq :
      (k : ℕ) (v : Server) (c : Client) (t : Transaction) (s : Store)
      → find k v.clients ≡ some c
      → let (c', r) = see_to c.client_id c (after_reset t s) in
        run_transaction_with_single_client k v t s
        ≡ (record v { clients = assign k c' v.clients }, r, returned)
  unfolding run_transaction_with_single_client after_reset
  single-eq k v c t s found =
      ap (λ o. run_with_client o k v (after_reset t s)) found ∙ (unfold run_with_client in refl)

  -- What the asking of the client `c` under the id `k` comes to.
  pub record Answered (k : ℕ) (v : Server) (c : Client) (t : Transaction) (kept : V)
      (o : Option (Asked V)) : Type 0 where
    pub after : Asked V
    pub result : o ≡ some after
    pub counted :
        after.count
        ≡ (if is_listening c && succeeds validator x c (scheduled_cell t) kept then 1 else 0)
    pub writes_right : after.writes ≡ (if is_listening c then t.request ∷ [] else [])
    pub listens :
        (d : Client) × (find k after.server.clients ≡ some d)
        × (is_listening d
            ≡ (is_listening c && not (hangs_up validator x c (scheduled_cell t) kept)))
    pub others : (j : ℕ) → j ≢ k → find j after.server.clients ≡ find j v.clients
    pub same_names : names after.server.clients ≡ names v.clients
    pub are_ready : All (λ e. IsReady e.1) v.clients → All (λ e. IsReady e.1) after.server.clients
    pub is_store : IsStore after.store

  hear-Answered :
      (k : ℕ) (v : Server) (c c' : Client) (t : Transaction) (r : Run) (kept : V)
      → find k v.clients ≡ some c
      → Concluded validator x c t kept c' r
      → Answered k v c t kept (
          hear validator x k
            (record v { clients = assign k c' v.clients })
            r
            kept
            (find k (assign k c' v.clients)))
  unfolding hear wait_and_end wait_for_finish
  hear-Answered k v c c' t r kept found done =
      let first : find k (assign k c' v.clients) ≡ some c' =
        find-assign k k c' c v.clients found ∙ ground arith in
      let (s, n) = wait_for_finish r.transaction done.after.store in
      let v' : Server = record v { clients = assign k c' v.clients } in
      record {
        after = record {
          server = record v { clients = assign k done.after.client (assign k c' v.clients) };
          store = (reset r.transaction s).1;
          kept = done.after.kept;
          count = n;
          writes = thread_writes (record { client = c'; store = r.store; kept = kept });
        };
        result =
            ap (λ o. hear validator x k v' r kept o) first
            ∙ ap
                (wait_and_end k v' r
                  (thread_writes (record { client = c'; store = r.store; kept = kept })))
                done.result;
        counted = done.counted;
        writes_right = done.writes;
        listens = (
          done.after.client,
          find-assign k k done.after.client c' (assign k c' v.clients) first ∙ ground arith,
          done.listens,
        );
        others = λ j ne.
            find-assign j k done.after.client c' (assign k c' v.clients) first
            ∙ ground (arith, find-assign j k c' c v.clients found);
        same_names = assign_twice-names k done.after.client c' c v.clients found done.same_id;
        are_ready =
            λ ready. assign_twice-IsReady k done.after.client c' v.clients done.is_ready ready;
        is_store =
            reset-IsStore r.transaction s
              (wait_all-IsStore r.transaction.client_transactions done.after.store done.is_store);
      }

  -- The asking of a client that has an empty queue, if its thread goes on, has a result.
  pub ask-Answered :
      (k : ℕ) (v : Server) (c : Client) (t : Transaction) (s : Store) (kept : V)
      → find k v.clients ≡ some c
      → IsReady c
      → IsStore s
      → Answered k v c t kept (ask validator x k v t s kept)
  unfolding ask hear
  ask-Answered k v c t s kept found ready h =
      let (c', r) = see_to c.client_id c (after_reset t s) in
      subst (λ o. Answered k v c t kept (hear validator x k o.0 o.1 kept (find k o.0.clients)))
        (sym (single-eq k v c t s found))
        (hear-Answered k v c c' t r kept found
          (see_to-Concluded validator x c.client_id c t s kept h ready))
