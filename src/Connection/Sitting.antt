-- ===== src/Connection/Sitting.antt =====
-- The round of one client's thread after a transaction was run: what its socket is handed, whether it
-- goes on, and what the wait for it counts.
use mniam_headless.Base.{
  ℕ, ◌≡◌, ◌≢◌, refl, ap, subst, ◌∙◌, Bool, true, false, not, ◌&&◌, Bool-cases, inl, inr, List, [],
  ◌∷◌, ◌++◌, Option, none, some, if◌then◌else◌, arith,
}
use mniam_headless.Base.OrderedMap.{find, assign, find-assign, assign-Ascends, assign-Below}
use mniam_headless.Connection.Requests.{Bytes, ClientTransaction, new_client_transaction}
use mniam_headless.Connection.Clients.{Client, Exchange, serve, close_connection}
use mniam_headless.Connection.Transactions.{Store, Transaction}
use mniam_headless.Connection.Thread.{Session, serve_at, serve_queue, thread_step}
use mniam_headless.Connection.Exchanges.{succeeds, hangs_up, serve_outcome}
use mniam_headless.Connection.Runs.{IsStore, scheduled_cell}
use mniam_headless.Connection.Completion.{thread_step-one, answered_if}
use mniam_headless.Connection.Waiting.{answered}
use mniam_headless.Connection.Rounds.{is_listening, IsReady}
use mniam_headless.Connection.Talking.{queue_writes, cell_writes, thread_writes, round_of}

module _ {V : Type 0} (validator : ℕ → Bytes → V → V × Bool) (x : Exchange) where
  abbrev pub StoreKept : Option (Session V) → Type 0
  StoreKept none = Unit {0}
  StoreKept (some s) = IsStore s.store

  serve_at-StoreKept :
      (a : ℕ) (o : Option ClientTransaction) (s : Session V)
      → IsStore s.store
      → StoreKept (serve_at validator x a o s)
  unfolding serve_at
  serve_at-StoreKept a none s h = tt
  serve_at-StoreKept a (some t) s h = record {
    cells_ascend = assign-Ascends a 0 _ s.store.cells h.cells_ascend;
    cells_below = assign-Below a s.store.fresh _ s.store.cells h.cells_below;
  }

  serve_queue-StoreKept :
      (q : List ℕ) (s : Session V) → IsStore s.store → StoreKept (serve_queue validator x q s)
  unfolding serve_queue
  serve_queue-StoreKept [] s h = h
  serve_queue-StoreKept (a ∷ rest) s h = serve_at-StoreKept a (find a s.store.cells) _ h

  if-StoreKept :
      (b : Bool) (o o' : Option (Session V))
      → StoreKept o
      → StoreKept o'
      → StoreKept (if b then o else o')
  if-StoreKept true o o' h h' = h
  if-StoreKept false o o' h h' = h'

  pub thread_step-StoreKept :
      (now : ℕ) (s : Session V) → IsStore s.store → StoreKept (thread_step validator now x s)
  unfolding thread_step
  thread_step-StoreKept now s h =
      if-StoreKept s.client.stop_requested _ _ h (serve_queue-StoreKept s.client.transactions s h)

module _ {V : Type 0} (validator : ℕ → Bytes → V → V × Bool) (t : Transaction) where
  serve-transactions :
      (x : Exchange) (c : Client) (v : V)
      → (serve validator x c (scheduled_cell t) v).0.transactions ≡ c.transactions
  unfolding serve
  serve-transactions x c v = ground arith

  serve-client_id :
      (x : Exchange) (c : Client) (v : V)
      → (serve validator x c (scheduled_cell t) v).0.client_id ≡ c.client_id
  unfolding serve
  serve-client_id x c v = ground arith

  -- What is kept depends on the client's id alone.
  pub serve-kept_same :
      (x : Exchange) (c : Client) (b : Bool) (q : List ℕ) (v : V)
      → (serve validator x (record c { active = b; transactions = q }) (scheduled_cell t) v).2
        ≡ (serve validator x c (scheduled_cell t) v).2
  unfolding serve
  serve-kept_same x c b q v = ground arith

  serve_listening :
      (x : Exchange) (c : Client) (v : V)
      → c.active ≡ true
      → c.stop_requested ≡ false
      → is_listening (serve validator x c (scheduled_cell t) v).0
        ≡ not (hangs_up validator x c (scheduled_cell t) v)
  unfolding serve new_client_transaction
  serve_listening x c v on going = ground arith

  scheduled_writes : cell_writes (some (scheduled_cell t)) ≡ t.request ∷ []
  unfolding new_client_transaction
  scheduled_writes = refl

  pub inactive-IsReady : (c : Client) → c.active ≡ false → IsReady c
  inactive-IsReady c off on = ground arith

  -- What the round of one client comes to, when its session is `s`.
  pub record Sat (c : Client) (x : Exchange) (a : ℕ) (s : Session V) : Type 0 where
    pub after : Session V
    pub result : round_of validator x s ≡ some after
    pub writes : thread_writes s ≡ (if is_listening c then t.request ∷ [] else [])
    pub listens :
        is_listening after.client
        ≡ (is_listening c && not (hangs_up validator x c (scheduled_cell t) s.kept))
    pub same_id : after.client.client_id ≡ c.client_id
    pub keeps :
        after.kept
        ≡ (if is_listening c then (serve validator x c (scheduled_cell t) s.kept).2 else s.kept)
    pub is_ready : IsReady after.client
    pub is_store : IsStore after.store
    pub counted :
        c.active ≡ true
        → answered (find a after.store.cells)
          ≡ (if is_listening c && succeeds validator x c (scheduled_cell t) s.kept then 1 else 0)
    pub others : (b : ℕ) → b ≢ a → find b after.store.cells ≡ find b s.store.cells

  unfoldable pub inactive-Sat :
      (c : Client) (x : Exchange) (a : ℕ) (s : Store) (kept : V)
      → IsStore s
      → c.active ≡ false
      → Sat c x a (record { client = c; store = s; kept = kept })
  unfolding thread_writes
  inactive-Sat c x a s kept h off = record {
    after = record { client = c; store = s; kept = kept };
    result = simp off refl;
    writes = simp off refl;
    listens = simp off refl;
    same_id = refl;
    keeps = simp off refl;
    is_ready = inactive-IsReady c off;
    is_store = h;
    counted = λ on. cc (on, off);
    others = λ b ne. refl;
  }

  stopping-Sat :
      (c : Client) (x : Exchange) (a : ℕ) (q : List ℕ) (s : Store) (kept : V)
      → IsStore s
      → c.active ≡ true
      → c.stop_requested ≡ true
      → find a s.cells ≡ some (scheduled_cell t)
      → Sat c x a (record { client = record c { transactions = q }; store = s; kept = kept })
  unfolding thread_writes thread_step close_connection new_client_transaction
  stopping-Sat c x a q s kept h on stop found = record {
    after = record {
      client = close_connection x.received_at (record c { transactions = q });
      store = s;
      kept = kept;
    };
    result = simp (on, stop) refl;
    writes = simp (on, stop) refl;
    listens = simp (on, stop) refl;
    same_id = refl;
    keeps = simp (on, stop) refl;
    is_ready = λ e. cc e;
    is_store = h;
    counted = λ still. ap answered found ∙ simp (on, stop) refl;
    others = λ b ne. refl;
  }

  listening-Sat :
      (c : Client) (x : Exchange) (a : ℕ) (s : Store) (kept : V)
      → IsStore s
      → c.active ≡ true
      → c.stop_requested ≡ false
      → c.transactions ≡ []
      → find a s.cells ≡ some (scheduled_cell t)
      → Sat c x a (record {
        client = record c { transactions = c.transactions ++ a ∷ [] };
        store = s;
        kept = kept;
      })
  unfolding thread_writes
  listening-Sat c x a s kept h on going empty found =
      let queue : c.transactions ++ a ∷ [] ≡ a ∷ [] = ap (λ q. q ++ a ∷ []) empty in
      let session : Session V = record {
        client = record c { transactions = c.transactions ++ a ∷ [] };
        store = s;
        kept = kept;
      } in
      let c0 : Client = record c { transactions = [] } in
      let served = serve validator x c0 (scheduled_cell t) kept in
      let outcome = serve_outcome validator x c0 (scheduled_cell t) kept refl in
      let written : find a (assign a served.1 s.cells) ≡ some served.1 =
        find-assign a a served.1 (scheduled_cell t) s.cells found ∙ ground arith in
      let after : Session V = record {
        client = served.0;
        store = record s { cells = assign a served.1 s.cells };
        kept = served.2;
      } in
      let step : thread_step validator x.received_at x session ≡ some after =
        thread_step-one validator x.received_at x session a (scheduled_cell t) going queue found
        ∙ (unfold serve_at in refl) in
      record {
        after = after;
        result =
            ap (λ b. if b then thread_step validator x.received_at x session else some session) on
            ∙ step;
        writes =
            simp (on, going)
              (ap (λ q. queue_writes q s.cells) queue ∙ ap cell_writes found ∙ scheduled_writes);
        listens = serve_listening x c0 kept on going ∙ simp (on, going) refl;
        same_id = serve-client_id x c0 kept;
        keeps = serve-kept_same x c c.active [] kept ∙ simp (on, going) refl;
        is_ready = λ e. serve-transactions x c0 kept;
        is_store =
            subst (StoreKept validator x) step
              (thread_step-StoreKept validator x x.received_at session h);
        counted = λ still.
            ap answered written
            ∙ answered_if served.1 (succeeds validator x c (scheduled_cell t) kept) outcome.0
                outcome.1
            ∙ simp (on, going) refl;
        others = λ b ne. find-assign b a served.1 (scheduled_cell t) s.cells found ∙ ground arith;
      }

  pub active-Sat :
      (c : Client) (x : Exchange) (a : ℕ) (s : Store) (kept : V)
      → IsStore s
      → IsReady c
      → c.active ≡ true
      → find a s.cells ≡ some (scheduled_cell t)
      → Sat c x a (record {
        client = record c { transactions = c.transactions ++ a ∷ [] };
        store = s;
        kept = kept;
      })
  active-Sat c x a s kept h ready on found = elim (Bool-cases c.stop_requested) [
    | inl stop ↦ stopping-Sat c x a (c.transactions ++ a ∷ []) s kept h on stop found
    | inr going ↦ listening-Sat c x a s kept h on going (ready (simp (on, going) refl)) found
  ]
