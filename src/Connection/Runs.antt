-- ===== src/Connection/Runs.antt =====
-- The loop of `Server::runTransaction` over the clients, in the middle of its work.
use mniam_headless.Base.{
  ℕ, suc, ◌≤◌, ◌<◌, ◌≡◌, refl, true, false, Bool-cases, inl, inr, List, [], ◌∷◌, ◌++◌, some, ◌==◌,
  if◌then◌else◌, arith,
}
use mniam_headless.Base.OrderedMap.{
  find, emplace, assign, Ascends, Below, Below-mono, find-Below, find-emplace, emplace-Ascends,
  emplace-Below, find-assign, assign-Ascends, assign-Below,
}
use mniam_headless.Connection.Requests.{ClientTransaction, scheduled, new_client_transaction}
use mniam_headless.Connection.Clients.{Client}
use mniam_headless.Connection.Transactions.{Store, Transaction}
use mniam_headless.Connection.Servers.{Run, see_to, schedule_all}

-- Cells stand under their addresses, all below the next one.
pub record IsStore (s : Store) : Type 0 where
  pub cells_ascend : Ascends 0 s.cells
  pub cells_below : Below s.fresh s.cells

-- A run in the middle of the loop, when the clients with ids below `b` have been seen to.
pub record IsRun (b : ℕ) (r : Run) : Type 0 where
  pub is_store : IsStore r.store
  pub owners_ascend : Ascends 0 r.transaction.client_transactions
  pub owners_below : Below b r.transaction.client_transactions

-- The cell of a transaction that has just been handed to a client.
abbrev pub scheduled_cell : Transaction → ClientTransaction
scheduled_cell t = record (new_client_transaction t.request t.response_size) { state = scheduled }

-- The state after one client was seen to.
abbrev pub run_after : ℕ → Run → Run
run_after k r = record {
  transaction = record r.transaction {
    client_transactions = emplace k r.store.fresh r.transaction.client_transactions;
  };
  store = record {
    cells = assign r.store.fresh (scheduled_cell r.transaction) (
        emplace r.store.fresh
          (new_client_transaction r.transaction.request r.transaction.response_size) r.store.cells);
    fresh = suc r.store.fresh;
  };
}

pub see_to_active :
    (k : ℕ) (c : Client) (r : Run)
    → c.active ≡ true
    → see_to k c r
      ≡ (record c { transactions = c.transactions ++ r.store.fresh ∷ [] }, run_after k r)
unfolding see_to
see_to_active k c r h = ground arith

pub see_to_inactive : (k : ℕ) (c : Client) (r : Run) → c.active ≡ false → see_to k c r ≡ (c, r)
unfolding see_to
see_to_inactive k c r h = ground arith

pub find-run_after :
    (a k b : ℕ) (r : Run)
    → IsRun b r
    → find a (run_after k r).store.cells
      ≡ (if r.store.fresh == a then some (scheduled_cell r.transaction) else find a r.store.cells)
find-run_after a k b r h =
    let n = r.store.fresh in
    let t = new_client_transaction r.transaction.request r.transaction.response_size in
    let cells = r.store.cells in
    let unused = find-Below n cells h.is_store.cells_below in
    let new = find-emplace n n 0 t cells h.is_store.cells_ascend in
    ground (
      arith,
      unused,
      new,
      find-emplace a n 0 t cells h.is_store.cells_ascend,
      find-assign a n (scheduled_cell r.transaction) t (emplace n t cells),
    )

pub run_after-IsRun : (k b : ℕ) (r : Run) → b ≤ k → IsRun b r → IsRun (suc k) (run_after k r)
run_after-IsRun k b r le h =
    let n = r.store.fresh in
    let t = new_client_transaction r.transaction.request r.transaction.response_size in
    record {
      is_store = record {
        cells_ascend =
            assign-Ascends n 0 (scheduled_cell r.transaction) _
              (emplace-Ascends n 0 t r.store.cells (omega arith) h.is_store.cells_ascend);
        cells_below = assign-Below n (suc n) (scheduled_cell r.transaction) _ (
            emplace-Below n (suc n) t r.store.cells (omega arith)
              (Below-mono n (suc n) r.store.cells (omega arith) h.is_store.cells_below));
      };
      owners_ascend =
          emplace-Ascends k 0 n r.transaction.client_transactions (omega arith) h.owners_ascend;
      owners_below =
          emplace-Below k (suc k) n r.transaction.client_transactions (omega arith)
            (Below-mono b (suc k) r.transaction.client_transactions (omega arith) h.owners_below);
    }

pub skip-IsRun : (k b : ℕ) (r : Run) → b ≤ k → IsRun b r → IsRun (suc k) r
skip-IsRun k b r le h = record {
  is_store = h.is_store;
  owners_ascend = h.owners_ascend;
  owners_below =
      Below-mono b (suc k) r.transaction.client_transactions (omega arith) h.owners_below;
}

pub schedule_all-cons :
    (k : ℕ) (c c' : Client) (m : List (ℕ × Client)) (r r' : Run)
    → see_to k c r ≡ (c', r')
    → schedule_all ((k, c) ∷ m) r ≡ ((k, c') ∷ (schedule_all m r').0, (schedule_all m r').1)
unfolding schedule_all
schedule_all-cons k c c' m r r' e = rw e

-- What the loop over clients with ids from `b` on leaves alone, and what it makes true.
pub record Looped (b : ℕ) (r r' : Run) : Type 0 where
  pub ordered : IsStore r'.store
  pub grown : r.store.fresh ≤ r'.store.fresh
  pub same_transaction :
      (r'.transaction.request ≡ r.transaction.request)
      × (r'.transaction.response_size ≡ r.transaction.response_size)
  pub old_cells : (a : ℕ) → a < r.store.fresh → find a r'.store.cells ≡ find a r.store.cells
  pub old_owners :
      (k : ℕ)
      → k < b
      → find k r'.transaction.client_transactions ≡ find k r.transaction.client_transactions

-- One client and the rest of the loop.
run_after-Looped :
    (k b : ℕ) (r r' : Run) → b ≤ k → IsRun b r → Looped (suc k) (run_after k r) r' → Looped b r r'
run_after-Looped k b r r' le h l = record {
  ordered = l.ordered;
  grown = omega (arith, l.grown);
  same_transaction = l.same_transaction;
  old_cells = λ a lt. ground (arith, l.old_cells a, find-run_after a k b r h);
  old_owners = λ j lt. ground (
    arith,
    l.old_owners j,
    find-emplace j k 0 r.store.fresh r.transaction.client_transactions h.owners_ascend,
  );
}

skip-Looped : (k b : ℕ) (r r' : Run) → b ≤ k → Looped (suc k) r r' → Looped b r r'
skip-Looped k b r r' le l = record {
  ordered = l.ordered;
  grown = l.grown;
  same_transaction = l.same_transaction;
  old_cells = l.old_cells;
  old_owners = λ j lt. l.old_owners j (omega arith);
}

pub schedule_all-Looped :
    (b : ℕ) (m : List (ℕ × Client)) (r : Run)
    → Ascends b m
    → IsRun b r
    → Looped b r (schedule_all m r).1
unfolding schedule_all
schedule_all-Looped b [] r s h = record {
  ordered = h.is_store;
  grown = omega arith;
  same_transaction = (refl, refl);
  old_cells = λ a lt. refl;
  old_owners = λ k lt. refl;
}
schedule_all-Looped b ((k, c) ∷ m) r s h = elim (Bool-cases c.active) [
  | inl on ↦ rw (see_to_active k c r on) (
      run_after-Looped k b r _ s.0 h
        (schedule_all-Looped (suc k) m (run_after k r) s.1 (run_after-IsRun k b r s.0 h)))
  | inr off ↦
      rw (see_to_inactive k c r off)
        (skip-Looped k b r _ s.0 (schedule_all-Looped (suc k) m r s.1 (skip-IsRun k b r s.0 h)))
]
