-- ===== src/Connection/Scheduling.antt =====
-- What `Server::runTransaction` leaves in the clients' queues, in the transaction and in memory.
use mniam_headless.Base.{
  ℕ, suc, ◌≤◌, ◌<◌, ◌≡◌, refl, ◌∙◌, ap, true, false, Bool-cases, inl, inr, List, [], ◌∷◌, ◌++◌,
  none, some, ◌==◌, arith,
}
use mniam_headless.Base.OrderedMap.{
  find, emplace, erase, Ascends, Below, Below-mono, find-Ascends, find-Below, find-emplace,
  erase-Ascends, erase-Below,
}
use mniam_headless.Connection.Requests.{ClientTransaction}
use mniam_headless.Connection.Clients.{Client}
use mniam_headless.Connection.Transactions.{Store, Transaction, reset, free_all}
use mniam_headless.Connection.Servers.{Server, Run, schedule_all, run_transaction}
use mniam_headless.Connection.Runs.{
  IsRun, IsStore, Looped, find-run_after, run_after, run_after-IsRun, schedule_all-Looped,
  scheduled_cell, see_to_active, see_to_inactive, skip-IsRun,
}

-- A client `c` under the id `k` got a new transaction: its address is the last in the client's
-- queue and is kept in the transaction under that id, its cell is new, scheduled, and asks for the
-- request of the transaction.
pub record IsScheduled (k : ℕ) (c : Client) (r : Run) (m' : List (ℕ × Client)) (r' : Run)
    : Type 0 where
  pub address : ℕ
  pub queued : find k m' ≡ some (record c { transactions = c.transactions ++ address ∷ [] })
  pub owned : find k r'.transaction.client_transactions ≡ some address
  pub new : r.store.fresh ≤ address
  pub cell : find address r'.store.cells ≡ some (scheduled_cell r.transaction)

first-IsScheduled :
    (k b : ℕ) (c : Client) (m' : List (ℕ × Client)) (r r' : Run)
    → b ≤ k
    → IsRun b r
    → Looped (suc k) (run_after k r) r'
    → IsScheduled k c r
        ((k, record c { transactions = c.transactions ++ r.store.fresh ∷ [] }) ∷ m')
        r'
unfolding find
first-IsScheduled k b c m' r r' le h l = record {
  address = r.store.fresh;
  queued = ground arith;
  owned =
      l.old_owners k (omega arith)
      ∙ ground (
        arith,
        find-emplace k k 0 r.store.fresh r.transaction.client_transactions h.owners_ascend,
        find-Below k r.transaction.client_transactions
            (Below-mono b k r.transaction.client_transactions le h.owners_below),
      );
  new = omega arith;
  cell =
      l.old_cells r.store.fresh (omega arith)
      ∙ ground (arith, find-run_after r.store.fresh k b r h);
}

later-IsScheduled :
    (k j : ℕ) (c d : Client) (m' : List (ℕ × Client)) (r r₁ r' : Run)
    → j < k
    → r.store.fresh ≤ r₁.store.fresh
    → scheduled_cell r₁.transaction ≡ scheduled_cell r.transaction
    → IsScheduled k c r₁ m' r'
    → IsScheduled k c r ((j, d) ∷ m') r'
unfolding find
later-IsScheduled k j c d m' r r₁ r' lt grown same i = record {
  address = i.address;
  queued = ground (arith, i.queued);
  owned = i.owned;
  new = omega (arith, i.new);
  cell = i.cell ∙ ap some same;
}

schedule_all-IsScheduled :
    (k b : ℕ) (c : Client) (m : List (ℕ × Client)) (r : Run)
    → Ascends b m
    → IsRun b r
    → find k m ≡ some c
    → c.active ≡ true
    → IsScheduled k c r (schedule_all m r).0 (schedule_all m r).1
unfolding schedule_all find
schedule_all-IsScheduled k b c [] r s h e on = cc
schedule_all-IsScheduled k b c ((j, d) ∷ m) r s h e on = elim (Bool-cases (j == k)) [
  | inl hit ↦
      let here : d ≡ c = ground arith in
      let id : j ≡ k = ground arith in
      let le : b ≤ k = omega (arith, s.0) in
      rw (here, id, see_to_active k c r on)
        (first-IsScheduled k b c _ r _ le h (
          schedule_all-Looped (suc k) m (run_after k r) (rw (← id) s.1)
            (run_after-IsRun k b r le h)))
  | inr miss ↦
      let rest : find k m ≡ some c = ground arith in
      let lt : j < k = ground (arith, find-Ascends k (suc j) m) in
      elim (Bool-cases d.active) [
        | inl d_on ↦ rw (see_to_active j d r d_on) (
            later-IsScheduled k j c _ _ r (run_after j r) _ lt (omega arith) refl (
              schedule_all-IsScheduled k (suc j) c m (run_after j r) s.1
                (run_after-IsRun j b r s.0 h) rest on))
        | inr d_off ↦ rw (see_to_inactive j d r d_off) (
            later-IsScheduled k j c _ _ r r _ lt (omega arith) refl
              (schedule_all-IsScheduled k (suc j) c m r s.1 (skip-IsRun j b r s.0 h) rest on))
      ]
]

free_all-IsStore :
    (m : List (ℕ × ℕ)) (cells : List (ℕ × ClientTransaction)) (n : ℕ)
    → Ascends 0 cells
    → Below n cells
    → Ascends 0 (free_all m cells) × Below n (free_all m cells)
unfolding free_all
free_all-IsStore [] cells n s b = (s, b)
free_all-IsStore ((k, a) ∷ m) cells n s b =
    free_all-IsStore m (erase a cells) n (erase-Ascends a 0 cells s) (erase-Below a n cells b)

unfoldable pub after_reset : Transaction → Store → Run
unfolding reset
after_reset t s = record { transaction = (reset t s).0; store = (reset t s).1 }

pub after_reset-IsRun : (t : Transaction) (s : Store) → IsStore s → IsRun 0 (after_reset t s)
unfolding after_reset
after_reset-IsRun t s h =
    let freed =
      free_all-IsStore t.client_transactions s.cells s.fresh h.cells_ascend h.cells_below in
    record {
      is_store = record { cells_ascend = freed.0; cells_below = freed.1 };
      owners_ascend = tt;
      owners_below = tt;
    }

-- If the clients are in ascending order of their ids and the cells of memory lie below the next
-- address, running a transaction gives each active client one new scheduled client transaction, at the
-- end of its queue and under its id in the transaction, with the request of the transaction in it.
pub run_transaction-schedules :
    (v : Server) (t : Transaction) (s : Store) (k : ℕ) (c : Client)
    → Ascends 0 v.clients
    → IsStore s
    → find k v.clients ≡ some c
    → c.active ≡ true
    → let (v', r) = run_transaction v t s in
      (address : ℕ) × (find k v'.clients
        ≡ some (record c { transactions = c.transactions ++ address ∷ [] }))
      × (find k r.transaction.client_transactions ≡ some address)
      × (s.fresh ≤ address)
      × (find address r.store.cells ≡ some (scheduled_cell t))
unfolding run_transaction after_reset
run_transaction-schedules v t s k c a h e on =
    let i =
      schedule_all-IsScheduled k 0 c v.clients (after_reset t s) a (after_reset-IsRun t s h) e on in
    (i.address, i.queued, i.owned, i.new, i.cell)

schedule_all-skips :
    (k b : ℕ) (m : List (ℕ × Client)) (r : Run)
    → Ascends b m
    → IsRun b r
    → find k r.transaction.client_transactions ≡ none
    → ((c : Client) → find k m ≡ some c → c.active ≡ false)
    → (find k (schedule_all m r).0 ≡ find k m)
      × (find k (schedule_all m r).1.transaction.client_transactions ≡ none)
unfolding schedule_all find
schedule_all-skips k b [] r s h e off = (refl, e)
schedule_all-skips k b ((j, d) ∷ m) r s h e off = elim (Bool-cases (j == k)) [
  | inl hit ↦
      let id : j ≡ k = ground arith in
      let d_off : d.active ≡ false = off d (rw hit) in
      let loop = schedule_all-Looped (suc j) m r s.1 (skip-IsRun j b r s.0 h) in
      rw (see_to_inactive j d r d_off, hit) (refl, loop.old_owners k (omega arith) ∙ e)
  | inr miss ↦
      let rest : (c : Client) → find k m ≡ some c → c.active ≡ false = λ c f. off c (rw miss f) in
      elim (Bool-cases d.active) [
        | inl d_on ↦
            let none_yet : find k (emplace j r.store.fresh r.transaction.client_transactions)
                ≡ none =
              ground (
                arith,
                find-emplace k j 0 r.store.fresh r.transaction.client_transactions h.owners_ascend,
              ) in
            rw (see_to_active j d r d_on, miss)
              (schedule_all-skips k (suc j) m (run_after j r) s.1 (run_after-IsRun j b r s.0 h)
                none_yet rest)
        | inr d_off ↦
            rw (see_to_inactive j d r d_off, miss)
              (schedule_all-skips k (suc j) m r s.1 (skip-IsRun j b r s.0 h) e rest)
      ]
]

-- If the clients are in ascending order of their ids and the cells of memory lie below the next
-- address, running a transaction leaves a client that is not active as it was, adds no client under an
-- id that has none, and keeps nothing in the transaction under an id that is no active client's.
pub run_transaction-skips :
    (v : Server) (t : Transaction) (s : Store) (k : ℕ)
    → Ascends 0 v.clients
    → IsStore s
    → ((c : Client) → find k v.clients ≡ some c → c.active ≡ false)
    → let (v', r) = run_transaction v t s in
      (find k v'.clients ≡ find k v.clients) × (find k r.transaction.client_transactions ≡ none)
unfolding run_transaction after_reset find
run_transaction-skips v t s k a h off =
    schedule_all-skips k 0 v.clients (after_reset t s) a (after_reset-IsRun t s h) refl off
