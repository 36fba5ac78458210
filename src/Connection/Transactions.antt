-- ===== src/Connection/Transactions.antt =====
-- `Transaction` of src/connection_transaction.h, and the memory that its client transactions live in.
-- The map `clientTransactions` owns them: they are cells of a `Store`, kept under their address.
-- Clients hold bare references to them, so an address can outlive its cell.
use mniam_headless.Base.{ℕ, suc, ◌+◌, List, [], ◌∷◌, Option, none, some, if◌then◌else◌}
use mniam_headless.Base.OrderedMap.{find, emplace, erase, assign}
use mniam_headless.Connection.Requests.{
  Bytes, ClientTransaction, new_client_transaction, wait_until,
}

-- `fresh` is the next address; addresses are not used again.
pub record Store : Type 0 where
  pub cells : List (ℕ × ClientTransaction)
  pub fresh : ℕ

pub record Transaction : Type 0 where
  pub request : Bytes
  pub response_size : ℕ
  pub client_transactions : List (ℕ × ℕ)

unfoldable pub new_transaction : Bytes → ℕ → Transaction
new_transaction request_data expected_response_size = record {
  request = request_data;
  response_size = expected_response_size;
  client_transactions = [];
}

unfoldable pub free_all : List (ℕ × ℕ) → List (ℕ × ClientTransaction) → List (ℕ × ClientTransaction)
free_all [] cells = cells
free_all ((k, a) ∷ m) cells = free_all m (erase a cells)

-- `reset`: `clientTransactions.clear()`, which destroys the client transactions.
unfoldable pub reset : Transaction → Store → Transaction × Store
unfolding free_all
reset t s = (
  record t { client_transactions = [] },
  record s { cells = free_all t.client_transactions s.cells },
)

-- A new client transaction for a client, at a fresh address.
unfoldable pub allocate : ℕ → Transaction → Store → Transaction × Store
allocate client_id t s = (
  record t { client_transactions = emplace client_id s.fresh t.client_transactions },
  record s {
    cells = emplace s.fresh (new_client_transaction t.request t.response_size) s.cells;
    fresh = suc s.fresh;
  },
)

-- `waitUntil` on the cell at an address, counted if it succeeds.
unfoldable pub wait_cell : Option ClientTransaction → ℕ → Store → Store × ℕ
wait_cell none a s = (s, 0)
wait_cell (some c) a s =
    let (c', ok) = wait_until c in (record s { cells = assign a c' s.cells }, if ok then 1 else 0)

-- The loop of `waitForFinish`.
unfoldable pub wait_all : List (ℕ × ℕ) → Store → Store × ℕ
unfolding wait_cell
wait_all [] s = (s, 0)
wait_all ((k, a) ∷ m) s =
    let (s', n) = wait_cell (find a s.cells) a s in
    let (s'', rest) = wait_all m s' in (s'', n + rest)

-- `waitForFinish`, at the moment when it returns: how many clients have answered in time.
unfoldable pub wait_for_finish : Transaction → Store → Store × ℕ
unfolding wait_all
wait_for_finish t s = wait_all t.client_transactions s
