-- ===== src/Connection/Registry.antt =====
-- The server's map of clients: which operation adds, keeps or drops whom.
use mniam_headless.Base.{
  ◌⊎◌, ℕ, suc, ◌≤◌, ◌≡◌, refl, Bool, false, not, List, [], ◌∷◌, none, some, length, if◌then◌else◌,
  arith,
}
use mniam_headless.Base.OrderedMap.{find, erase_if, Ascends, find-Ascends}
use mniam_headless.Connection.Requests.{Bytes}
use mniam_headless.Connection.Clients.{Client}
use mniam_headless.Connection.Transactions.{Store, Transaction, reset, wait_for_finish}
use mniam_headless.Connection.Servers.{
  Server, new_server, run_transaction, run_transaction_with_single_client, remove_client,
  remove_all_inactive_clients, reject_incoming_connections, accept_incoming_connections, connection,
  accept_step,
}
use mniam_headless.Connection.Membership.{
  IsRegistry, remove_all-IsRegistry, remove_client-IsRegistry, run_single-IsRegistry,
  run_transaction-IsRegistry,
}

-- What is done with the server and with transactions, which leaves the connections that come aside.
pub data Operation : Type 0 where
  run_with_all wait end_transaction : Transaction → Operation
  run_with_one : ℕ → Transaction → Operation
  remove : ℕ → Operation
  remove_inactive reject accept : Operation

unfoldable pub operate : Operation → Server × Store → Server × Store
unfolding run_transaction run_transaction_with_single_client wait_for_finish reset remove_client
    remove_all_inactive_clients reject_incoming_connections accept_incoming_connections
operate (run_with_all t) (v, s) = let (v', r) = run_transaction v t s in (v', r.store)
operate (run_with_one k t) (v, s) =
    let (v', r, outcome) = run_transaction_with_single_client k v t s in (v', r.store)
operate (wait t) (v, s) = (v, (wait_for_finish t s).0)
operate (end_transaction t) (v, s) = (v, (reset t s).1)
operate (remove k) (v, s) = (remove_client k v, s)
operate remove_inactive (v, s) = (remove_all_inactive_clients v, s)
operate reject (v, s) = (reject_incoming_connections v, s)
operate accept (v, s) = (accept_incoming_connections v, s)

-- Every operation keeps the clients under their own distinct ids, in ascending order, below the
-- next id and within the limit.
pub operate-IsRegistry :
    (o : Operation) (v : Server) (s : Store) → IsRegistry v → IsRegistry (operate o (v, s)).0
unfolding operate
operate-IsRegistry (run_with_all t) v s h = run_transaction-IsRegistry v t s h
operate-IsRegistry (run_with_one k t) v s h = run_single-IsRegistry k v t s h
operate-IsRegistry (wait t) v s h = h
operate-IsRegistry (end_transaction t) v s h = h
operate-IsRegistry (remove k) v s h = remove_client-IsRegistry k v h
operate-IsRegistry remove_inactive v s h = remove_all-IsRegistry v h
operate-IsRegistry reject v s h = record {
  ascends = h.ascends;
  below = h.below;
  named = h.named;
  limited = h.limited;
}
operate-IsRegistry accept v s h = record {
  ascends = h.ascends;
  below = h.below;
  named = h.named;
  limited = h.limited;
}

pub new_server-IsRegistry : (limit : ℕ) → IsRegistry (new_server limit)
unfolding new_server
new_server-IsRegistry limit = record { ascends = tt; below = tt; named = tt; limited = omega arith }

-- A connection is turned away, and nothing in the server changes, if it rejects connections or has as
-- many clients as its limit, or more.
pub accept_step-refuses :
    (now : ℕ) (peer : Bytes) (v : Server)
    → (v.is_accepting ≡ false) ⊎ (v.client_limit ≤ length v.clients)
    → accept_step now (connection peer) v ≡ v
unfolding accept_step
accept_step-refuses now peer v h = ground arith

find-erase_if :
    (p : Client → Bool) (k b : ℕ) (m : List (ℕ × Client))
    → Ascends b m
    → find k (erase_if p m)
      ≡ elim (find k m) [ some c ↦ if p c then none else some c | none ↦ none ]
unfolding find erase_if
find-erase_if p k b [] s = refl
find-erase_if p k b ((j, w) ∷ m) s =
    ground (arith, find-erase_if p k (suc j) m s.1, find-Ascends k (suc j) m)

-- In a registry, what is found under an id after all inactive clients are removed is the client that
-- was there, if it is active, and nothing otherwise.
pub remove_all_inactive-find :
    (v : Server) (k : ℕ)
    → IsRegistry v
    → find k (remove_all_inactive_clients v).clients
      ≡ elim (find k v.clients) [ some c ↦ if c.active then some c else none | none ↦ none ]
unfolding remove_all_inactive_clients
remove_all_inactive-find v k h =
    ground (arith, find-erase_if (λ (c : Client). not c.active) k 0 v.clients h.ascends)
