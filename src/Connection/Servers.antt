-- ===== src/Connection/Servers.antt =====
-- `Server` of src/connection_server.cpp. An operation that holds the lock on the clients while it
-- runs is one step. `accept_step` is a whole round of the server thread, as if nothing came between its
-- look at the number of clients and the lock; Connection/Accepting takes the two apart. sockpp's
-- acceptor is an argument.
use mniam_headless.Base.{
  ℕ, ◌+◌, ◌%◌, ◌^◌, Bool, true, false, not, ◌&&◌, List, [], ◌∷◌, Option, none, some, length, ltb,
  map, if◌then◌else◌,
}
use mniam_headless.Base.OrderedMap.{find, emplace, erase, erase_if, assign}
use mniam_headless.Connection.Requests.{Bytes, new_client_transaction}
use mniam_headless.Connection.Clients.{
  Client, new_client, enqueue, get_rtt, get_connection_time, get_disconnection_time,
}
use mniam_headless.Connection.Transactions.{Store, Transaction, reset, allocate}

-- `next_client_id` is the static `clientId` of the server thread, and `listening` says that the
-- thread has not left its loop.
pub record Server : Type 0 where
  pub clients : List (ℕ × Client)
  pub is_accepting : Bool
  pub client_limit : ℕ
  pub next_client_id : ℕ
  pub listening : Bool

unfoldable pub new_server : ℕ → Server
new_server client_limit = record {
  clients = [];
  is_accepting = true;
  client_limit = client_limit;
  next_client_id = 0;
  listening = true;
}

-- What `runTransaction` works on.
pub record Run : Type 0 where
  pub transaction : Transaction
  pub store : Store

-- The client transaction that was just constructed is handed to the client.
unfoldable pub schedule : ℕ → Client → Run → Client × Run
unfolding allocate enqueue
schedule client_id c r =
    let (t, s) = allocate client_id r.transaction r.store in
    let address = r.store.fresh in
    let (c', cell, _) =
      enqueue address (new_client_transaction r.transaction.request r.transaction.response_size)
        c in
    (c', record { transaction = t; store = record s { cells = assign address cell s.cells } })

-- Transactions are scheduled with active clients only.
unfoldable pub see_to : ℕ → Client → Run → Client × Run
unfolding schedule
see_to client_id c r = if c.active then schedule client_id c r else (c, r)

-- The loop of `runTransaction` over the clients.
unfoldable pub schedule_all : List (ℕ × Client) → Run → List (ℕ × Client) × Run
schedule_all [] r = ([], r)
schedule_all ((k, c) ∷ m) r =
    let (c', r') = see_to k c r in let (m', r'') = schedule_all m r' in ((k, c') ∷ m', r'')

unfoldable pub run_transaction : Server → Transaction → Store → Server × Run
unfolding reset schedule_all
run_transaction v t s =
    let (t', s') = reset t s in
    let (m, r) = schedule_all v.clients (record { transaction = t'; store = s' }) in
    (record v { clients = m }, r)

-- `std::out_of_range` from `clients.at`, after the reset.
pub data Outcome : Type 0 where
  returned out_of_range : Outcome

unfoldable pub run_with_client : Option Client → ℕ → Server → Run → Server × Run × Outcome
run_with_client none client_id v r = (v, r, out_of_range)
run_with_client (some c) client_id v r =
    let (c', r') = see_to c.client_id c r in
    (record v { clients = assign client_id c' v.clients }, r', returned)

unfoldable pub run_transaction_with_single_client :
    ℕ → Server → Transaction → Store → Server × Run × Outcome
unfolding reset run_with_client
run_transaction_with_single_client client_id v t s =
    let (t', s') = reset t s in
    run_with_client (find client_id v.clients) client_id v (record { transaction = t'; store = s' })

unfoldable pub remove_client : ℕ → Server → Server
remove_client client_id v = record v { clients = erase client_id v.clients }

unfoldable pub remove_all_inactive_clients : Server → Server
remove_all_inactive_clients v = record v { clients = erase_if (λ c. not c.active) v.clients }

pub record ClientInfo : Type 0 where
  pub client_id : ℕ
  pub active : Bool
  pub ip : Bytes
  pub rtt : ℕ
  pub how_long_connected : ℕ
  pub how_long_disconnected : ℕ

unfoldable pub client_info : ℕ → ℕ → Client → ClientInfo
unfolding get_rtt get_connection_time get_disconnection_time
client_info now client_id c = record {
  client_id = client_id;
  active = c.active;
  ip = c.ip;
  rtt = get_rtt c;
  how_long_connected = get_connection_time now c;
  how_long_disconnected = get_disconnection_time now c;
}

unfoldable pub get_clients : ℕ → Server → List ClientInfo
unfolding client_info
get_clients now v = map (λ e. client_info now e.0 e.1) v.clients

-- "unknown"
abbrev pub unknown : Bytes
unknown = b'u' ∷ b'n' ∷ b'k' ∷ b'n' ∷ b'o' ∷ b'w' ∷ b'n' ∷ []

abbrev info_or_unknown : ℕ → ℕ → Option Client → ClientInfo
info_or_unknown now client_id (some c) = client_info now c.client_id c
info_or_unknown now client_id none = record {
  client_id = client_id;
  active = false;
  ip = unknown;
  rtt = 0;
  how_long_connected = 0;
  how_long_disconnected = 0;
}

unfoldable pub get_client : ℕ → ℕ → Server → ClientInfo
unfolding client_info
get_client now client_id v = info_or_unknown now client_id (find client_id v.clients)

unfoldable pub reject_incoming_connections : Server → Server
reject_incoming_connections v = record v { is_accepting = false }

unfoldable pub accept_incoming_connections : Server → Server
accept_incoming_connections v = record v { is_accepting = true }

-- What `accept` returns: a connection with its peer's address, or an error.
pub data Incoming : Type 0 where
  connection : Bytes → Incoming
  error : Incoming

unfoldable pub admit : ℕ → Bytes → Server → Server
unfolding new_client
admit now peer v = record v {
  clients = emplace v.next_client_id (new_client v.next_client_id peer now) v.clients;
  next_client_id = (v.next_client_id + 1) % 2 ^ 32;
}

abbrev answer : ℕ → Incoming → Server → Server
answer now error v = record v { listening = false }
answer now (connection peer) v =
    if v.is_accepting && ltb (length v.clients) v.client_limit then admit now peer v else v

-- One round of the loop of `serverThreadFunc`, if it has not left the loop.
unfoldable pub accept_step : ℕ → Incoming → Server → Server
unfolding admit
accept_step now i v = if v.listening then answer now i v else v
