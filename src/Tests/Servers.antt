-- ===== src/Tests/Servers.antt =====
-- A server with an active client and one that has gone, with a client transaction left from the
-- last run in the first one's queue.
use mniam_headless.Base.{
  ℕ, ◌+◌, ◌≤◌, ◌≡◌, refl, Bool, true, false, ◌||◌, [], ◌∷◌, ◌++◌, none, some, ◌==◌, if◌then◌else◌,
  arith, All,
}
use mniam_headless.Base.Int.{pos}
use mniam_headless.Base.OrderedMap.{find, Ascends}
use mniam_headless.Connection.{
  Bytes, ClientTransaction, new_client_transaction, scheduled, done, timeout, Client, Exchange,
  serve, Store, Transaction, Server, run_transaction, Session, thread_step,
}
use mniam_headless.Connection.Exchanges.{succeeds, hangs_up, serve_outcome, serve-stop_requested}
use mniam_headless.Connection.Membership.{IsRegistry}
use mniam_headless.Connection.Scheduling.{run_transaction-schedules}
use mniam_headless.Connection.Runs.{IsStore, scheduled_cell}
use mniam_headless.Connection.Dangling.{run_transaction-QueuesLive, run_again-dangles}
use mniam_headless.Connection.Rounds.{IsFree, IsReady}
use mniam_headless.Connection.References.{QueuesLive}

-- A client with id 3 whose queue holds the address 5, and one with id 4 whose thread has ended.
abbrev pub idle_client : ℕ → Client
idle_client k = record {
  client_id = k;
  active = true;
  ip = 127 ∷ [];
  stop_requested = false;
  transactions = [];
  rtt_log = [];
  connection_time = 10;
  disconnection_time = 0;
}

abbrev pub reader : Client
reader = record (idle_client 3) { transactions = 5 ∷ []; rtt_log = 20 ∷ 40 ∷ [] }

abbrev pub gone : Client
gone = record (idle_client 4) { active = false; disconnection_time = 30 }

abbrev pub hall : Server
hall = record {
  clients = (3, reader) ∷ (4, gone) ∷ [];
  is_accepting = true;
  client_limit = 8;
  next_client_id = 5;
  listening = true;
}

abbrev pub cell : ClientTransaction
cell = record (new_client_transaction (1 ∷ 2 ∷ []) 3) { state = scheduled }

abbrev pub memory : Store
memory = record { cells = (5, cell) ∷ []; fresh = 6 }

-- `first` owns the cell, `second` owns none.
abbrev pub first : Transaction
first = record { request = 1 ∷ 2 ∷ []; response_size = 3; client_transactions = (3, 5) ∷ [] }

abbrev pub second : Transaction
second = record first { client_transactions = [] }

-- A response of three bytes, which is valid if it begins with 7; how many came is kept.
abbrev check_first : Bytes → Bool
check_first [] = false
check_first (b ∷ _) = b == 7

abbrev pub validator : ℕ → Bytes → ℕ → ℕ × Bool
validator client_id bytes kept = (kept + 1, check_first bytes)

abbrev pub reply : Exchange
reply = record {
  sent_at = 50;
  written = pos 2;
  read_count = pos 3;
  read_data = 7 ∷ 8 ∷ 9 ∷ [];
  received_at = 60;
}

hall-Ascends : Ascends 0 hall.clients
hall-Ascends = (omega arith, (omega arith, tt))

pub hall-IsRegistry : IsRegistry hall
hall-IsRegistry = record {
  ascends = hall-Ascends;
  below = (omega arith, (omega arith, tt));
  named = (refl, (refl, tt));
  limited = omega arith;
}

pub memory-IsStore : IsStore memory
memory-IsStore = record { cells_ascend = (omega arith, tt); cells_below = (omega arith, tt) }

reader_found : find 3 hall.clients ≡ some reader
unfolding find
reader_found = refl

pub cell_found : find 5 memory.cells ≡ some cell
unfolding find
cell_found = refl

first_owns : find 3 first.client_transactions ≡ some 5
unfolding find
first_owns = refl

serve_outcome_example :
    ((serve validator reply reader cell 0).1.state
      ≡ (if succeeds validator reply reader cell 0 then done else timeout))
    × ((serve validator reply reader cell 0).1.signal ≡ true)
serve_outcome_example = serve_outcome validator reply reader cell 0 refl

serve-stop_requested_example :
    (serve validator reply reader cell 0).0.stop_requested
    ≡ (reader.stop_requested || hangs_up validator reply reader cell 0)
serve-stop_requested_example = serve-stop_requested validator reply reader cell 0 refl

run_transaction-schedules_example :
    let (v', r) = run_transaction hall second memory in
    (address : ℕ) × (find 3 v'.clients
      ≡ some (record reader { transactions = reader.transactions ++ address ∷ [] }))
    × (find 3 r.transaction.client_transactions ≡ some address)
    × (6 ≤ address)
    × (find address r.store.cells ≡ some (scheduled_cell second))
run_transaction-schedules_example =
    run_transaction-schedules hall second memory 3 reader hall-Ascends memory-IsStore reader_found
      refl

queues_live : QueuesLive memory.cells hall.clients
queues_live = (((cell, cell_found), tt), (tt, tt))

run_transaction-QueuesLive_example :
    let (v', r) = run_transaction hall second memory in QueuesLive r.store.cells v'.clients
run_transaction-QueuesLive_example =
    run_transaction-QueuesLive hall second memory hall-Ascends memory-IsStore ((tt, tt), (tt, tt))
      queues_live

abbrev pub session : Session ℕ
session = record { client = reader; store = memory; kept = 0 }

run_again-dangles_example :
    let (v', r) = run_transaction hall first memory in
    (c' : Client) × (find 3 v'.clients ≡ some c')
    × ((now : ℕ) (x : Exchange) (kept : ℕ)
        → thread_step validator now x (record { client = c'; store = r.store; kept = kept }) ≡ none)
run_again-dangles_example =
    run_again-dangles validator hall first memory 3 5 reader [] hall-Ascends memory-IsStore
      reader_found refl refl refl first_owns (omega arith)

-- The hall with nothing left in the reader's queue.
abbrev pub early_hall : Server
early_hall = record hall { clients = (3, idle_client 3) ∷ (4, gone) ∷ [] }

pub early_hall-Ascends : Ascends 0 early_hall.clients
early_hall-Ascends = (omega arith, (omega arith, tt))

-- Only the client with id 3 is active, and it has nothing to do.
pub early_hall-IsFree : All (λ e. IsFree e.1) early_hall.clients
early_hall-IsFree = ((λ on. (refl, refl)), ((λ on. absurd (cc on)), tt))

pub early_hall-IsReady : All (λ e. IsReady e.1) early_hall.clients
early_hall-IsReady = ((λ on. refl), ((λ on. refl), tt))

pub early_hall-IsRegistry : IsRegistry early_hall
early_hall-IsRegistry = record {
  ascends = early_hall-Ascends;
  below = (omega arith, (omega arith, tt));
  named = (refl, (refl, tt));
  limited = omega arith;
}

pub idle_found : find 3 early_hall.clients ≡ some (idle_client 3)
unfolding find
idle_found = refl
