-- ===== src/Tests/Rounds.antt =====
-- The life of a client, many rounds of its thread, and the rounds of all threads, on the server of
-- Tests/Servers.
use mniam_headless.Base.{ℕ, List, ◌≡◌, refl, true, false, not, ◌⊎◌, [], ◌∷◌, some, arith, All}
use mniam_headless.Connection.{run_transaction, Session, thread_run, wait_for_finish, Exchange}
use mniam_headless.Base.OrderedMap.{find}
use mniam_headless.Base.Int.{negsuc}
use mniam_headless.Connection.Draining.{IsEnded, IsPending, Once, thread_run-ends}
use mniam_headless.Connection.Lifetime.{
  Life, Lives, built, looping, born, lived, activate, take_connection_time, newborn, is_built,
  is_ended, is_looping,
}
use mniam_headless.Connection.Orderly.{Lives-active}
use mniam_headless.Connection.Rounds.{Shared, turns, successes}
use mniam_headless.Connection.Group.{run_transaction-successes}
use mniam_headless.Connection.Runs.{scheduled_cell}
use mniam_headless.Tests.Servers.{
  idle_client, cell, memory, memory-IsStore, second, validator, reply, early_hall,
  early_hall-Ascends, early_hall-IsFree,
}

-- Two transactions in the queue; the second one cannot be sent.
abbrev busy : Session ℕ
busy = record {
  client = record (idle_client 3) { transactions = 5 ∷ 7 ∷ [] };
  store = record { cells = (5, cell) ∷ (7, cell) ∷ []; fresh = 8 };
  kept = 0;
}

abbrev two_rounds : List (ℕ × Exchange)
two_rounds = (60, reply) ∷ (70, record reply { written = negsuc 0 }) ∷ []

busy-IsPending : All (IsPending busy.store.cells) (5 ∷ 7 ∷ [])
unfolding find
busy-IsPending = ((cell, refl, refl), ((cell, refl, refl), tt))

busy-Once : Once (5 ∷ 7 ∷ [])
busy-Once = (((λ e. omega arith), tt), (tt, tt))

thread_run-ends_example :
    (s' : Session ℕ) × (thread_run validator two_rounds busy ≡ some s')
    × (((s'.client.active ≡ false) × (s'.client.stop_requested ≡ true))
        ⊎ All (IsEnded s'.store.cells) (5 ∷ 7 ∷ []))
thread_run-ends_example =
    thread_run-ends validator two_rounds busy (omega arith) busy-IsPending busy-Once

run_transaction-successes_example :
    let (v', r) = run_transaction early_hall second memory in
    (after : Shared ℕ) × (turns validator
        (λ k. reply)
        v'.clients
        (record { store = r.store; kept = 0 })
      ≡ some after)
    × ((wait_for_finish r.transaction after.store).1
        ≡ successes validator (λ k. reply) (scheduled_cell second) early_hall.clients 0)
run_transaction-successes_example =
    run_transaction-successes validator (λ k. reply) second early_hall memory 0 early_hall-Ascends
      memory-IsStore early_hall-IsFree

-- A client whose constructor has returned.
abbrev grown_client : Life ℕ
grown_client = record {
  session = record { client = idle_client 3; store = memory; kept = 0 };
  building = built;
  running = looping;
}

grown_client-Lives : Lives validator grown_client
unfolding newborn
grown_client-Lives =
    lived (lived (born 3 (127 ∷ []) false memory 0) (activate refl)) (take_connection_time 10 refl)

Lives-active_example :
    (is_built grown_client.building ≡ true
      → grown_client.session.client.active ≡ not (is_ended grown_client.running))
    × (is_looping grown_client.running ≡ false
        → (is_built grown_client.building ≡ true)
          × (grown_client.session.client.stop_requested ≡ true))
Lives-active_example = Lives-active validator grown_client grown_client-Lives
