-- ===== src/Connection/Requests.antt =====
-- `ClientTransaction` of src/connection_client.h: one request to one client, with its response.
use mniam_headless.Base.{ℕ, Bool, true, false, List, [], take, if◌then◌else◌}

abbrev pub Bytes : Type 0
Bytes = List ℕ

-- `ConnectionTransactionState`
pub data TransactionState : Type 0 where
  idle scheduled waiting done timeout : TransactionState

-- `response_span` is the size of the span `response`, fixed by the constructor. The semaphore
-- `endOfTransactionSignal` is a binary one. Times are in milliseconds.
pub record ClientTransaction : Type 0 where
  pub response_buf : Bytes
  pub state : TransactionState
  pub request : Bytes
  pub response_size : ℕ
  pub response_span : ℕ
  pub signal : Bool
  pub request_time : ℕ
  pub response_time : ℕ
  pub rtt : ℕ

unfoldable pub new_client_transaction : Bytes → ℕ → ClientTransaction
new_client_transaction request_data expected_response_size = record {
  response_buf = [];
  state = idle;
  request = request_data;
  response_size = expected_response_size;
  response_span = expected_response_size;
  signal = false;
  request_time = 0;
  response_time = 0;
  rtt = 0;
}

abbrev pub is_done : TransactionState → Bool
is_done done = true
is_done _ = false

abbrev pub is_scheduled : TransactionState → Bool
is_scheduled scheduled = true
is_scheduled _ = false

-- `waitUntil`, at the moment when it returns: it takes the signal if it is there by then.
unfoldable pub wait_until : ClientTransaction → ClientTransaction × Bool
wait_until t = if t.signal then (record t { signal = false }, is_done t.state) else (t, false)

unfoldable pub get_response : ClientTransaction → Bytes
get_response t = if is_done t.state then take t.response_size t.response_buf else []
