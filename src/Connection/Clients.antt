-- ===== src/Connection/Clients.antt =====
-- `ConnectionClient` of src/connection_client.cpp: the queue of transactions that the server fills
-- and the client's thread empties, and the log of round trip times.
-- sockpp's socket and the clock are arguments: what a write and a read return, and when.
use mniam_headless.Base.{
  ℕ, suc, ◌+◌, ◌-◌, ◌/◌, ◌%◌, ◌^◌, Bool, true, false, not, List, [], ◌∷◌, ◌++◌, length, take, ltb,
  ◌==◌, if◌then◌else◌,
}
use mniam_headless.Base.Int.{ℤ, pos, negsuc}
use mniam_headless.Connection.Requests.{
  Bytes, ClientTransaction, scheduled, waiting, done, timeout, is_scheduled,
}

-- `transactions` holds references to client transactions, as addresses.
pub record Client : Type 0 where
  pub client_id : ℕ
  pub active : Bool
  pub ip : Bytes
  pub stop_requested : Bool
  pub transactions : List ℕ
  pub rtt_log : List ℕ
  pub connection_time : ℕ
  pub disconnection_time : ℕ

-- The constructor, once it has returned.
unfoldable pub new_client : ℕ → Bytes → ℕ → Client
new_client client_id peer_address now = record {
  client_id = client_id;
  active = true;
  ip = peer_address;
  stop_requested = false;
  transactions = [];
  rtt_log = [];
  connection_time = now;
  disconnection_time = 0;
}

-- `runTransaction` on the transaction at an address: the client, the transaction and the result.
unfoldable pub enqueue : ℕ → ClientTransaction → Client → Client × ClientTransaction × Bool
enqueue address t c =
    if c.active
    then (
      record c { transactions = c.transactions ++ address ∷ [] },
      record t { state = scheduled },
      true,
    )
    else (c, t, false)

-- `while (rttLog.size() > 10) rttLog.pop_front();`
unfoldable pub trim_log : List ℕ → List ℕ
trim_log [] = []
trim_log (x ∷ xs) = let rest = trim_log xs in if ltb 10 (suc (length xs)) then rest else x ∷ xs

-- The log holds `unsigned int`.
unfoldable pub notify_rtt : ℕ → Client → Client
unfolding trim_log
notify_rtt rtt c = record c { rtt_log = trim_log (c.rtt_log ++ rtt % 2 ^ 32 ∷ []) }

-- `std::accumulate` from an `int` 0 over `unsigned int`: the sum wraps.
unfoldable pub accumulate : ℕ → List ℕ → ℕ
accumulate sum [] = sum
accumulate sum (x ∷ xs) = accumulate ((sum + x) % 2 ^ 32) xs

unfoldable pub get_rtt : Client → ℕ
unfolding accumulate
get_rtt c = if ltb 0 (length c.rtt_log) then accumulate 0 c.rtt_log / length c.rtt_log else 0

-- The system clock is taken not to go backwards.
unfoldable pub get_connection_time : ℕ → Client → ℕ
get_connection_time now c = now - c.connection_time

unfoldable pub get_disconnection_time : ℕ → Client → ℕ
get_disconnection_time now c = if c.active then 0 else now - c.disconnection_time

-- A signed result as `size_t`, for the comparison with a size.
abbrev pub to_size_t : ℤ → ℕ
to_size_t (pos n) = n
to_size_t (negsuc n) = 2 ^ 64 - suc n

-- What the socket and the clock answer while one transaction runs.
pub record Exchange : Type 0 where
  pub sent_at : ℕ
  pub written : ℤ
  pub read_count : ℤ
  pub read_data : Bytes
  pub received_at : ℕ

-- The end of a transaction that expected a response: the round trip time, the signal, and a
-- request to stop the thread if the response size is 0 by now.
unfoldable pub finish_response : Exchange → Client → ClientTransaction → Client × ClientTransaction
unfolding notify_rtt
finish_response x c t =
    let rtt = x.received_at - t.request_time in
    let c' = notify_rtt rtt c in
    (
      record c' { stop_requested = if t.response_size == 0 then true else c'.stop_requested },
      record t { response_time = x.received_at; rtt = rtt; signal = true },
    )

-- `DefaultTransactionResponseValidator`, for transactions that are given no validator.
unfoldable pub default_validator : {V : Type 0} → ℕ → Bytes → V → V × Bool
default_validator client_id response_data v = (v, true)

-- The validator of a transaction may keep the response: it works on a state `V`.
module _ {V : Type 0} (validator : ℕ → Bytes → V → V × Bool) where
  -- The verdict on a response of the expected size.
  unfoldable pub judge : ℕ → ClientTransaction → V → ClientTransaction × V
  judge client_id t v =
      let (v', valid) = validator client_id (take t.response_size t.response_buf) v in
      if valid
      then (record t { state = done }, v')
      else (record t { response_size = 0; state = timeout }, v')

  unfoldable pub receive : Exchange → ℕ → ClientTransaction → V → ClientTransaction × V
  unfolding judge
  receive x client_id t v =
      let t' = record t { response_buf = x.read_data } in
      if t.response_size == to_size_t x.read_count
      then judge client_id t' v
      else (record t' { state = timeout }, v)

  -- The branch in which a response is expected.
  unfoldable pub await_response :
      Exchange → Client → ClientTransaction → V → Client × ClientTransaction × V
  unfolding receive finish_response
  await_response x c t v =
      let (t', v') = receive x c.client_id (record t { state = waiting }) v in
      let (c'', t'') = finish_response x c t' in (c'', t'', v')

  -- The body of the thread's loop on a transaction that is scheduled.
  unfoldable pub exchange :
      Exchange → Client → ClientTransaction → V → Client × ClientTransaction × V
  unfolding await_response
  exchange x c t v =
      let t' = record t { request_time = x.sent_at } in
      let answered = await_response x c t' v in
      if not (length t.request == to_size_t x.written)
      then (record c { stop_requested = true }, record t' { state = timeout; signal = true }, v)
      else (if ltb 0 t.response_size
          then answered
          else (c, record t' { state = done; signal = true }, v))

  -- Any other state is passed over.
  unfoldable pub serve : Exchange → Client → ClientTransaction → V → Client × ClientTransaction × V
  unfolding exchange
  serve x c t v = if is_scheduled t.state then exchange x c t v else (c, t, v)

-- The end of the thread.
unfoldable pub close_connection : ℕ → Client → Client
close_connection now c = record c { disconnection_time = now; active = false }
