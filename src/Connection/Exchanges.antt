-- ===== src/Connection/Exchanges.antt =====
-- What the thread of a client makes of one transaction, on every answer of the socket.
use mniam_headless.Base.{
  ℕ, ◌<◌, ◌≡◌, Bool, true, not, ◌&&◌, ◌||◌, take, length, ltb, ◌==◌, if◌then◌else◌, arith,
}
use mniam_headless.Connection.Requests.{Bytes, ClientTransaction, done, timeout, scheduled}
use mniam_headless.Connection.Clients.{Client, Exchange, to_size_t, serve}

-- The whole request was written.
abbrev pub is_sent : Exchange → ClientTransaction → Bool
is_sent x t = length t.request == to_size_t x.written

-- The whole response was read.
abbrev pub is_read : Exchange → ClientTransaction → Bool
is_read x t = t.response_size == to_size_t x.read_count

module _ {V : Type 0} (validator : ℕ → Bytes → V → V × Bool) where
  abbrev pub is_valid : Exchange → Client → ClientTransaction → V → Bool
  is_valid x c t v = (validator c.client_id (take t.response_size x.read_data) v).1

  -- A transaction succeeds if its request is sent and, where a response is expected, a valid one is
  -- read.
  abbrev pub succeeds : Exchange → Client → ClientTransaction → V → Bool
  succeeds x c t v =
      is_sent x t && (not (ltb 0 t.response_size) || (is_read x t && is_valid x c t v))

  -- The client hangs up if the request cannot be sent or the response is not valid.
  abbrev pub hangs_up : Exchange → Client → ClientTransaction → V → Bool
  hangs_up x c t v =
      not (is_sent x t) || (ltb 0 t.response_size && (is_read x t && not (is_valid x c t v)))

  -- A scheduled transaction ends as done if its request is sent and, where a response is expected,
  -- one of that size is read and valid; in all other cases it ends as timed out. In all cases the
  -- end is signalled.
  pub serve_outcome :
      (x : Exchange) (c : Client) (t : ClientTransaction) (v : V)
      → t.state ≡ scheduled
      → ((serve validator x c t v).1.state ≡ (if succeeds x c t v then done else timeout))
        × ((serve validator x c t v).1.signal ≡ true)
  unfolding serve
  serve_outcome x c t v h = ground arith

  -- The thread of the client is asked to stop exactly if it was before, if the request of a scheduled
  -- transaction cannot be sent, or if its response has the right size and is not valid.
  pub serve-stop_requested :
      (x : Exchange) (c : Client) (t : ClientTransaction) (v : V)
      → t.state ≡ scheduled
      → (serve validator x c t v).0.stop_requested ≡ (c.stop_requested || hangs_up x c t v)
  unfolding serve
  serve-stop_requested x c t v h = ground arith

  -- Only a response of the right size comes before the validator.
  pub serve-kept :
      (x : Exchange) (c : Client) (t : ClientTransaction) (v : V)
      → t.state ≡ scheduled
      → 0 < t.response_size
      → (serve validator x c t v).2 ≡ (
          if is_sent x t && is_read x t
          then (validator c.client_id (take t.response_size x.read_data) v).0
          else v)
  unfolding serve
  serve-kept x c t v h more = ground arith
