-- ===== src/Connection/Hubs.antt =====
-- `serverThreadFunc` of src/connection_server.cpp, the clients' threads of src/connection_client.cpp and
-- the thread that runs transactions, on one server: a step is what one of them does next. The server's
-- thread looks at the number of clients before it takes the lock, so other steps can come between the
-- look and the new client. A thread that uses a client transaction that no longer exists has no step. A client is removed
-- in one step, without a last round of its thread before the destructor has joined it.
use mniam_headless.Base.{
  ℕ, ◌+◌, ◌^◌, ◌<◌, ◌≡◌, ◌&&◌, Bool, true, false, Option, none, some, [], length, ltb, ◌==◌,
  if◌then◌else◌,
}
use mniam_headless.Base.OrderedMap.{find, assign}
use mniam_headless.Connection.Requests.{Bytes}
use mniam_headless.Connection.Clients.{Client}
use mniam_headless.Connection.Transactions.{Store}
use mniam_headless.Connection.Servers.{Server, new_server, admit}
use mniam_headless.Connection.Registry.{Operation, operate}
use mniam_headless.Connection.Lifetime.{Life, LifeStep, Running, looping, built}

-- `pending` is the peer of a connection that the server thread has found room for, and for which it waits for
-- the lock; `threads` is how far the thread of the client with each id is.
pub record Hub : Type 0 where
  pub server : Server
  pub pending : Option Bytes
  pub store : Store
  pub threads : ℕ → Running

abbrev pub new_hub : ℕ → Hub
new_hub limit = record {
  server = new_server limit;
  pending = none;
  store = record { cells = []; fresh = 0 };
  threads = λ k. looping;
}

-- The test before the lock.
unfoldable pub look : Bytes → Server → Option Bytes
look peer v = if v.is_accepting && ltb (length v.clients) v.client_limit then some peer else none

abbrev pub with_thread : ℕ → Running → (ℕ → Running) → ℕ → Running
with_thread k r threads j = if k == j then r else threads j

-- A connection that was waiting is added, with a thread of its own. The constructor is one step: it runs
-- under the lock, and no other thread but the client's own, which waits in its loop, has the client yet.
unfoldable pub enter : ℕ → Bytes → Hub → Hub
unfolding admit
enter now peer h = record h {
  server = admit now peer h.server;
  pending = none;
  threads = with_thread h.server.next_client_id looping h.threads;
}

unfoldable pub operate_on : Operation → Hub → Hub
unfolding operate
operate_on o h = let (v, s) = operate o (h.server, h.store) in record h { server = v; store = s }

module _ {V : Type 0} where
  -- The client `c` under the id `k`, whose constructor has returned; `kept` is the validators' state.
  abbrev pub life_of : V → ℕ → Client → Hub → Life V
  life_of kept k c h = record {
    session = record { client = c; store = h.store; kept = kept };
    building = built;
    running = h.threads k;
  }

  unfoldable pub with_life : ℕ → Life V → Hub → Hub
  with_life k l h = record h {
    server = record h.server { clients = assign k l.session.client h.server.clients };
    store = l.session.store;
    threads = with_thread k l.running h.threads;
  }

-- What one of the threads does next.
pub data HubStep (V : Type 0) : Hub → Hub → Type 0 where
  looked :
      {h : Hub} (peer : Bytes)
      → h.pending ≡ none
      → h.server.listening ≡ true
      → HubStep V h (record h { pending = look peer h.server })
  failed :
      {h : Hub}
      → h.pending ≡ none
      → HubStep V h (record h { server = record h.server { listening = false } })
  admitted :
      {h : Hub} (now : ℕ) (peer : Bytes)
      → h.pending ≡ some peer
      → h.server.next_client_id + 1 < 2 ^ 32
      → HubStep V h (enter now peer h)
  operated : {h : Hub} (o : Operation) → HubStep V h (operate_on o h)
  moved :
      {h : Hub} (validator : ℕ → Bytes → V → V × Bool) (kept : V) (k : ℕ) (c : Client) (l : Life V)
      → find k h.server.clients ≡ some c
      → LifeStep validator (life_of kept k c h) l
      → HubStep V h (with_life k l h)

-- What the steps lead to, in any order they can come in.
pub data HubSteps (V : Type 0) (h : Hub) : Hub → Type 0 where
  stays : HubSteps V h h
  then_step : {u w : Hub} → HubSteps V h u → HubStep V u w → HubSteps V h w

-- What they lead to from a new server.
abbrev pub HubReach : Type 0 → ℕ → Hub → Type 0
HubReach V limit h = HubSteps V (new_hub limit) h
