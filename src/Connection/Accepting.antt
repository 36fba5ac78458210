-- ===== src/Connection/Accepting.antt =====
-- The server's map of clients in every order of the threads' steps (src/connection_server.cpp).
use mniam_headless.Base.{
  ℕ, ◌+◌, ◌-◌, ◌≤◌, ◌<◌, ◌≡◌, refl, ap, subst, ◌∙◌, ◌&&◌, Bool, Bool-cases, inl, inr, List, [], ◌∷◌,
  Option, none, some, length, ltb, arith,
}
use mniam_headless.Base.OrderedMap.{find}
use mniam_headless.Connection.Requests.{Bytes, ClientTransaction}
use mniam_headless.Connection.Clients.{Client, Exchange, serve}
use mniam_headless.Connection.Transactions.{Store, reset}
use mniam_headless.Connection.Thread.{Session, serve_at, serve_queue}
use mniam_headless.Connection.Servers.{Server, Run, new_server, run_with_client, admit}
use mniam_headless.Connection.Membership.{IsRegistry, admit-IsRegistry, assign-IsKept}
use mniam_headless.Connection.Registry.{
  Operation, run_with_all, run_with_one, wait, end_transaction, remove, remove_inactive, reject,
  accept, operate, operate-IsRegistry, new_server-IsRegistry,
}
use mniam_headless.Connection.Lifetime.{
  Life, LifeStep, activate, deactivate, hand_over, leave, request_stop, round, handed_over,
  take_connection_time, take_disconnection_time,
}
use mniam_headless.Connection.Hubs.{
  Hub, HubStep, HubReach, stays, then_step, look, looked, failed, admitted, operated, moved, enter,
  operate_on, with_life,
}

abbrev with_limit : ℕ → Server → Server
with_limit n v = record v { client_limit = n }

run_with_client-limit :
    (o : Option Client) (k n : ℕ) (v : Server) (r : Run)
    → let (v', r', outcome) = run_with_client o k v r in
      run_with_client o k (with_limit n v) r ≡ (with_limit n v', r', outcome)
unfolding run_with_client
run_with_client-limit none k n v r = refl
run_with_client-limit (some c) k n v r = refl

-- No operation looks at the limit.
operate-limit :
    (o : Operation) (n : ℕ) (v : Server) (s : Store)
    → (operate o (with_limit n v, s)).0 ≡ with_limit n (operate o (v, s)).0
unfolding operate
operate-limit (run_with_all t) n v s = refl
operate-limit (run_with_one k t) n v s =
    let (t', s') = reset t s in
    ap (λ o. o.0)
      (run_with_client-limit (find k v.clients) k n v (record { transaction = t'; store = s' }))
operate-limit (wait t) n v s = refl
operate-limit (end_transaction t) n v s = refl
operate-limit (remove k) n v s = refl
operate-limit remove_inactive n v s = refl
operate-limit reject n v s = refl
operate-limit accept n v s = refl

-- There is room for the pending connection.
abbrev pub room_for : Option Bytes → ℕ
room_for none = 0
room_for (some peer) = 1

record IsHub (limit : ℕ) (h : Hub) : Type 0 where
  same_limit : h.server.client_limit ≡ limit
  room : room_for h.pending ≤ limit
  registry : IsRegistry (with_limit (limit - room_for h.pending) h.server)

relimit :
    (m n : ℕ) (v : Server)
    → length v.clients ≤ n
    → IsRegistry (with_limit m v)
    → IsRegistry (with_limit n v)
relimit m n v few h = record {
  ascends = h.ascends;
  below = h.below;
  named = h.named;
  limited = few;
}

look-IsHub :
    (limit : ℕ) (peer : Bytes) (h : Hub)
    → h.pending ≡ none
    → IsHub limit h
    → IsHub limit (record h { pending = look peer h.server })
unfolding look
look-IsHub limit peer h e i =
    let v = h.server in
    let few : length v.clients ≤ limit = omega (arith, i.registry.limited) in
    elim (Bool-cases (v.is_accepting && ltb (length v.clients) v.client_limit)) [
      | inl fits ↦
          let free : length v.clients < limit = ground (arith, i.same_limit) in
          rw fits (record {
            same_limit = i.same_limit;
            room = omega arith;
            registry = relimit _ (limit - 1) v (omega arith) i.registry;
          })
      | inr full ↦ rw full (record {
        same_limit = i.same_limit;
        room = omega arith;
        registry = relimit _ (limit - 0) v (omega arith) i.registry;
      })
    ]

operate-client_limit :
    (o : Operation) (v : Server) (s : Store) → (operate o (v, s)).0.client_limit ≡ v.client_limit
operate-client_limit o v s =
    ap (λ (w : Server). w.client_limit) (operate-limit o v.client_limit v s)

module _ {V : Type 0} (validator : ℕ → Bytes → V → V × Bool) where
  serve-client_id :
      (x : Exchange) (c : Client) (t : ClientTransaction) (v : V)
      → (serve validator x c t v).0.client_id ≡ c.client_id
  unfolding serve
  serve-client_id x c t v = ground arith

  serve_at-client_id :
      (x : Exchange) (a : ℕ) (o : Option ClientTransaction) (s s' : Session V)
      → serve_at validator x a o s ≡ some s'
      → s'.client.client_id ≡ s.client.client_id
  unfolding serve_at
  serve_at-client_id x a none s s' e = absurd (cc e)
  serve_at-client_id x a (some t) s s' e = cc (e, serve-client_id x s.client t s.kept)

  serve_queue-client_id :
      (x : Exchange) (q : List ℕ) (s s' : Session V)
      → serve_queue validator x q s ≡ some s'
      → s'.client.client_id ≡ s.client.client_id
  unfolding serve_queue
  serve_queue-client_id x [] s s' e = cc e
  serve_queue-client_id x (a ∷ q) s s' e = serve_at-client_id x a (find a s.store.cells) _ s' e

  -- A client has one id for its life.
  LifeStep-client_id :
      {l l' : Life V}
      → LifeStep validator l l'
      → l'.session.client.client_id ≡ l.session.client.client_id
  unfolding hand_over
  LifeStep-client_id (activate b) = refl
  LifeStep-client_id (take_connection_time now b) = refl
  LifeStep-client_id (handed_over {l} a t b found) = ground arith
  LifeStep-client_id (request_stop b) = refl
  LifeStep-client_id (round {l} {s} x r going served) =
      serve_queue-client_id x l.session.client.transactions l.session s served
  LifeStep-client_id (leave r asked) = refl
  LifeStep-client_id (take_disconnection_time now r) = refl
  LifeStep-client_id (deactivate r) = refl

step-IsHub : {V : Type 0} (limit : ℕ) {h h' : Hub} → HubStep V h h' → IsHub limit h → IsHub limit h'
unfolding enter admit operate_on with_life
step-IsHub limit (looked {h} peer e listening) i = look-IsHub limit peer h e i
step-IsHub limit (failed e) i = record {
  same_limit = i.same_limit;
  room = i.room;
  registry = record {
    ascends = i.registry.ascends;
    below = i.registry.below;
    named = i.registry.named;
    limited = i.registry.limited;
  };
}
step-IsHub limit (admitted {h} now peer e small) i =
    let one = ap room_for e in
    let room : length h.server.clients < limit = omega (arith, i.registry.limited, i.room, one) in
    let r =
      admit-IsRegistry now peer h.server small (omega (arith, room, i.same_limit))
        (relimit _ h.server.client_limit h.server (omega (arith, room, i.same_limit)) i.registry) in
    record {
      same_limit = i.same_limit;
      room = omega arith;
      registry =
          relimit _ (limit - 0) (admit now peer h.server) (omega (arith, r.limited, i.same_limit))
            r;
    }
step-IsHub limit (operated {h} o) i = record {
  same_limit = operate-client_limit o h.server h.store ∙ i.same_limit;
  room = i.room;
  registry =
      subst IsRegistry (operate-limit o (limit - room_for h.pending) h.server h.store) (
        operate-IsRegistry o (with_limit (limit - room_for h.pending) h.server) h.store i.registry);
}
step-IsHub limit (moved {h} validator kept k c l found step) i =
    let same =
      assign-IsKept h.server.next_client_id 0 k l.session.client c h.server.clients found
        (LifeStep-client_id validator step) in
    record {
      same_limit = i.same_limit;
      room = i.room;
      registry = record {
        ascends = same.ascends i.registry.ascends;
        below = same.below i.registry.below;
        named = same.named i.registry.named;
        limited = omega (arith, same.size, i.registry.limited);
      };
    }

HubReach-IsHub : {V : Type 0} (limit : ℕ) {h : Hub} → HubReach V limit h → IsHub limit h
unfolding new_server
HubReach-IsHub limit stays = record {
  same_limit = refl;
  room = omega arith;
  registry =
      relimit limit (limit - 0) (new_server limit) (omega arith) (new_server-IsRegistry limit);
}
HubReach-IsHub limit (then_step before s) = step-IsHub limit s (HubReach-IsHub limit before)

-- In every state that a new server comes to, with the operations of the server, the steps of its own thread and
-- those of its clients' threads in any order, also between the server thread's look at the number of
-- clients and its adding of one, until the counter of ids wraps: the clients, active or not, stand under their
-- own distinct ids, in ascending order and below the next id, and they are, with the one that is about to be
-- added, no more than the limit. The orders are those in which no thread uses a client transaction that
-- no longer exists.
pub HubReach-IsRegistry :
    {V : Type 0} (limit : ℕ) (h : Hub)
    → HubReach V limit h
    → IsRegistry h.server × (length h.server.clients + room_for h.pending ≤ limit)
HubReach-IsRegistry limit h r =
    let i = HubReach-IsHub limit r in
    let few : length h.server.clients + room_for h.pending ≤ limit =
      omega (arith, i.registry.limited, i.room) in
    (relimit _ h.server.client_limit h.server (omega (arith, few, i.same_limit)) i.registry, few)
