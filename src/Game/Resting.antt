-- ===== src/Game/Resting.antt =====
-- The program between two updates (src/main.cpp): no client's thread is at work.
use mniam_headless.Base.{
  ap, ◌∙◌, Option, none, some, ◌==◌, sym, subst, ◌≡◌, ℕ, refl, Bool, true, false, ◌&&◌, List, [],
  ◌∷◌, length, ltb, if◌then◌else◌, arith, All,
}
use mniam_headless.Base.OrderedMap.{find, find-emplace, emplace, Ascends, emplace-Ascends}
use mniam_headless.Connection.{
  Bytes, Client, Incoming, connection, error, Server, accept_step, admit, new_client,
}
use mniam_headless.Connection.Rounds.{IsReady, names}
use mniam_headless.Connection.Postbox.{hears}
use mniam_headless.Connection.Membership.{Named, emplace-Named}
use mniam_headless.Connection.Telling.{names-Ascends}
use mniam_headless.Connection.Runs.{IsStore}
use mniam_headless.Game.Serving.{Program, arrive}

-- The clients stand under their own ids, in ascending order, and those whose threads go on have empty queues.
pub record IsAtRest (m : List (ℕ × Client)) : Type 0 where
  pub is_ordered : Ascends 0 m
  pub named : Named m
  pub are_ready : All (λ e. IsReady e.1) m

pub record IsOrderly (p : Program) : Type 0 where
  pub at_rest : IsAtRest p.server.clients
  pub is_store : IsStore p.store

-- The clients' own ids are those of their places.
names-Named : (m m' : List (ℕ × Client)) → Named m → names m' ≡ names m → Named m'
names-Named m m' h e = own m' (subst (All (λ (e : ℕ × ℕ). e.1 ≡ e.0)) (sym e) (owned m h))
  where
    owned : (m : List (ℕ × Client)) → Named m → All (λ (e : ℕ × ℕ). e.1 ≡ e.0) (names m)
    owned [] h = tt
    owned ((k, c) ∷ m) h = (h.0, owned m h.1)

    own : (m : List (ℕ × Client)) → All (λ (e : ℕ × ℕ). e.1 ≡ e.0) (names m) → Named m
    own [] h = tt
    own ((k, c) ∷ m) h = (h.0, own m h.1)

-- The same clients in other states.
pub names-IsAtRest :
    (m m' : List (ℕ × Client))
    → IsAtRest m
    → names m' ≡ names m
    → All (λ e. IsReady e.1) m'
    → IsAtRest m'
names-IsAtRest m m' h e ready = record {
  is_ordered = names-Ascends m m' h.is_ordered e;
  named = names-Named m m' h.named e;
  are_ready = ready;
}

emplace-IsReady :
    (k : ℕ) (c : Client) (m : List (ℕ × Client))
    → IsReady c
    → All (λ e. IsReady e.1) m
    → All (λ e. IsReady e.1) (emplace k c m)
unfolding emplace
emplace-IsReady k c [] now h = (now, tt)
emplace-IsReady k c ((j, d) ∷ m) now h = ground (arith, emplace-IsReady k c m now h.1)

admit-IsAtRest :
    (now : ℕ) (peer : Bytes) (v : Server) → IsAtRest v.clients → IsAtRest (admit now peer v).clients
unfolding admit
admit-IsAtRest now peer v h = record {
  is_ordered = emplace-Ascends v.next_client_id 0 _ v.clients (omega arith) h.is_ordered;
  named = emplace-Named v.next_client_id _ v.clients (unfold new_client in refl) h.named;
  are_ready =
      emplace-IsReady v.next_client_id _ v.clients (λ e. unfold new_client in refl) h.are_ready;
}

if-IsAtRest :
    (b : Bool) (v w : Server)
    → IsAtRest v.clients
    → IsAtRest w.clients
    → IsAtRest (if b then v else w).clients
if-IsAtRest true v w h h' = h
if-IsAtRest false v w h h' = h'

accept_step-IsAtRest :
    (now : ℕ) (i : Incoming) (v : Server)
    → IsAtRest v.clients
    → IsAtRest (accept_step now i v).clients
unfolding accept_step
accept_step-IsAtRest now error v h = if-IsAtRest v.listening _ v h h
accept_step-IsAtRest now (connection peer) v h =
    if-IsAtRest v.listening _ v
      (if-IsAtRest (v.is_accepting && ltb (length v.clients) v.client_limit) _ v
        (admit-IsAtRest now peer v h) h)
      h

pub arrive-IsAtRest :
    (is : List (ℕ × Incoming)) (v : Server) → IsAtRest v.clients → IsAtRest (arrive is v).clients
unfolding arrive
arrive-IsAtRest [] v h = h
arrive-IsAtRest ((now, i) ∷ is) v h =
    arrive-IsAtRest is (accept_step now i v) (accept_step-IsAtRest now i v h)

-- A client that listens is not touched by those who arrive.
found-hears :
    (o : Option Client) (c : Client) (b : Bool)
    → hears o ≡ true
    → hears (elim o [ some w ↦ some w | none ↦ if b then some c else none ]) ≡ true
found-hears none c b on = cc on
found-hears (some w) c b on = on

abbrev KeepsListening : ℕ → Server → Server → Type 0
KeepsListening j v v' = hears (find j v.clients) ≡ true → hears (find j v'.clients) ≡ true

if-KeepsListening :
    (j : ℕ) (b : Bool) (v w : Server)
    → KeepsListening j w v
    → KeepsListening j w (if b then v else w)
if-KeepsListening j true v w h = h
if-KeepsListening j false v w h = λ on. on

accept_step-KeepsListening :
    (j now : ℕ) (i : Incoming) (v : Server)
    → IsAtRest v.clients
    → KeepsListening j v (accept_step now i v)
unfolding accept_step
accept_step-KeepsListening j now error v h = if-KeepsListening j v.listening _ v (λ on. on)
accept_step-KeepsListening j now (connection peer) v h = if-KeepsListening j v.listening _ v (
    if-KeepsListening j (v.is_accepting && ltb (length v.clients) v.client_limit) _ v (λ on.
      unfold admit in
      ap hears (find-emplace j v.next_client_id 0 _ v.clients h.is_ordered)
      ∙ found-hears (find j v.clients) _ (v.next_client_id == j) on))

pub arrive-KeepsListening :
    (j : ℕ) (is : List (ℕ × Incoming)) (v : Server)
    → IsAtRest v.clients
    → KeepsListening j v (arrive is v)
unfolding arrive
arrive-KeepsListening j [] v h on = on
arrive-KeepsListening j ((now, i) ∷ is) v h on =
    arrive-KeepsListening j is (accept_step now i v) (accept_step-IsAtRest now i v h)
      (accept_step-KeepsListening j now i v h on)
