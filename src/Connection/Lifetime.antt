-- ===== src/Connection/Lifetime.antt =====
-- The life of a `ConnectionClient` (src/connection_client.cpp) while three threads work on it: the
-- server's, which constructs it, the one the constructor starts, and the one that runs transactions
-- and removes clients. A client that is being constructed is used by the first two alone: the server
-- holds the lock on its clients until the constructor has returned.
use mniam_headless.Base.{ℕ, ◌≡◌, refl, Bool, true, false, some}
use mniam_headless.Base.OrderedMap.{find, assign}
use mniam_headless.Connection.Requests.{Bytes, ClientTransaction}
use mniam_headless.Connection.Clients.{Client, Exchange, new_client, enqueue}
use mniam_headless.Connection.Transactions.{Store}
use mniam_headless.Connection.Thread.{Session, serve_queue}

-- How far the constructor is: the thread is started; the client is active; the time is taken.
pub data Building : Type 0 where
  started activated built : Building

-- How far the thread is: in its loop; past it; past taking the time; at its end.
pub data Running : Type 0 where
  looping leaving timed ended : Running

abbrev pub is_started : Building → Bool
is_started started = true
is_started _ = false

abbrev pub is_built : Building → Bool
is_built built = true
is_built _ = false

abbrev pub is_looping : Running → Bool
is_looping looping = true
is_looping _ = false

abbrev pub is_ended : Running → Bool
is_ended ended = true
is_ended _ = false

pub record Life (V : Type 0) : Type 0 where
  pub session : Session V
  pub building : Building
  pub running : Running

module _ {V : Type 0} where
  abbrev pub with_client : Client → Life V → Life V
  with_client c l = record l { session = record l.session { client = c } }

  -- `active` is not initialised when the thread is started.
  unfoldable pub newborn : ℕ → Bytes → Bool → Store → V → Life V
  unfolding new_client
  newborn client_id peer active store kept = record {
    session = record {
      client = record (new_client client_id peer 0) { active = active };
      store = store;
      kept = kept;
    };
    building = started;
    running = looping;
  }

  -- A transaction, already in memory, is handed to the client.
  unfoldable pub hand_over : ℕ → ClientTransaction → Life V → Life V
  unfolding enqueue
  hand_over a t l =
      let (c, t', _) = enqueue a t l.session.client in
      record l {
        session = record l.session {
          client = c;
          store = record l.session.store { cells = assign a t' l.session.store.cells };
        };
      }

module _ {V : Type 0} (validator : ℕ → Bytes → V → V × Bool) where
  -- What one of the threads does next.
  pub data LifeStep : Life V → Life V → Type 0 where
    activate :
        {l : Life V}
        → l.building ≡ started
        → LifeStep l (record (with_client (record l.session.client { active = true }) l) {
          building = activated;
        })
    take_connection_time :
        {l : Life V} (now : ℕ)
        → l.building ≡ activated
        → LifeStep l (record (with_client (record l.session.client { connection_time = now }) l) {
          building = built;
        })
    handed_over :
        {l : Life V} (a : ℕ) (t : ClientTransaction)
        → l.building ≡ built
        → find a l.session.store.cells ≡ some t
        → LifeStep l (hand_over a t l)
    request_stop :
        {l : Life V}
        → l.building ≡ built
        → LifeStep l (with_client (record l.session.client { stop_requested = true }) l)
    round :
        {l : Life V} {s : Session V} (x : Exchange)
        → l.running ≡ looping
        → l.session.client.stop_requested ≡ false
        → serve_queue validator x l.session.client.transactions l.session ≡ some s
        → LifeStep l (record l { session = s })
    leave :
        {l : Life V}
        → l.running ≡ looping
        → l.session.client.stop_requested ≡ true
        → LifeStep l (record l { running = leaving })
    take_disconnection_time :
        {l : Life V} (now : ℕ)
        → l.running ≡ leaving
        → LifeStep l
            (record (with_client (record l.session.client { disconnection_time = now }) l) {
              running = timed;
            })
    deactivate :
        {l : Life V}
        → l.running ≡ timed
        → LifeStep l (record (with_client (record l.session.client { active = false }) l) {
          running = ended;
        })

  -- What the steps lead to, in any order they can come in.
  pub data Lives : Life V → Type 0 where
    born :
        (client_id : ℕ) (peer : Bytes) (active : Bool) (store : Store) (kept : V)
        → Lives (newborn client_id peer active store kept)
    lived : {l l' : Life V} → Lives l → LifeStep l l' → Lives l'

pub was_started : (b : Building) → is_built b ≡ true → is_started b ≡ false
was_started started e = absurd (cc e)
was_started activated e = refl
was_started built e = refl
