-- ===== src/Connection/Telling.antt =====
-- A transaction that is run with one request after another; without response, what each client's socket
-- is handed, against clients that only listen.
use mniam_headless.Base.{
  ℕ, suc, ◌≡◌, refl, ap, sym, subst, ◌∙◌, Bool, true, List, [], ◌∷◌, ◌++◌, map, Option, some, All,
}
use mniam_headless.Base.OrderedMap.{Ascends}
use mniam_headless.Connection.Requests.{Bytes}
use mniam_headless.Connection.Clients.{Client, Exchange}
use mniam_headless.Connection.Transactions.{Store, Transaction, reset, wait_for_finish}
use mniam_headless.Connection.Servers.{Server, run_transaction}
use mniam_headless.Connection.Scheduling.{after_reset, after_reset-IsRun}
use mniam_headless.Connection.Runs.{IsStore, schedule_all-Looped}
use mniam_headless.Connection.Handing.{schedule_all-Handed}
use mniam_headless.Connection.Asking.{wait_all-IsStore, reset-IsStore}
use mniam_headless.Connection.Rounds.{is_listening, IsReady, names}
use mniam_headless.Connection.Talking.{Talked, Told, rounds, wait_then, told_before, tell}
use mniam_headless.Connection.Postbox.{
  listeners, told_to, listens, to_client, to_client-append, to_client-told_to,
}
use mniam_headless.Connection.Listening.{Cooperative, going_on, Rounded, rounds-Rounded}

-- The listeners through a sequence of requests.
unfoldable pub told_all : (ℕ → ℕ → Exchange) → ℕ → List Bytes → List (ℕ × Bool) → List (ℕ × Bytes)
told_all exchanges i [] ls = []
told_all exchanges i (request ∷ requests) ls =
    told_to request ls ++ told_all exchanges (suc i) requests (going_on (exchanges i) request ls)

unfoldable pub left_after : (ℕ → ℕ → Exchange) → ℕ → List Bytes → List (ℕ × Bool) → List (ℕ × Bool)
left_after exchanges i [] ls = ls
left_after exchanges i (request ∷ requests) ls =
    left_after exchanges (suc i) requests (going_on (exchanges i) request ls)

-- The answers of one client's socket to a sequence of requests are cooperative.
abbrev pub CooperatesWith :
    {V : Type 0} → (ℕ → Bytes → V → V × Bool) → ℕ → (ℕ → Exchange) → ℕ → List Bytes → Type 0
CooperatesWith validator size x i [] = Unit {0}
CooperatesWith validator size x i (request ∷ requests) =
    Cooperative validator size (x i) request × CooperatesWith validator size x (suc i) requests

-- What a phase of transactions comes to.
pub record Phased {V : Type 0} (validator : ℕ → Bytes → V → V × Bool) (exchanges : ℕ → ℕ → Exchange)
    (i : ℕ) (requests : List Bytes) (v : Server) (t : Transaction) (o : Option (Told V))
    : Type 0 where
  pub after : Told V
  pub result : o ≡ some after
  pub same_names : names after.server.clients ≡ names v.clients
  pub are_ready : All (λ (e : ℕ × Client). IsReady e.1) after.server.clients
  pub is_store : IsStore after.store
  pub cooperative :
      (j : ℕ)
      → CooperatesWith validator t.response_size (λ k. exchanges k j) i requests
      → listens j (listeners v.clients) ≡ true
      → (to_client j after.writes ≡ requests) × (listens j (listeners after.server.clients) ≡ true)
  pub heard :
      t.response_size ≡ 0
      → (after.writes ≡ told_all exchanges i requests (listeners v.clients))
        × (listeners after.server.clients ≡ left_after exchanges i requests (listeners v.clients))

module _ {A B : Type 0} (f : ℕ × A → B) where
  pub map-Ascends : (b : ℕ) (m : List (ℕ × A)) → Ascends b m → Ascends b (map (λ e. (e.0, f e)) m)
  map-Ascends b [] h = tt
  map-Ascends b ((k, v) ∷ m) h = (h.0, map-Ascends (suc k) m h.1)

  Ascends-map : (b : ℕ) (m : List (ℕ × A)) → Ascends b (map (λ e. (e.0, f e)) m) → Ascends b m
  Ascends-map b [] h = tt
  Ascends-map b ((k, v) ∷ m) h = (h.0, Ascends-map (suc k) m h.1)

pub names-Ascends : (m m' : List (ℕ × Client)) → Ascends 0 m → names m' ≡ names m → Ascends 0 m'
names-Ascends m m' order e =
    Ascends-map (λ e. e.1.client_id) 0 m'
      (subst (Ascends 0) (sym e) (map-Ascends (λ e. e.1.client_id) 0 m order))

-- What a client that listens is handed in a round.
pub handed_in_round :
    {V : Type 0} (validator : ℕ → Bytes → V → V × Bool) (t : Transaction) (m : List (ℕ × Client))
    (x : ℕ → Exchange) (kept : V) (o : Option (Talked V)) (j : ℕ)
    → Ascends 0 m
    → (round : Rounded validator t m x kept o) → listens j (listeners m) ≡ true
    → to_client j round.after.writes ≡ t.request ∷ []
handed_in_round validator t m x kept o j order round on =
    ap (to_client j) round.writes_right
    ∙ to_client-told_to j 0 t.request (listeners m) (map-Ascends (λ e. is_listening e.1) 0 m order)
    ∙ rw on refl

module _ {V : Type 0} (validator : ℕ → Bytes → V → V × Bool) (exchanges : ℕ → ℕ → Exchange) where
  -- One run and the rounds after it.
  pub run-Rounded :
      (i : ℕ) (v : Server) (t : Transaction) (s : Store) (kept : V)
      → Ascends 0 v.clients
      → IsStore s
      → All (λ (e : ℕ × Client). IsReady e.1) v.clients
      → let (v', r) = run_transaction v t s in
        Rounded validator t v.clients
          (exchanges i)
          kept
          (rounds validator (exchanges i) v'.clients r.store kept)
  unfolding run_transaction after_reset
  run-Rounded i v t s kept order h ready =
      let r = after_reset t s in
      let run = after_reset-IsRun t s h in
      let handed = schedule_all-Handed 0 v.clients r order run in
      let store = (run_transaction v t s).1.store in
      subst
        (λ l.
          Rounded validator t v.clients (exchanges i) kept
            (rounds validator (exchanges i) l store kept))
        (sym handed.clients)
        (rounds-Rounded validator t v.clients r.store.fresh (exchanges i) store kept
          (schedule_all-Looped 0 v.clients r order run).ordered ready handed.cells)

  run-response_size :
      (v : Server) (t : Transaction) (s : Store)
      → Ascends 0 v.clients
      → IsStore s
      → (run_transaction v t s).1.transaction.response_size ≡ t.response_size
  unfolding run_transaction after_reset
  run-response_size v t s order h =
      let loop =
        schedule_all-Looped 0 v.clients (after_reset t s) order (after_reset-IsRun t s h) in
      loop.same_transaction.1

  -- Running a transaction with one request after another.
  pub tell-Phased :
      (i : ℕ) (requests : List Bytes) (v : Server) (t : Transaction) (s : Store) (kept : V)
      → Ascends 0 v.clients
      → IsStore s
      → All (λ (e : ℕ × Client). IsReady e.1) v.clients
      → Phased validator exchanges i requests v t (tell validator exchanges i requests v t s kept)
  unfolding tell told_all left_after
  tell-Phased i [] v t s kept order h ready = record {
    after = record { server = v; store = (reset t s).1; kept = kept; writes = [] };
    result = refl;
    same_names = refl;
    are_ready = ready;
    is_store = reset-IsStore t s h;
    cooperative = λ j well on. ((unfold to_client in refl), on);
    heard = λ silent. (refl, refl);
  }
  tell-Phased i (request ∷ requests) v t s kept order h ready =
      let t' : Transaction = record t { request = request } in
      let (v', r) = run_transaction v t' s in
      let round = run-Rounded i v t' s kept order h ready in
      let next : Server = record v' { clients = round.after.clients } in
      let store = (wait_for_finish r.transaction round.after.store).0 in
      let rest =
        tell-Phased (suc i) requests next r.transaction store round.after.kept
          (names-Ascends v.clients round.after.clients order round.same_names)
          (unfold wait_for_finish in
            wait_all-IsStore r.transaction.client_transactions round.after.store round.is_store)
          round.are_ready in
      let ls : List (ℕ × Bool) → List (ℕ × Bytes) = told_all exchanges (suc i) requests in
      let continue = λ (w : Server) (u : Transaction) (c : Store) (k : V).
        tell validator exchanges (suc i) requests w u c k in
      record {
        after = record rest.after { writes = round.after.writes ++ rest.after.writes };
        result =
            ap (λ o. wait_then v' r o continue) round.result
            ∙ (unfold wait_then in ap (told_before round.after.writes) rest.result);
        same_names = rest.same_names ∙ round.same_names;
        are_ready = rest.are_ready;
        is_store = rest.is_store;
        cooperative = λ j well on.
            let going = round.cooperative j well.0 on in
            let now : to_client j round.after.writes ≡ request ∷ [] =
              handed_in_round validator t' v.clients (exchanges i) kept _ j order round on in
            let later =
              rest.cooperative j
                (subst (λ n. CooperatesWith validator n (λ k. exchanges k j) (suc i) requests)
                  (sym (run-response_size v t' s order h)) well.1)
                going in
            (
              to_client-append j round.after.writes rest.after.writes
                  ∙ ap (λ l. l ++ to_client j rest.after.writes) now
                  ∙ ap (◌∷◌ request) later.0,
              later.1,
            );
        heard = λ silent.
            let still = run-response_size v t' s order h ∙ silent in
            let going = round.listening silent in
            (
              ap (λ l. l ++ rest.after.writes) round.writes_right
                  ∙ ap (◌++◌ (told_to request (listeners v.clients)))
                      ((rest.heard still).0 ∙ ap ls going),
              (rest.heard still).1 ∙ ap (left_after exchanges (suc i) requests) going,
            );
      }
