-- ===== src/Connection/Draining.antt =====
-- The loop of a client's thread, `clientThreadFunc` in src/connection_client.cpp, over many rounds.
use mniam_headless.Base.{
  ℕ, ◌≤◌, ◌≡◌, refl, ap, ◌∙◌, ◌≢◌, Bool, true, false, Bool-cases, ◌⊎◌, inl, inr, List, [], ◌∷◌,
  some, length, arith, All,
}
use mniam_headless.Base.OrderedMap.{find, assign, find-assign}
use mniam_headless.Connection.Requests.{Bytes, ClientTransaction, scheduled, done, timeout}
use mniam_headless.Connection.Clients.{Client, Exchange, serve, close_connection}
use mniam_headless.Connection.Thread.{
  Session, serve_at, serve_queue, thread_step, go_on, thread_run,
}
use mniam_headless.Connection.Exchanges.{serve_outcome}
use mniam_headless.Connection.Dangling.{thread_on}

abbrev pub Cells : Type 0
Cells = List (ℕ × ClientTransaction)

-- At the address is a client transaction that waits for its turn.
abbrev pub IsPending : Cells → ℕ → Type 0
IsPending cells a = (t : ClientTransaction) × (find a cells ≡ some t) × (t.state ≡ scheduled)

-- At the address is a client transaction that has ended, and whose end is signalled.
abbrev pub IsEnded : Cells → ℕ → Type 0
IsEnded cells a =
    (t : ClientTransaction) × (find a cells ≡ some t)
    × ((t.state ≡ done) ⊎ (t.state ≡ timeout))
    × (t.signal ≡ true)

-- No transaction is in the queue twice.
abbrev pub Once : List ℕ → Type 0
Once [] = Unit {0}
Once (a ∷ q) = All (λ b. b ≢ a) q × Once q

module _ {V : Type 0} (validator : ℕ → Bytes → V → V × Bool) where
  serve-queue_kept :
      (x : Exchange) (c : Client) (t : ClientTransaction) (v : V)
      → (serve validator x c t v).0.transactions ≡ c.transactions
  unfolding serve
  serve-queue_kept x c t v = ground arith

  -- The session after a turn of the transaction `t` at `a`.
  after_turn : Exchange → ℕ → ClientTransaction → List ℕ → Session V → Session V
  after_turn x a t q s =
      let served = serve validator x (record s.client { transactions = q }) t s.kept in
      record {
        client = served.0;
        store = record s.store { cells = assign a served.1 s.store.cells };
        kept = served.2;
      }

  thread_turn :
      (now : ℕ) (x : Exchange) (s : Session V) (a : ℕ) (q : List ℕ) (t : ClientTransaction)
      → s.client.stop_requested ≡ false
      → s.client.transactions ≡ a ∷ q
      → find a s.store.cells ≡ some t
      → thread_step validator now x s ≡ some (after_turn x a t q s)
  unfolding serve_queue serve_at after_turn
  thread_turn now x s a q t on queue found =
      thread_on validator now x s on
      ∙ ap (λ l. serve_queue validator x l s) queue
      ∙ ap
          (λ o.
            serve_at validator x a o (record s { client = record s.client { transactions = q } }))
          found

  thread_run-turn :
      (now : ℕ) (x : Exchange) (rounds : List (ℕ × Exchange)) (s : Session V) (a : ℕ) (q : List ℕ)
      (t : ClientTransaction)
      → s.client.stop_requested ≡ false
      → s.client.transactions ≡ a ∷ q
      → find a s.store.cells ≡ some t
      → thread_run validator ((now, x) ∷ rounds) s
        ≡ thread_run validator rounds (after_turn x a t q s)
  unfolding thread_run go_on
  thread_run-turn now x rounds s a q t on queue found =
      ap
        (λ b.
          go_on validator b (thread_step validator now x s) (λ s'. thread_run validator rounds s'))
        on
      ∙ ap (λ o. go_on validator false o (λ s'. thread_run validator rounds s'))
          (thread_turn now x s a q t on queue found)

  thread_run-idle :
      (now : ℕ) (x : Exchange) (rounds : List (ℕ × Exchange)) (s : Session V)
      → s.client.stop_requested ≡ false
      → s.client.transactions ≡ []
      → thread_run validator ((now, x) ∷ rounds) s ≡ thread_run validator rounds s
  unfolding thread_run go_on serve_queue
  thread_run-idle now x rounds s on queue =
      ap
        (λ b.
          go_on validator b (thread_step validator now x s) (λ s'. thread_run validator rounds s'))
        on
      ∙ ap (λ o. go_on validator false o (λ s'. thread_run validator rounds s'))
          (thread_on validator now x s on ∙ ap (λ l. serve_queue validator x l s) queue)

  thread_run-stop :
      (now : ℕ) (x : Exchange) (rounds : List (ℕ × Exchange)) (s : Session V)
      → s.client.stop_requested ≡ true
      → thread_run validator ((now, x) ∷ rounds) s
        ≡ some (record s { client = close_connection now s.client })
  unfolding thread_run go_on thread_step
  thread_run-stop now x rounds s stop = ground arith

-- What many rounds on a queue leave: the other client transactions are as they were, and those of
-- the queue have ended, unless the client was closed.
record Drained {V : Type 0} (q : List ℕ) (s s' : Session V) : Type 0 where
  others : (b : ℕ) → All (λ a. a ≢ b) q → find b s'.store.cells ≡ find b s.store.cells
  ended :
      ((s'.client.active ≡ false) × (s'.client.stop_requested ≡ true))
      ⊎ All (IsEnded s'.store.cells) q

still-IsPending :
    (a : ℕ) (t w : ClientTransaction) (cells : Cells) (q : List ℕ)
    → find a cells ≡ some w
    → All (λ b. b ≢ a) q
    → All (IsPending cells) q
    → All (IsPending (assign a t cells)) q
still-IsPending a t w cells [] found apart pending = tt
still-IsPending a t w cells (b ∷ q) found apart pending = (
  (pending.0.0, find-assign b a t w cells found ∙ ground arith, pending.0.2),
  still-IsPending a t w cells q found apart.1 pending.1,
)

served-IsEnded :
    {V : Type 0} (validator : ℕ → Bytes → V → V × Bool) (x : Exchange) (c : Client)
    (t : ClientTransaction) (v : V)
    → t.state ≡ scheduled
    → let t' = (serve validator x c t v).1 in
      ((t'.state ≡ done) ⊎ (t'.state ≡ timeout)) × (t'.signal ≡ true)
served-IsEnded validator x c t v h =
    let outcome = serve_outcome validator x c t v h in (ground (arith, outcome), outcome.1)

module _ {V : Type 0} (validator : ℕ → Bytes → V → V × Bool) where
  turn-Drained :
      (x : Exchange) (a : ℕ) (t : ClientTransaction) (q : List ℕ) (s s' : Session V)
      → find a s.store.cells ≡ some t
      → t.state ≡ scheduled
      → All (λ b. b ≢ a) q
      → Drained q (after_turn validator x a t q s) s'
      → Drained (a ∷ q) s s'
  unfolding after_turn
  turn-Drained x a t q s s' found h apart d =
      let served = serve validator x (record s.client { transactions = q }) t s.kept in
      let now_at = λ (b : ℕ). find-assign b a served.1 t s.store.cells found in
      let now_ended =
        served-IsEnded validator x (record s.client { transactions = q }) t s.kept h in
      record {
        others = λ b ne. d.others b ne.1 ∙ now_at b ∙ ground arith;
        ended = elim d.ended [
          | inl closed ↦ inl closed
          | inr e ↦
              inr (
                (served.1, d.others a apart ∙ now_at a ∙ ground arith, now_ended.0, now_ended.1),
                e,
              )
        ];
      }

  -- A thread that is asked to stop closes the client in its next round.
  closed_or :
      (now : ℕ) (x : Exchange) (rounds : List (ℕ × Exchange)) (q : List ℕ) (s : Session V)
      → let Result =
          (s' : Session V) × (thread_run validator ((now, x) ∷ rounds) s ≡ some s')
          × Drained q s s' in
        (s.client.stop_requested ≡ false → Result) → Result
  closed_or now x rounds q s go = elim (Bool-cases s.client.stop_requested) [
    | inl stop ↦ (
      record s { client = close_connection now s.client },
      thread_run-stop validator now x rounds s stop,
      record { others = λ b ne. refl; ended = inl (unfold close_connection in (refl, stop)) },
    )
    | inr on ↦ go on
  ]

  drains :
      (rounds : List (ℕ × Exchange)) (q : List ℕ) (s : Session V)
      → length q ≤ length rounds
      → s.client.transactions ≡ q
      → All (IsPending s.store.cells) q
      → Once q
      → (s' : Session V) × (thread_run validator rounds s ≡ some s') × Drained q s s'
  drains [] [] s few queue pending once =
      (s, (unfold thread_run in refl), record { others = λ b ne. refl; ended = inr tt })
  drains [] (a ∷ q) s few queue pending once = absurd (omega arith)
  drains ((now, x) ∷ rounds) [] s few queue pending once =
      let (s', e, d) = drains rounds [] s (omega arith) queue tt tt in
      closed_or now x rounds [] s
        (λ on. (s', thread_run-idle validator now x rounds s on queue ∙ e, d))
  drains ((now, x) ∷ rounds) (a ∷ q) s few queue ((t, found, h), pending) (apart, once) =
      let (s', e, d) =
        drains rounds q (after_turn validator x a t q s) (omega arith)
          (unfold after_turn in
            serve-queue_kept validator x (record s.client { transactions = q }) t s.kept)
          (unfold after_turn in still-IsPending a _ t s.store.cells q found apart pending) once in
      closed_or now x rounds (a ∷ q) s (λ on. (
        s',
        thread_run-turn validator now x rounds s a q t on queue found ∙ e,
        turn-Drained x a t q s s' found h apart d,
      ))

  -- A client's thread whose queue holds scheduled transactions, each once, has a result after as many
  -- rounds as the queue is long, whatever the socket answers in them: every transaction of the queue
  -- has ended, as done or as timed out, and its end is signalled, unless the thread was asked to stop
  -- and has closed the client.
  pub thread_run-ends :
      (rounds : List (ℕ × Exchange)) (s : Session V)
      → length s.client.transactions ≤ length rounds
      → All (IsPending s.store.cells) s.client.transactions
      → Once s.client.transactions
      → (s' : Session V) × (thread_run validator rounds s ≡ some s')
        × (((s'.client.active ≡ false) × (s'.client.stop_requested ≡ true))
            ⊎ All (IsEnded s'.store.cells) s.client.transactions)
  thread_run-ends rounds s few pending once =
      let (s', e, d) = drains rounds s.client.transactions s few refl pending once in
      (s', e, d.ended)
