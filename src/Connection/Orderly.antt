-- ===== src/Connection/Orderly.antt =====
-- What holds at every moment in the life of a `ConnectionClient` (src/connection_client.cpp).
use mniam_headless.Base.{
  ℕ, ◌≡◌, refl, ap, ◌∙◌, Bool, true, false, not, List, [], ◌∷◌, Option, none, some, arith,
}
use mniam_headless.Base.OrderedMap.{find}
use mniam_headless.Connection.Requests.{Bytes, ClientTransaction}
use mniam_headless.Connection.Clients.{Client, Exchange, serve}
use mniam_headless.Connection.Thread.{Session, serve_at, serve_queue}
use mniam_headless.Connection.Lifetime.{
  Life, LifeStep, Lives, activate, born, deactivate, hand_over, is_built, is_ended, is_looping,
  is_started, leave, newborn, request_stop, round, handed_over, take_connection_time,
  take_disconnection_time, lived, was_started,
}

record IsOrderly {V : Type 0} (l : Life V) : Type 0 where
  alone :
      is_built l.building ≡ false
      → (l.session.client.stop_requested ≡ false)
        × (l.session.client.transactions ≡ [])
        × (is_looping l.running ≡ true)
  truthful : is_started l.building ≡ false → l.session.client.active ≡ not (is_ended l.running)
  asked : is_looping l.running ≡ false → l.session.client.stop_requested ≡ true

module _ {V : Type 0} (validator : ℕ → Bytes → V → V × Bool) where
  serve-active :
      (x : Exchange) (c : Client) (t : ClientTransaction) (v : V)
      → (serve validator x c t v).0.active ≡ c.active
  unfolding serve
  serve-active x c t v = ground arith

  serve_at-active :
      (x : Exchange) (a : ℕ) (o : Option ClientTransaction) (s s' : Session V)
      → serve_at validator x a o s ≡ some s'
      → s'.client.active ≡ s.client.active
  unfolding serve_at
  serve_at-active x a none s s' e = absurd (cc e)
  serve_at-active x a (some t) s s' e = cc (e, serve-active x s.client t s.kept)

  serve_queue-active :
      (x : Exchange) (q : List ℕ) (s s' : Session V)
      → serve_queue validator x q s ≡ some s'
      → s'.client.active ≡ s.client.active
  unfolding serve_queue
  serve_queue-active x [] s s' e = cc e
  serve_queue-active x (a ∷ q) s s' e = serve_at-active x a (find a s.store.cells) _ s' e

  -- A round on an empty queue changes nothing.
  serve_queue-empty :
      (x : Exchange) (q : List ℕ) (s s' : Session V)
      → q ≡ []
      → serve_queue validator x q s ≡ some s'
      → s' ≡ s
  unfolding serve_queue
  serve_queue-empty x [] s s' empty e = cc e
  serve_queue-empty x (a ∷ q) s s' empty e = absurd (cc empty)

  step-IsOrderly : {l l' : Life V} → LifeStep validator l l' → IsOrderly l → IsOrderly l'
  unfolding hand_over
  step-IsOrderly (activate b) h =
      let unbuilt = ap is_built b in
      record {
        alone = λ e. h.alone unbuilt;
        truthful = λ e. ground (arith, h.alone unbuilt);
        asked = h.asked;
      }
  step-IsOrderly (take_connection_time now b) h = record {
    alone = λ e. absurd (cc e);
    truthful = λ e. h.truthful (ap is_started b);
    asked = h.asked;
  }
  step-IsOrderly (handed_over a t b found) h = record {
    alone = λ e. absurd (cc e);
    truthful = λ e. ground (arith, h.truthful);
    asked = λ e. ground (arith, h.asked);
  }
  step-IsOrderly (request_stop b) h = record {
    alone = λ e. absurd (cc e);
    truthful = h.truthful;
    asked = λ e. refl;
  }
  step-IsOrderly (round {l} {s} x r on e) h =
      let same = λ (u : is_built l.building ≡ false).
        serve_queue-empty x l.session.client.transactions l.session s (h.alone u).1 e in
      record {
        alone = λ u. (
          ap (λ (s : Session V). s.client.stop_requested) (same u) ∙ (h.alone u).0,
          ap (λ (s : Session V). s.client.transactions) (same u) ∙ (h.alone u).1,
          (h.alone u).2,
        );
        truthful = λ u. serve_queue-active x _ l.session s e ∙ h.truthful u;
        asked = λ u. absurd (cc (u, ap is_looping r));
      }
  step-IsOrderly (leave r stop) h = record {
    alone = λ u. absurd (cc (stop, (h.alone u).0));
    truthful = λ u. h.truthful u ∙ ap (λ k. not (is_ended k)) r;
    asked = λ u. stop;
  }
  step-IsOrderly (take_disconnection_time now r) h = record {
    alone = λ u. absurd (cc ((h.alone u).2, ap is_looping r));
    truthful = λ u. h.truthful u ∙ ap (λ k. not (is_ended k)) r;
    asked = λ u. h.asked (ap is_looping r);
  }
  step-IsOrderly (deactivate r) h = record {
    alone = λ u. absurd (cc ((h.alone u).2, ap is_looping r));
    truthful = λ u. refl;
    asked = λ u. h.asked (ap is_looping r);
  }

  Lives-IsOrderly : {l : Life V} → Lives validator l → IsOrderly l
  unfolding newborn
  Lives-IsOrderly (born client_id peer active store kept) = record {
    alone = λ u. (refl, refl, refl);
    truthful = λ u. absurd (cc u);
    asked = λ u. absurd (cc u);
  }
  Lives-IsOrderly (lived before s) = step-IsOrderly s (Lives-IsOrderly before)

  -- In every state that the steps of the constructor, the client's thread and the server lead to, in
  -- any order: once the constructor has returned, the client is active exactly if its thread has
  -- not ended, and a thread that has left its loop was asked to stop.
  pub Lives-active :
      (l : Life V)
      → Lives validator l
      → (is_built l.building ≡ true → l.session.client.active ≡ not (is_ended l.running))
        × (is_looping l.running ≡ false
            → (is_built l.building ≡ true) × (l.session.client.stop_requested ≡ true))
  Lives-active l r =
      let h = Lives-IsOrderly r in
      (λ b. h.truthful (was_started l.building b), λ u. (ground (arith, h.alone), h.asked u))
