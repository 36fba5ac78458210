-- ===== src/Game/Ending.antt =====
-- How an update of the whole program ends: the phases of `Game::update` (src/amgame.cpp) that run one
-- transaction again and again.
use mniam_headless.Base.{
  ℕ, ◌+◌, ◌≡◌, refl, ap, ◌∙◌, Bool, false, List, [], map, Option, some, sym, true, none, subst, All,
  All-weaken,
}
use mniam_headless.Engine.{FloatOps}
use mniam_headless.Connection.{
  Bytes, Server, Store, Transaction, default_validator, Client, Exchange,
}
use mniam_headless.Connection.Talking.{tell}
use mniam_headless.Connection.Runs.{IsStore}
use mniam_headless.Connection.Telling.{tell-Phased}
use mniam_headless.Amcom.{
  Amcom, game_over_kind, game_over_transaction, validate, ResponseKind, packet_overhead,
  game_over_response_size,
}
use mniam_headless.Game.State.{
  Game, GamePhase, Sent, game_over_phase, new_game_phase, game_over_sent,
}
use mniam_headless.Game.Phases.{update_phase}
use mniam_headless.Game.Broadcast.{request_of}
use mniam_headless.Game.Resting.{names-IsAtRest, IsAtRest, IsOrderly}
use mniam_headless.Game.Answering.{heard_from}
use mniam_headless.Game.Serving.{
  Circumstances, Program, seen, after_told, tell_updates, over_served,
}
use mniam_headless.Base.OrderedMap.{find}
use mniam_headless.Connection.Postbox.{to_client, hears, listens-hears}
use mniam_headless.Connection.Listening.{Cooperative}
use mniam_headless.Game.Heeding.{
  is_for, sents_for, response_of, heeds, Heeds, heeds-silent, heeds-answer, Heeds-CooperatesWith,
  sents_for-All, IsBroadcast, send_players-IsBroadcast,
}

module _ {R : Type 0} (a : Amcom R) (buffer : Bytes) (f : FloatOps) where
  -- A part of an update that ends with the game `g`, for clients that were `m` before it: a client that
  -- heeds the transactions `sent`, where the sockets answer `x`, is handed those for it, and goes on.
  pub record Ended (m : List (ℕ × Client)) (x : ℕ → ℕ → Exchange) (i : ℕ) (sent : List Sent)
      (g : Game) (o : Option Program) : Type 0 where
    pub after : Program
    pub result : o ≡ some after
    pub game_right : after.game ≡ g
    pub is_orderly : IsOrderly after
    pub cooperative :
        (j : ℕ)
        → Heeds a buffer (λ k. x k j) i (sents_for j sent)
        → hears (find j m) ≡ true
        → (to_client j after.writes ≡ map (request_of a buffer) (sents_for j sent))
          × (hears (find j after.server.clients) ≡ true)

  tell-Ended :
      {V : Type 0} (validator : ℕ → Bytes → V → V × Bool) (c : Circumstances) (i : ℕ)
      (t : Transaction) (v : Server) (s : Store) (kept : V) (sent : List Sent) (g : Game)
      (waits : Option (ResponseKind × ℕ))
      → ((s : Sent) (y : Exchange)
          → response_of s ≡ waits
          → heeds a buffer s y ≡ true
          → Cooperative validator t.response_size y (request_of a buffer s))
      → All (IsBroadcast waits) sent
      → IsAtRest v.clients
      → IsStore s
      → Ended v.clients c.sockets i sent g (
          after_told a buffer f g
            (tell validator c.sockets i (map (request_of a buffer) sent) v t s kept))
  tell-Ended validator c i t v s kept sent g waits each alike h is_store =
      let requests = map (request_of a buffer) sent in
      let phase =
        tell-Phased validator c.sockets i requests v t s kept h.is_ordered is_store h.are_ready in
      record {
        after = record {
          server = phase.after.server;
          store = phase.after.store;
          game = g;
          writes = phase.after.writes;
        };
        result = ap (after_told a buffer f g) phase.result;
        game_right = refl;
        is_orderly = record {
          at_rest =
              names-IsAtRest v.clients phase.after.server.clients h phase.same_names
                phase.are_ready;
          is_store = phase.is_store;
        };
        cooperative = λ j well on.
            let all : sents_for j sent ≡ sent =
              sents_for-All j sent (
                All-weaken (IsBroadcast waits) (λ s. is_for j s ≡ true) sent (λ s b. b.0 j)
                  alike) in
            let handed =
              phase.cooperative j
                (Heeds-CooperatesWith a buffer validator t.response_size waits (λ k. c.sockets k j)
                  i sent each
                  (All-weaken (IsBroadcast waits) (λ s. response_of s ≡ waits) sent (λ s b. b.1)
                    alike)
                  (subst (Heeds a buffer (λ k. c.sockets k j) i) all well))
                (listens-hears j v.clients ∙ on) in
            (
              handed.0 ∙ ap (map (request_of a buffer)) (sym all),
              sym (listens-hears j phase.after.server.clients) ∙ handed.1,
            );
      }

  pub tell_updates-Ended :
      (c : Circumstances) (i : ℕ) (t : Transaction) (v : Server) (s : Store) (gs : Game × List Sent)
      → t.response_size ≡ 0
      → All (IsBroadcast none) gs.1
      → IsAtRest v.clients
      → IsStore s
      → Ended v.clients c.sockets i gs.1 gs.0 (tell_updates a buffer f c i t v s gs)
  unfolding tell_updates
  tell_updates-Ended c i t v s gs silent alike h is_store =
      tell-Ended default_validator c i t v s tt gs.1 gs.0 none
        (λ m y quiet well.
          subst
            (λ size. Cooperative {V = Unit {0}} default_validator size y (request_of a buffer m))
            (sym silent) (heeds-silent a buffer m y quiet well))
        alike h is_store

  -- The rounds in which the sockets answer: in the phase NEW_GAME_REQUEST each client is asked in a round of
  -- its own.
  abbrev pub sockets_in : GamePhase → Circumstances → ℕ → ℕ → Exchange
  sockets_in new_game_phase c i = c.sockets 0
  sockets_in _ c i = c.sockets i

  -- An update in a phase: the game is what the phase makes of the answers that come over the sockets.
  abbrev pub PhaseEnded : Circumstances → GamePhase → Program → Option Program → Type 0
  PhaseEnded c phase p o =
      let after = update_phase f (heard_from a buffer f c p) phase p.game in
      Ended p.server.clients (sockets_in phase c) 0 after.1 after.0 o

  pub over-PhaseEnded :
      (c : Circumstances) (p : Program)
      → IsOrderly p
      → PhaseEnded c game_over_phase p (over_served a buffer f c p)
  unfolding over_served game_over_transaction
  over-PhaseEnded c p h =
      let (g', sent) = update_phase f (seen c [] (λ k. false) []) game_over_phase p.game in
      let waits : Option (ResponseKind × ℕ) =
        some (game_over_kind, packet_overhead + game_over_response_size) in
      tell-Ended (validate a game_over_kind) c 0 (game_over_transaction []) p.server p.store [] sent
        g' waits (λ s y alike well. heeds-answer a buffer s y game_over_kind _ alike well)
        (send_players-IsBroadcast waits game_over_sent p.game.world p.game.players
          (λ b. ((λ k. refl), refl)))
        h.at_rest h.is_store
