-- ===== src/Game/Moving.antt =====
-- The phase MOVE_REQUEST of `Game::update` (src/amgame.cpp) over the server.
use mniam_headless.Base.{
  fun_ext, ℕ, ◌+◌, ◌%◌, ◌^◌, ◌≡◌, refl, ap, ◌∙◌, false, List, [], map, drop, sym, true, none, ◌∷◌,
  ◌++◌, subst, All,
}
use mniam_headless.Engine.{Float, FloatOps, Events}
use mniam_headless.Connection.{Bytes, Server, reset, run_transaction, wait_for_finish, Exchange}
use mniam_headless.Connection.Asking.{wait_all-IsStore, reset-IsStore}
use mniam_headless.Connection.Telling.{run-Rounded, handed_in_round}
use mniam_headless.Amcom.{
  Amcom, IsAmcom, get_angle, food_update_transaction, move_kind, move_transaction, validate,
}
use mniam_headless.Game.State.{
  Game, Sent, move_phase, player_update_phase, update_players, move_sent,
}
use mniam_headless.Game.Updates.{send_eaten}
use mniam_headless.Game.Phases.{Outside, move_request, steer_all, five_steps}
use mniam_headless.Game.Broadcast.{request_of}
use mniam_headless.Game.Resting.{names-IsAtRest, IsOrderly}
use mniam_headless.Game.Answering.{heard_from, move_replies, get_angle-move_replies}
use mniam_headless.Game.Serving.{
  Circumstances, Program, seen, end_move, after_move, move_served, writes_before,
}
use mniam_headless.Connection.Postbox.{to_client, listens-hears, to_client-append}
use mniam_headless.Connection.Listening.{Cooperative}
use mniam_headless.Amcom.Requests.{transactions-IsWhole}
use mniam_headless.Game.Heeding.{
  sents_for, heeds, Heeds, heeds-answer, IsBroadcast, send_eaten-IsBroadcast,
}
use mniam_headless.Game.Ending.{PhaseEnded, tell_updates-Ended}

module _ {R : Type 0} (a : Amcom R) (buffer : Bytes) (f : FloatOps) where
  -- The game after the move requests, by the angles of the answers.
  abbrev moved : (ℕ → Events) → Game → (ℕ → Float) → Game × List Sent
  moved events g angle =
      let w = five_steps f events (steer_all f angle g.players g.world) in
      let (food, sent) = send_eaten w 0 [] g.food in
      (
        record g {
          world = w;
          players = update_players w g.players;
          food = food;
          game_time = (g.game_time + 1) % 2 ^ 32;
          phase = player_update_phase;
        },
        move_sent g.game_time ∷ sent,
      )

  move-game :
      (o o' : Outside) (g : Game)
      → o.events ≡ o'.events
      → ◌≡◌ {A = ℕ → Float} (λ k. get_angle k o.moves) (λ k. get_angle k o'.moves)
      → move_request f o g ≡ move_request f o' g
  unfolding move_request
  move-game o o' g same_events same_angles =
      ap (λ events. moved events g (λ k. get_angle k o.moves)) same_events
      ∙ ap (moved o'.events g) same_angles

  -- The MOVE request and then what eaten foods there are.
  move_and_eaten :
      (o : Outside) (g : Game)
      → ((move_request f o g).1 ≡ move_sent g.game_time ∷ drop 1 (move_request f o g).1)
        × All (IsBroadcast none) (drop 1 (move_request f o g).1)
  unfolding move_request
  move_and_eaten o g =
      let w = five_steps f o.events (steer_all f (λ k. get_angle k o.moves) g.players g.world) in
      (refl, send_eaten-IsBroadcast w g.food)

  module _ (h : IsAmcom a) where
    move_heeded :
        (x : Exchange) (game_time : ℕ)
        → heeds a buffer (move_sent game_time) x ≡ true
        → let t = move_transaction a buffer game_time in
          Cooperative (validate a move_kind) t.response_size x t.request
    unfolding request_of
    move_heeded x game_time well =
        let t = move_transaction a buffer game_time in
        let (_, _, (_, _, response)) = transactions-IsWhole a h buffer 0 0 game_time in
        subst (λ size. Cooperative (validate a move_kind) size x t.request) (sym response)
          (heeds-answer a buffer (move_sent game_time) x move_kind 9 refl well)

    move_sents :
        (j : ℕ) (o o' : Outside) (g : Game)
        → move_request f o g ≡ move_request f o' g
        → sents_for j (move_request f o' g).1
          ≡ move_sent g.game_time ∷ sents_for j (drop 1 (move_request f o g).1)
    unfolding sents_for
    move_sents j o o' g same =
        ap (λ q. sents_for j q.1) (sym same) ∙ ap (sents_for j) (move_and_eaten o g).0

    pub move-PhaseEnded :
        (c : Circumstances) (p : Program)
        → IsOrderly p
        → PhaseEnded a buffer f c move_phase p (move_served a buffer f c p)
    unfolding move_served after_move heard_from food_update_transaction
    move-PhaseEnded c p orderly =
        let m = p.server.clients in
        let t = move_transaction a buffer p.game.game_time in
        let (v', r) = run_transaction p.server t p.store in
        let rest = orderly.at_rest in
        let round =
          run-Rounded (validate a move_kind) c.sockets 0 p.server t p.store [] rest.is_ordered
            orderly.is_store rest.are_ready in
        let next : Server = record v' { clients = round.after.clients } in
        let s = (wait_for_finish r.transaction round.after.store).0 in
        let o = seen c [] (λ k. false) round.after.kept in
        let o' = heard_from a buffer f c p in
        let (g', sent) = move_request f o p.game in
        let told =
          tell_updates-Ended a buffer f c 1 (food_update_transaction []) next s (g', drop 1 sent)
            refl (move_and_eaten o p.game).1
            (names-IsAtRest m round.after.clients rest round.same_names round.are_ready)
            (unfold wait_for_finish in
              wait_all-IsStore r.transaction.client_transactions round.after.store
                round.is_store) in
        let angles : ◌≡◌ {A = ℕ → Float} (λ k. get_angle k round.after.kept)
            (λ k. get_angle k (move_replies a (c.sockets 0) m)) =
          fun_ext (λ k.
            get_angle-move_replies a h buffer (c.sockets 0) p.game.game_time k m round.after.kept
              rest.is_ordered rest.named round.keeps) in
        let same = move-game o o' p.game refl angles in
        record {
          after = record told.after {
            store = (reset r.transaction told.after.store).1;
            writes = round.after.writes ++ told.after.writes;
          };
          result =
              ap (after_move a buffer f c v' r p.game) round.result
              ∙ ap
                  (λ q.
                    writes_before a buffer f round.after.writes
                      (end_move a buffer f r.transaction q))
                  told.result;
          game_right = told.game_right ∙ ap (λ q. q.0) same;
          is_orderly = record {
            at_rest = told.is_orderly.at_rest;
            is_store = reset-IsStore r.transaction told.after.store told.is_orderly.is_store;
          };
          cooperative = λ j well on.
              let parts = move_sents j o o' p.game same in
              let both = subst (Heeds a buffer (λ k. c.sockets k j) 0) parts well in
              let listening = listens-hears j m ∙ on in
              let now =
                handed_in_round (validate a move_kind) t m (c.sockets 0) [] _ j rest.is_ordered
                  round listening in
              let going =
                round.cooperative j (move_heeded (c.sockets 0 j) p.game.game_time both.0)
                  listening in
              let later =
                told.cooperative j both.1 (sym (listens-hears j round.after.clients) ∙ going) in
              (
                to_client-append j round.after.writes told.after.writes
                    ∙ ap (λ l. l ++ to_client j told.after.writes) now
                    ∙ (unfold request_of in
                        ap (◌∷◌ t.request) later.0 ∙ ap (map (request_of a buffer)) (sym parts)),
                later.1,
              );
        }
