-- ===== src/Game/Starting.antt =====
-- The phase NEW_GAME_REQUEST of `Game::update` (src/amgame.cpp) over the server.
use mniam_headless.Base.{ℕ, suc, ◌≡◌, refl, ap, ◌∙◌, Bool, false, List, [], map, zero, sym, subst}
use mniam_headless.Engine.{FloatOps}
use mniam_headless.Connection.{Bytes, get_clients}
use mniam_headless.Amcom.{Amcom, IsAmcom}
use mniam_headless.Game.State.{Game, new_game_phase}
use mniam_headless.Game.Setup.{Answers, set_out, position_food, new_game_request}
use mniam_headless.Game.Entering.{takes_part_in, snapshot-Entered}
use mniam_headless.Game.Resting.{names-IsAtRest, IsOrderly}
use mniam_headless.Game.Serving.{Circumstances, Program, seen, after_joined, start_served}
use mniam_headless.Game.Ending.{PhaseEnded}
use mniam_headless.Game.Answering.{heard_from}
use mniam_headless.Game.Broadcast.{request_of}
use mniam_headless.Game.Heeding.{sents_for, Heeds, Heeds-constant}

position_food_same :
    (f : FloatOps) (o : Answers) (ids : List ℕ) (joins : ℕ → Bool) (n : ℕ) (g : Game)
    → position_food f o n g ≡ position_food f (record o { client_ids = ids; joins = joins }) n g
unfolding position_food
position_food_same f o ids joins zero g = refl
position_food_same f o ids joins (suc n) g = position_food_same f o ids joins n _

set_out_same :
    (f : FloatOps) (o : Answers) (ids : List ℕ) (joins : ℕ → Bool) (g : Game)
    → set_out f o g ≡ set_out f (record o { client_ids = ids; joins = joins }) g
unfolding set_out
set_out_same f o ids joins g = simp (position_food_same f o ids joins) refl

module _ {R : Type 0} (a : Amcom R) (buffer : Bytes) (f : FloatOps) (h : IsAmcom a) where
  pub start-PhaseEnded :
      (c : Circumstances) (p : Program)
      → IsOrderly p
      → PhaseEnded a buffer f c new_game_phase p (start_served a buffer f c p)
  unfolding start_served new_game_request heard_from
  start-PhaseEnded c p orderly =
      let o = (seen c [] (λ k. false) []).answers in
      let ids = map (λ i. i.client_id) (get_clients 0 p.server) in
      let joins = takes_part_in a (c.sockets 0) buffer f o p.server in
      let entered =
        snapshot-Entered a (c.sockets 0) buffer f o h 0 p.server p.store p.game
          orderly.at_rest.is_ordered orderly.is_store orderly.at_rest.are_ready in
      record {
        after = record {
          server = entered.after.server;
          store = entered.after.store;
          game = set_out f o entered.after.game;
          writes = entered.after.writes;
        };
        result = ap (after_joined a buffer f o) entered.result;
        game_right =
            set_out_same f o ids joins entered.after.game
            ∙ ap (set_out f (seen c ids joins []).answers) entered.game_right;
        is_orderly = record {
          at_rest =
              names-IsAtRest p.server.clients entered.after.server.clients orderly.at_rest
                entered.same_names entered.are_ready;
          is_store = entered.is_store;
        };
        cooperative = λ j well on.
            let same = ap (sents_for j) entered.sent_right in
            let handed =
              entered.cooperative j
                (Heeds-constant a buffer (c.sockets 0 j) 0 (sents_for j entered.after.sent)
                  (subst (Heeds a buffer (λ i. c.sockets 0 j) 0) (sym same) well))
                on in
            (handed.0 ∙ ap (map (request_of a buffer)) same, handed.1);
      }
