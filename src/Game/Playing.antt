-- ===== src/Game/Playing.antt =====
-- Updates of the whole program (src/main.cpp), one after another, against those of the game alone.
use mniam_headless.Base.{
  ℕ, ◌≡◌, refl, ap, ◌∙◌, List, [], ◌∷◌, map, some, sym, none, Option, ◌++◌, true, subst,
}
use mniam_headless.Engine.{FloatOps}
use mniam_headless.Connection.{Bytes}
use mniam_headless.Amcom.{Amcom, IsAmcom, food_update_transaction, player_update_transaction}
use mniam_headless.Game.State.{
  GamePhase, main_menu, tester, game_idle, new_game_phase, player_update_phase, food_update_phase,
  move_phase, game_over_phase, game_end, Sent, player_update_sent,
}
use mniam_headless.Game.Phases.{update, play}
use mniam_headless.Game.Resting.{IsOrderly, arrive-IsAtRest, arrive-KeepsListening}
use mniam_headless.Game.Serving.{
  Circumstances, Program, phase_served, update_served, then_played, play_served, writes_before,
}
use mniam_headless.Game.Ending.{Ended, PhaseEnded, over-PhaseEnded, tell_updates-Ended, sockets_in}
use mniam_headless.Game.Answering.{heard_from, with_arrivals, then_heard, heard_along}
use mathlib.Core.List.{append-nil, map-append, append_assoc}
use mniam_headless.Base.OrderedMap.{find}
use mniam_headless.Connection.Postbox.{to_client, hears, to_client-append}
use mniam_headless.Game.Broadcast.{request_of}
use mniam_headless.Game.Heeding.{
  sents_for, Heeds, sents_for-append, send_food-IsBroadcast, send_players-IsBroadcast,
}
use mniam_headless.Game.Moving.{move-PhaseEnded}
use mniam_headless.Game.Starting.{start-PhaseEnded}

-- What was handed before, and in one update, and later.
traced :
    {R : Type 0} (a : Amcom R) (buffer : Bytes) (j : ℕ) (before now : List (ℕ × Bytes))
    (all : List Bytes) (ss ss' ss'' : List Sent)
    → to_client j now ≡ map (request_of a buffer) (sents_for j ss)
    → all ≡ to_client j (before ++ now) ++ map (request_of a buffer) (sents_for j ss')
    → ss' ≡ ss''
    → all ≡ to_client j before ++ map (request_of a buffer) (sents_for j (ss ++ ss''))
traced a buffer j before now all ss ss' ss'' handed later same =
    let requests = map (request_of a buffer) in
    let sooner = to_client j before in
    later
    ∙ ap (λ l. l ++ requests (sents_for j ss'))
        (to_client-append j before now ∙ ap (sooner ++◌) handed)
    ∙ append_assoc sooner (requests (sents_for j ss)) (requests (sents_for j ss'))
    ∙ ap (sooner ++◌) (
        sym (map-append (request_of a buffer) (sents_for j ss) (sents_for j ss'))
        ∙ ap requests (sym (sents_for-append j ss ss') ∙ ap (λ t. sents_for j (ss ++ t)) same))

module _ {R : Type 0} (a : Amcom R) (buffer : Bytes) (f : FloatOps) (h : IsAmcom a) where
  idle-Ended :
      (c : Circumstances) (p : Program)
      → IsOrderly p
      → Ended a buffer f p.server.clients c.sockets 0 [] p.game (some (record p { writes = [] }))
  unfolding to_client sents_for
  idle-Ended c p orderly = record {
    after = record p { writes = [] };
    result = refl;
    game_right = refl;
    is_orderly = record { at_rest = orderly.at_rest; is_store = orderly.is_store };
    cooperative = λ j well on. (refl, on);
  }

  served-PhaseEnded :
      (c : Circumstances) (phase : GamePhase) (p : Program)
      → IsOrderly p
      → PhaseEnded a buffer f c phase p (phase_served a buffer f c phase p)
  unfolding food_update_transaction player_update_transaction
  served-PhaseEnded c new_game_phase p orderly = start-PhaseEnded a buffer f h c p orderly
  served-PhaseEnded c food_update_phase p orderly =
      tell_updates-Ended a buffer f c 0 (food_update_transaction []) p.server p.store _ refl
        (send_food-IsBroadcast p.game.world p.game.food) orderly.at_rest orderly.is_store
  served-PhaseEnded c player_update_phase p orderly =
      tell_updates-Ended a buffer f c 0 (player_update_transaction []) p.server p.store _ refl
        (send_players-IsBroadcast none player_update_sent p.game.world p.game.players
          (λ b. ((λ k. refl), refl)))
        orderly.at_rest orderly.is_store
  served-PhaseEnded c move_phase p orderly = move-PhaseEnded a buffer f h c p orderly
  served-PhaseEnded c game_over_phase p orderly = over-PhaseEnded a buffer f c p orderly
  served-PhaseEnded c main_menu p orderly = idle-Ended c p orderly
  served-PhaseEnded c tester p orderly = idle-Ended c p orderly
  served-PhaseEnded c game_idle p orderly = idle-Ended c p orderly
  served-PhaseEnded c game_end p orderly = idle-Ended c p orderly

  abbrev pub AndThen : Option Program → (Program → Type 0) → Type 0
  AndThen none next = Unit {0}
  AndThen (some p) next = next p

  -- The client's socket takes whole every request of the game that is for the client, and sends no answer of
  -- a response's size but the response.
  abbrev pub HeedsAlong : ℕ → List Circumstances → Program → Type 0
  HeedsAlong j [] p = Unit {0}
  HeedsAlong j (c ∷ cs) p =
      Heeds a buffer (λ i. sockets_in a buffer f p.game.phase c i j) 0
        (sents_for j (update f (heard_from a buffer f c (with_arrivals c p)) p.game).1)
      × AndThen (update_served a buffer f c p) (λ q. HeedsAlong j cs q)

  -- A sequence of updates.
  record Played (cs : List Circumstances) (p : Program) : Type 0 where
    pub after : Program
    pub result : play_served a buffer f cs p ≡ some after
    pub game_right : after.game ≡ (play f (heard_along a buffer f cs p) p.game).0
    pub cooperative :
        (j : ℕ)
        → HeedsAlong j cs p
        → hears (find j p.server.clients) ≡ true
        → (to_client j after.writes
            ≡ to_client j p.writes
              ++ map
                  (request_of a buffer)
                  (sents_for j (play f (heard_along a buffer f cs p) p.game).1))
          × (hears (find j after.server.clients) ≡ true)

  play_served-Played : (cs : List Circumstances) (p : Program) → IsOrderly p → Played cs p
  unfolding play_served play heard_along
  play_served-Played [] p orderly = record {
    after = p;
    result = refl;
    game_right = refl;
    cooperative = λ j well on. ((unfold sents_for in sym (append-nil (to_client j p.writes))), on);
  }
  play_served-Played (c ∷ cs) p orderly =
      let at_rest = arrive-IsAtRest c.arrivals p.server orderly.at_rest in
      let first =
        served-PhaseEnded c p.game.phase (with_arrivals c p)
          (record { at_rest = at_rest; is_store = orderly.is_store }) in
      let o = heard_from a buffer f c (with_arrivals c p) in
      let q : Program = record first.after { writes = p.writes ++ first.after.writes } in
      let updated : update_served a buffer f c p ≡ some q =
        unfold update_served in ap (writes_before a buffer f p.writes) first.result in
      let game : q.game ≡ (update f o p.game).0 = unfold update in first.game_right in
      let rest =
        play_served-Played cs q
          (record { at_rest = first.is_orderly.at_rest; is_store = first.is_orderly.is_store }) in
      let along : (play f (heard_along a buffer f cs q) q.game) ≡ (
          play f (then_heard (update_served a buffer f c p) (λ q'. heard_along a buffer f cs q'))
            (update f o p.game).0) =
        ap (λ g. play f (heard_along a buffer f cs q) g) game
        ∙ ap (λ r. play f (then_heard r (λ q'. heard_along a buffer f cs q')) (update f o p.game).0)
            (sym updated) in
      record {
        after = rest.after;
        result =
            ap (λ r. then_played a buffer f r (λ q'. play_served a buffer f cs q')) updated
            ∙ rest.result;
        game_right = rest.game_right ∙ ap (λ r. r.0) along;
        cooperative = λ j well on.
            let now =
              first.cooperative j (unfold update in well.0)
                (arrive-KeepsListening j c.arrivals p.server orderly.at_rest on) in
            let later =
              rest.cooperative j (subst (λ r. AndThen r (λ q'. HeedsAlong j cs q')) updated well.1)
                now.1 in
            (
              traced a buffer j p.writes first.after.writes (to_client j rest.after.writes)
                  (update f o p.game).1 _ _ (unfold update in now.0) later.0 (ap (λ r. r.1) along),
              later.1,
            );
      }

  -- With a packet library as documented, clients under their own ids in ascending order, empty queues at
  -- those whose threads go on, and the cells of memory below the next address: any number of updates, with
  -- the transactions going through the server, the threads and the sockets, and each thread making a round
  -- before a wait ends, has a result, whoever connects and whatever the sockets answer; no thread
  -- uses a client transaction that no longer exists. The game is the one that the updates of the game alone
  -- lead to, when the clients join and steer as their sockets answer.
  pub play_served-plays :
      (cs : List Circumstances) (p : Program)
      → IsOrderly p
      → (after : Program) × (play_served a buffer f cs p ≡ some after)
        × (after.game ≡ (play f (heard_along a buffer f cs p) p.game).0)
  play_served-plays cs p orderly =
      let played = play_served-Played cs p orderly in
      (played.after, played.result, played.game_right)

  -- With a packet library as documented, clients under their own ids in ascending order, empty queues at
  -- those whose threads go on, and the cells of memory below the next address: a client whose thread goes on,
  -- and whose socket in every update takes whole each request that is for the client and sends no bytes of a
  -- response's size but the response, stays connected through any number of updates, each thread making a
  -- round before a wait ends, whatever the other clients do. Its thread goes on, and its socket is handed,
  -- after what it was handed before, the requests of exactly those transactions of the game that are for it,
  -- in order.
  pub play_served-serves :
      (cs : List Circumstances) (p : Program) (k : ℕ)
      → IsOrderly p
      → hears (find k p.server.clients) ≡ true
      → HeedsAlong k cs p
      → (after : Program) × (play_served a buffer f cs p ≡ some after)
        × (hears (find k after.server.clients) ≡ true)
        × (to_client k after.writes
            ≡ to_client k p.writes
              ++ map
                  (request_of a buffer)
                  (sents_for k (play f (heard_along a buffer f cs p) p.game).1))
  play_served-serves cs p k orderly on well =
      let played = play_served-Played cs p orderly in
      let served = played.cooperative k well on in (played.after, played.result, served.1, served.0)
