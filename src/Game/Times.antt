-- ===== src/Game/Times.antt =====
-- The game time, a counter of the MOVE requests of `Game::update` (src/amgame.cpp).
use mniam_headless.Base.{
  ℕ, zero, suc, ◌+◌, ◌-◌, ◌/◌, ◌%◌, ◌^◌, ◌*◌, ◌||◌, ◌&&◌, not, ◌≡◌, refl, ap, sym, subst, ◌∙◌, Bool,
  true, false, Bool-cases, inl, inr, List, [], ◌∷◌, ◌++◌, length, is_empty, if◌then◌else◌, map,
  arith,
}
use mniam_headless.Engine.{FloatOps, World}
use mniam_headless.Amcom.{is_full_food, PlayerState, FoodState}
use mniam_headless.Game.State.{
  GamePhase, new_game_phase, food_update_phase, player_update_phase, move_phase, Food, Game, Sent,
  new_game_to, food_update_sent, player_update_sent, move_sent, game_over_sent,
}
use mniam_headless.Game.Setup.{Answers, join, join_all, position_food, set_out, new_game_request}
use mniam_headless.Game.Updates.{send_eaten, add_if_eaten}
use mniam_headless.Game.Phases.{Outside, move_request, update, play}
use mniam_headless.Game.Batches.{send_food-Batches, send_players-Batches}
use mniam_headless.Game.Cycle.{
  IsRunning, in_new_game, in_food_update, in_player_update, in_move, next_phase, update-next_phase,
  next-IsRunning,
}

-- The game times of the MOVE requests among what is sent.
pub moves : List Sent → List ℕ
moves [] = []
moves (move_sent t ∷ sent) = t ∷ moves sent
moves (_ ∷ sent) = moves sent

-- So many times from `t` on, each one more than the last, as a `uint32_t`.
pub times : ℕ → ℕ → List ℕ
times zero t = []
times (suc n) t = t ∷ times n ((t + 1) % 2 ^ 32)

-- The number of updates before the next one that moves.
abbrev pub wait : GamePhase → ℕ
wait new_game_phase = 3
wait food_update_phase = 2
wait player_update_phase = 1
wait _ = 0

moves-append : (xs ys : List Sent) → moves (xs ++ ys) ≡ moves xs ++ moves ys
unfolding moves
moves-append [] ys = refl
moves-append (new_game_to k n m ∷ xs) ys = moves-append xs ys
moves-append (food_update_sent b ∷ xs) ys = moves-append xs ys
moves-append (player_update_sent b ∷ xs) ys = moves-append xs ys
moves-append (move_sent t ∷ xs) ys = ap (◌∷◌ t) (moves-append xs ys)
moves-append (game_over_sent b ∷ xs) ys = moves-append xs ys

moves-food : (bs : List (List FoodState)) → moves (map food_update_sent bs) ≡ []
unfolding moves
moves-food [] = refl
moves-food (b ∷ bs) = moves-food bs

moves-players : (bs : List (List PlayerState)) → moves (map player_update_sent bs) ≡ []
unfolding moves
moves-players [] = refl
moves-players (b ∷ bs) = moves-players bs

moves_if :
    (b : Bool) (batch : List FoodState) (sent : List Sent)
    → moves (if b then food_update_sent batch ∷ sent else sent) ≡ moves sent
unfolding moves
moves_if true batch sent = refl
moves_if false batch sent = refl

moves-send_eaten :
    (w : World) (n : ℕ) (batch : List FoodState) (fs : List Food)
    → moves (send_eaten w n batch fs).1 ≡ []
unfolding moves send_eaten
moves-send_eaten w n batch [] = refl
moves-send_eaten w n batch (f ∷ fs) =
    let batch' = add_if_eaten w n f batch in
    let sends = is_full_food batch' || (is_empty fs && not (is_empty batch')) in
    let rest = send_eaten w ((n + 1) % 2 ^ 16) (if sends then [] else batch') fs in
    moves_if sends batch' rest.1
    ∙ moves-send_eaten w ((n + 1) % 2 ^ 16) (if sends then [] else batch') fs

moves-join_all :
    (f : FloatOps) (a : Answers) (n number : ℕ) (ks : List ℕ) (g : Game)
    → (moves (join_all f a n number ks g).1 ≡ [])
      × ((join_all f a n number ks g).0.game_time ≡ g.game_time)
unfolding moves join_all join
moves-join_all f a n number [] g = (refl, refl)
moves-join_all f a n number (k ∷ ks) g =
    let rest =
      moves-join_all f a n ((number + 1) % 256) ks (if a.joins k then join f a k g else g) in
    (
      rest.0,
      rest.1 ∙ elim (Bool-cases (a.joins k)) [
        | inl joins ↦ rw joins refl
        | inr refuses ↦ rw refuses refl
      ],
    )

position_food-game_time :
    (f : FloatOps) (a : Answers) (n : ℕ) (g : Game)
    → (position_food f a n g).game_time ≡ g.game_time
unfolding position_food
position_food-game_time f a zero g = refl
position_food-game_time f a (suc n) g = position_food-game_time f a n _

set_out-game_time :
    (f : FloatOps) (a : Answers) (g : Game) → (set_out f a g).game_time ≡ g.game_time
unfolding set_out
set_out-game_time f a g = position_food-game_time f a (length g.players * 6) _

-- What one update does about the game time.
abbrev ticks : GamePhase → ℕ → List ℕ × ℕ
ticks move_phase t = (t ∷ [], (t + 1) % 2 ^ 32)
ticks _ t = ([], t)

update-ticks :
    (f : FloatOps) (o : Outside) (g : Game) {q : GamePhase}
    → g.phase ≡ q
    → IsRunning q
    → (moves (update f o g).1 ≡ (ticks q g.game_time).0)
      × ((update f o g).0.game_time ≡ (ticks q g.game_time).1)
unfolding update new_game_request move_request moves
update-ticks f o g e in_new_game =
    let after = (join_all f o.answers (length o.answers.client_ids) 0 o.answers.client_ids g).0 in
    let joined =
      moves-join_all f o.answers (length o.answers.client_ids) 0 o.answers.client_ids g in
    simp e (joined.0, set_out-game_time f o.answers after ∙ joined.1)
update-ticks f o g e in_food_update =
    let (bs, sent, _) = send_food-Batches g.world g.food in
    simp e (ap moves sent ∙ moves-food bs, refl)
update-ticks f o g e in_player_update =
    let (bs, sent, _) = send_players-Batches player_update_sent g.world g.players in
    simp e (ap moves sent ∙ moves-players bs, refl)
update-ticks f o g e in_move = simp e (ap (◌∷◌ g.game_time) (moves-send_eaten _ 0 [] g.food), refl)

none_yet : {q : GamePhase} (t : ℕ) → IsRunning q → [] ≡ times ((0 + 1 - wait q) / 2) t
unfolding times
none_yet t in_new_game = refl
none_yet t in_food_update = refl
none_yet t in_player_update = refl
none_yet t in_move = refl

-- The times of an update, and of those after it.
tick :
    {q : GamePhase} (n t : ℕ)
    → IsRunning q
    → (ticks q t).0 ++ times ((n + 1 - wait (next_phase q)) / 2) (ticks q t).1
      ≡ times ((suc n + 1 - wait q) / 2) t
unfolding times
tick n t in_new_game = ap (λ k. times k t) (omega arith)
tick n t in_food_update = ap (λ k. times k t) (omega arith)
tick n t in_player_update = ap (λ k. times k t) (omega arith)
tick n t in_move =
    let more : (suc n + 1 - 0) / 2 ≡ suc ((n + 1 - 1) / 2) = omega arith in
    sym (ap (λ k. times k t) more)

-- In a match that runs, `n` updates send a MOVE request at the first update that moves and at every second
-- one after it, with consecutive game times from the present one on, as 32-bit numbers: `(n + 1 - wait) / 2`
-- requests, where `wait` is the number of updates before the first that moves.
pub play-times :
    (f : FloatOps) (os : List Outside) (g : Game)
    → IsRunning g.phase
    → moves (play f os g).1 ≡ times ((length os + 1 - wait g.phase) / 2) g.game_time
unfolding play moves
play-times f [] g h = none_yet g.game_time h
play-times f (o ∷ os) g h =
    let now = update-ticks f o g refl h in
    let g' = (update f o g).0 in
    let next : g'.phase ≡ next_phase g.phase = update-next_phase f o g in
    let later = play-times f os g' (subst IsRunning (sym next) (next-IsRunning h)) in
    moves-append (update f o g).1 (play f os g').1
    ∙ ap (λ l. l ++ moves (play f os g').1) now.0
    ∙ ap (λ l. (ticks g.phase g.game_time).0 ++ l)
        (later
          ∙ ap (λ q. times ((length os + 1 - wait q) / 2) g'.game_time) next
          ∙ ap (λ t. times ((length os + 1 - wait (next_phase g.phase)) / 2) t) now.1)
    ∙ tick (length os) g.game_time h
