-- ===== src/Game/Fitting.antt =====
-- The states that the game (src/amgame.cpp) puts into its updates, and the fields of the packets.
use mniam_headless.Base.{
  ℕ, ◌+◌, ◌%◌, ◌^◌, ◌<◌, ◌≤◌, sym, subst, Bool-cases, inl, inr, List, [], ◌∷◌, map, length, arith,
  All, All-append,
}
use mniam_headless.Engine.{FloatOps, World}
use mniam_headless.Engine.Positions.{PositionFits, WorldFits}
use mniam_headless.Amcom.{PlayerState, max_food_updates, max_player_updates}
use mniam_headless.Amcom.RoundTrip.{PlayerFits, FoodFits}
use mniam_headless.Game.State.{
  Food, Player, Game, GamePhase, Sent, new_game_to, food_update_sent, player_update_sent, move_sent,
  game_over_sent, new_game_phase, food_update_phase, player_update_phase, move_phase,
  game_over_phase, main_menu, tester, game_idle, game_end,
}
use mniam_headless.Game.Setup.{Answers, join_all, new_game_request}
use mniam_headless.Game.Updates.{send_food, send_players, send_eaten, eaten_state}
use mniam_headless.Game.Batches.{flatten, send_food-Batches, send_players-Batches}
use mniam_headless.Game.Broadcast.{
  food_states-FoodFits, player_states-PlayerFits, All-split, Filled-le, get_elem?-Fits,
}
use mniam_headless.Game.Eaten.{reported, eaten_states, just_eaten, IsUpdate, send_eaten-reported}
use mniam_headless.Game.Phases.{Outside, update, update_phase, play, move_request}
use mniam_headless.Game.Placing.{ProductsFit, OutsideFits, update-WorldFits, move_request-WorldFits}
use mniam_headless.Game.Reading.{SentFits}

batches-fit :
    {A : Type 0} (fits : A → Type 0) (max : ℕ) (bs : List (List A))
    → All fits (flatten bs)
    → All (λ b. length b ≤ max) bs
    → All (λ b. All fits b × (length b ≤ max)) bs
batches-fit fits max [] h few = tt
batches-fit fits max (b ∷ bs) h few =
    let (here, later) = All-split fits b (flatten bs) h in
    ((here, few.0), batches-fit fits max bs later few.1)

sent-fit :
    {A : Type 0} (sent : List A → Sent) (P : List A → Type 0) (bs : List (List A))
    → ((b : List A) → P b → SentFits (sent b))
    → All P bs
    → All SentFits (map sent bs)
sent-fit sent P [] each h = tt
sent-fit sent P (b ∷ bs) each h = (each b h.0, sent-fit sent P bs each h.1)

send_food-SentFits : (w : World) (fs : List Food) → WorldFits w → All SentFits (send_food w 0 [] fs)
send_food-SentFits w fs h =
    let (bs, sent, batches) = send_food-Batches w fs in
    let fits : All FoodFits (flatten bs) =
      subst (All FoodFits) (sym batches.all_sent) (food_states-FoodFits w 0 fs h.0 (omega arith)) in
    subst (All SentFits) (sym sent) (
      sent-fit food_update_sent _ bs (λ b q. q)
        (batches-fit FoodFits max_food_updates bs fits
          (Filled-le max_food_updates bs batches.filled)))

send_players-SentFits :
    (sent : List PlayerState → Sent) (w : World) (ps : List Player)
    → ((b : List PlayerState)
        → All PlayerFits b × (length b ≤ max_player_updates)
        → SentFits (sent b))
    → WorldFits w
    → All SentFits (send_players sent w 0 [] ps)
send_players-SentFits sent w ps each h =
    let (bs, all, batches) = send_players-Batches sent w ps in
    let fits : All PlayerFits (flatten bs) =
      subst (All PlayerFits) (sym batches.all_sent) (player_states-PlayerFits w 0 ps h.1) in
    subst (All SentFits) (sym all) (
      sent-fit sent _ bs each (
        batches-fit PlayerFits max_player_updates bs fits
          (Filled-le max_player_updates bs batches.filled)))

eaten_states-FoodFits :
    (w : World) (n : ℕ) (fs : List Food)
    → All PositionFits w.food
    → n < 2 ^ 16
    → All FoodFits (eaten_states w n fs)
unfolding eaten_states eaten_state
eaten_states-FoodFits w n [] h small = tt
eaten_states-FoodFits w n (f ∷ fs) h small =
    let (x, y) = get_elem?-Fits w.food f.engine_food h in
    let rest = eaten_states-FoodFits w ((n + 1) % 2 ^ 16) fs h (omega arith) in
    elim (Bool-cases (just_eaten w f)) [
      | inl eaten ↦ rw eaten (record { food_no_fits = small; x_fits = x; y_fits = y }, rest)
      | inr left ↦ rw left rest
    ]

updates-SentFits : (ss : List Sent) → All IsUpdate ss → All FoodFits (reported ss) → All SentFits ss
unfolding reported
updates-SentFits [] updates fits = tt
updates-SentFits (food_update_sent b ∷ ss) updates fits =
    let (here, later) = All-split FoodFits b (reported ss) fits in
    ((here, updates.0.1), updates-SentFits ss updates.1 later)
updates-SentFits (new_game_to _ _ _ ∷ ss) updates fits = elim updates.0 [ ]
updates-SentFits (player_update_sent _ ∷ ss) updates fits = elim updates.0 [ ]
updates-SentFits (move_sent _ ∷ ss) updates fits = elim updates.0 [ ]
updates-SentFits (game_over_sent _ ∷ ss) updates fits = elim updates.0 [ ]

send_eaten-SentFits :
    (w : World) (fs : List Food) → WorldFits w → All SentFits (send_eaten w 0 [] fs).1
send_eaten-SentFits w fs h =
    let (states, updates) = send_eaten-reported w fs in
    updates-SentFits (send_eaten w 0 [] fs).1 updates
      (subst (All FoodFits) (sym states) (eaten_states-FoodFits w 0 fs h.0 (omega arith)))

join_all-SentFits :
    (f : FloatOps) (a : Answers) (n number : ℕ) (ks : List ℕ) (g : Game)
    → All SentFits (join_all f a n number ks g).1
unfolding join_all
join_all-SentFits f a n number [] g = tt
join_all-SentFits f a n number (k ∷ ks) g = (tt, join_all-SentFits f a n ((number + 1) % 256) ks _)

update-SentFits :
    (f : FloatOps) (o : Outside) (phase : GamePhase) (g : Game)
    → OutsideFits o
    → WorldFits g.world
    → All SentFits (update_phase f o phase g).1
unfolding new_game_request move_request
update-SentFits f o new_game_phase g fits h =
    join_all-SentFits f o.answers (length o.answers.client_ids) 0 o.answers.client_ids g
update-SentFits f o move_phase g fits h = (
  tt,
  send_eaten-SentFits (move_request f o g).0.world g.food (move_request-WorldFits f o g fits h),
)
update-SentFits f o food_update_phase g fits h = send_food-SentFits g.world g.food h
update-SentFits f o player_update_phase g fits h =
    send_players-SentFits player_update_sent g.world g.players (λ b q. q) h
update-SentFits f o game_over_phase g fits h =
    send_players-SentFits game_over_sent g.world g.players (λ b q. q.1) h
update-SentFits f o main_menu g fits h = tt
update-SentFits f o tester g fits h = tt
update-SentFits f o game_idle g fits h = tt
update-SentFits f o game_end g fits h = tt

-- Through any number of updates, where all places are bit patterns of floats.
pub play-SentFits :
    (f : FloatOps) (os : List Outside) (g : Game)
    → ProductsFit f
    → All OutsideFits os
    → WorldFits g.world
    → All SentFits (play f os g).1
unfolding play update
play-SentFits f [] g product fits h = tt
play-SentFits f (o ∷ os) g product fits h =
    All-append SentFits (update f o g).1 _ (update-SentFits f o g.phase g fits.0 h) (
      play-SentFits f os (update f o g).0 product fits.1
        (update-WorldFits f o g.phase g product fits.0 h))
