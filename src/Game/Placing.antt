-- ===== src/Game/Placing.antt =====
-- Where the bodies stand while the game goes on (src/amgame.cpp).
use mniam_headless.Base.{
  ℕ, zero, suc, ◌+◌, ◌*◌, ◌%◌, ◌^◌, ◌<◌, ◌≡◌, refl, Bool, true, false, List, [], ◌∷◌, Option, none,
  some, length, get_elem?, if◌then◌else◌, All, All-set, All-get_elem?,
}
use mniam_headless.Engine.{Float, FloatOps, Mortal, World, set_position, set_angle, zero_float}
use mniam_headless.Engine.Positions.{
  Fits, PositionFits, WorldFits, EventsFit, init_world-WorldFits, step-WorldFits,
  add_food-WorldFits, add_player-WorldFits,
}
use mniam_headless.Game.State.{
  Player, Game, GamePhase, change_at, update_players, new_game_phase, food_update_phase,
  player_update_phase, move_phase, game_over_phase, main_menu, tester, game_idle, game_end,
}
use mniam_headless.Game.Setup.{
  Answers, join, join_all, position_players, position_food, set_out, new_game_request,
}
use mniam_headless.Game.Phases.{Outside, steer_all, five_steps, move_request, update_phase}

-- The product of two floats is a bit pattern.
abbrev pub ProductsFit : FloatOps → Type 0
ProductsFit f = (x y : Float) → f.mul x y < 2 ^ 32

abbrev pub AnswersFit : Answers → Type 0
AnswersFit a = ((i : ℕ) → Fits (a.player_position i)) × ((i : ℕ) → Fits (a.food_position i))

abbrev pub OutsideFits : Outside → Type 0
OutsideFits o = AnswersFit o.answers × ((i : ℕ) → EventsFit (o.events i))

-- A change of one body that leaves its place, or puts it where it fits.
change_at-Fits :
    (i : ℕ) (g : Mortal → Mortal) (ms : List Mortal)
    → ((m : Mortal) → PositionFits m → PositionFits (g m))
    → All PositionFits ms
    → All PositionFits (change_at i g ms)
change_at-Fits i g ms keep h = go (get_elem? ms i) refl
  where
    go : (o : Option Mortal) → get_elem? ms i ≡ o → All PositionFits (change_at i g ms)
    go none e = rw e h
    go (some m) e =
        rw e (All-set PositionFits ms i (g m) (keep m (All-get_elem? PositionFits ms i m e h)) h)

steer_all-WorldFits :
    (f : FloatOps) (angle : ℕ → Float) (ps : List Player) (w : World)
    → WorldFits w
    → WorldFits (steer_all f angle ps w)
unfolding steer_all set_angle
steer_all-WorldFits f angle [] w h = h
steer_all-WorldFits f angle (p ∷ ps) w h =
    steer_all-WorldFits f angle ps _ (
      h.0,
      change_at-Fits p.engine_player (set_angle f (angle p.client_id)) w.players (λ m q. q) h.1,
    )

position_players-WorldFits :
    (f : FloatOps) (step angle : Float) (ps : List Player) (w : World)
    → ProductsFit f
    → WorldFits w
    → WorldFits (position_players f step angle ps w)
unfolding position_players set_angle set_position
position_players-WorldFits f step angle [] w product h = h
position_players-WorldFits f step angle (p ∷ ps) w product h =
    position_players-WorldFits f step (f.add angle step) ps _ product
      (h.0, change_at-Fits p.engine_player _ w.players (λ m q. (product _ _, product _ _)) h.1)

position_food-WorldFits :
    (f : FloatOps) (a : Answers) (n : ℕ) (g : Game)
    → AnswersFit a
    → WorldFits g.world
    → WorldFits (position_food f a n g).world
unfolding position_food
position_food-WorldFits f a zero g fits h = h
position_food-WorldFits f a (suc n) g fits h =
    position_food-WorldFits f a n _ fits
      (add_food-WorldFits f (a.food_position (length g.world.food)) g.world (fits.1 _) h)

join_all-WorldFits :
    (f : FloatOps) (a : Answers) (n number : ℕ) (ks : List ℕ) (g : Game)
    → AnswersFit a
    → WorldFits g.world
    → WorldFits (join_all f a n number ks g).0.world
unfolding join_all join
join_all-WorldFits f a n number [] g fits h = h
join_all-WorldFits f a n number (k ∷ ks) g fits h =
    join_all-WorldFits f a n ((number + 1) % 256) ks _ fits (go (a.joins k))
  where
    go : (b : Bool) → WorldFits (if b then join f a k g else g).world
    go true =
        add_player-WorldFits f (a.player_position (length g.world.players)) g.world (fits.0 _) h
    go false = h

new_game_request-WorldFits :
    (f : FloatOps) (a : Answers) (g : Game)
    → ProductsFit f
    → AnswersFit a
    → WorldFits g.world
    → WorldFits (new_game_request f a g).0.world
unfolding new_game_request set_out
new_game_request-WorldFits f a g product fits h =
    let g' = (join_all f a (length a.client_ids) 0 a.client_ids g).0 in
    let joined = join_all-WorldFits f a (length a.client_ids) 0 a.client_ids g fits h in
    let placed =
      position_players f (f.turn_part (length g'.players)) zero_float g'.players g'.world in
    let fed =
      position_food f a (length g'.players * 6)
        (record g' { world = placed; players = update_players placed g'.players }) in
    init_world-WorldFits f fed.world (
      position_food-WorldFits f a (length g'.players * 6) _ fits (
        position_players-WorldFits f (f.turn_part (length g'.players)) zero_float g'.players
          g'.world product joined))

pub move_request-WorldFits :
    (f : FloatOps) (o : Outside) (g : Game)
    → OutsideFits o
    → WorldFits g.world
    → WorldFits (move_request f o g).0.world
unfolding move_request five_steps
move_request-WorldFits f o g fits h =
    let one =
      λ (i : ℕ) (w : World) (q : WorldFits w). step-WorldFits f (o.events i) w (fits.1 i) q in
    one 4 _ (one 3 _ (one 2 _ (one 1 _ (one 0 _ (steer_all-WorldFits f _ g.players g.world h)))))

-- An update keeps the bodies where coordinates are bit patterns.
pub update-WorldFits :
    (f : FloatOps) (o : Outside) (phase : GamePhase) (g : Game)
    → ProductsFit f
    → OutsideFits o
    → WorldFits g.world
    → WorldFits (update_phase f o phase g).0.world
update-WorldFits f o new_game_phase g product fits h =
    new_game_request-WorldFits f o.answers g product fits.0 h
update-WorldFits f o move_phase g product fits h = move_request-WorldFits f o g fits h
update-WorldFits f o food_update_phase g product fits h = h
update-WorldFits f o player_update_phase g product fits h = h
update-WorldFits f o game_over_phase g product fits h = h
update-WorldFits f o main_menu g product fits h = h
update-WorldFits f o tester g product fits h = h
update-WorldFits f o game_idle g product fits h = h
update-WorldFits f o game_end g product fits h = h
