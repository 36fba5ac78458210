-- ===== src/Game/Cycle.antt =====
-- The order of the phases, and the world that a game leaves.
use mniam_headless.Base.{
  ℕ, zero, suc, ◌+◌, ◌*◌, ◌%◌, ◌≡◌, refl, Bool, true, false, List, [], ◌∷◌, some, none, Option,
  get_elem?, length, if◌then◌else◌,
}
use mniam_headless.Engine.{
  Float, FloatOps, Mortal, Body, Vector2D, zero_float, quarter_thousand_float, World, Events,
  set_player, set_position, set_angle, thousand_float,
}
use mniam_headless.Engine.Bounds.{Reach-total_hp}
use mniam_headless.Engine.Reachable.{Reach, start, fed, joined, rebodied, refreshed, step-Reach}
use mniam_headless.Engine.Hitpoints.{IsSound, total_hp}
use mniam_headless.Base.Int.{pos, ◌≤ℤ◌}
use mniam_headless.Connection.{Server}
use mniam_headless.Amcom.{get_angle}
use mniam_headless.Game.State.{
  GamePhase, main_menu, tester, game_idle, new_game_phase, player_update_phase, food_update_phase,
  move_phase, game_over_phase, game_end, Player, Game, change_found, new_game, update_players,
}
use mniam_headless.Game.Setup.{
  Answers, join, join_all, position_players, position_food, set_out, new_game_request, new_match,
}
use mniam_headless.Game.Phases.{
  Outside, steer_all, five_steps, update_phase, move_request, update, play,
}

-- The phase that follows, by the comments "move to next game phase".
abbrev pub next_phase : GamePhase → GamePhase
next_phase new_game_phase = food_update_phase
next_phase food_update_phase = player_update_phase
next_phase player_update_phase = move_phase
next_phase move_phase = player_update_phase
next_phase game_over_phase = game_end
next_phase q = q

update_phases :
    (f : FloatOps) (o : Outside) (g : Game) (q : GamePhase)
    → g.phase ≡ q
    → (update f o g).0.phase ≡ next_phase q
unfolding update set_out
update_phases f o g new_game_phase e = rw e
update_phases f o g food_update_phase e = rw e
update_phases f o g player_update_phase e = rw e
update_phases f o g move_phase e = rw e
update_phases f o g game_over_phase e = rw e
update_phases f o g main_menu e = rw e
update_phases f o g tester e = rw e
update_phases f o g game_idle e = rw e
update_phases f o g game_end e = rw e

-- An update leads from each phase to the one that follows it, whatever the clients answer.
pub update-next_phase :
    (f : FloatOps) (o : Outside) (g : Game) → (update f o g).0.phase ≡ next_phase g.phase
update-next_phase f o g = update_phases f o g g.phase refl

-- The phases of a match that nobody finishes.
pub data IsRunning : GamePhase → Type 0 where
  in_new_game : IsRunning new_game_phase
  in_food_update : IsRunning food_update_phase
  in_player_update : IsRunning player_update_phase
  in_move : IsRunning move_phase

pub next-IsRunning : {q : GamePhase} → IsRunning q → IsRunning (next_phase q)
next-IsRunning in_new_game = in_food_update
next-IsRunning in_food_update = in_player_update
next-IsRunning in_player_update = in_move
next-IsRunning in_move = in_player_update

-- From a phase of a running match, the loop of `main` leads only to such phases: the game is never over.
pub play-IsRunning :
    (f : FloatOps) (os : List Outside) (g : Game)
    → IsRunning g.phase
    → IsRunning (play f os g).0.phase
unfolding play
play-IsRunning f [] g h = h
play-IsRunning f (o ∷ os) g h =
    play-IsRunning f os (update f o g).0 (rw (update-next_phase f o g) (next-IsRunning h))

-- A change of a player's body alone, at a reference that may lead to no player.
change_found-Reach :
    (f : FloatOps) (size : Float) (i : ℕ) (b : Mortal → Body) (w : World) (o : Option Mortal)
    → get_elem? w.players i ≡ o
    → Reach f size w
    → Reach f size
        (record w { players = change_found i (λ m. record m { body = b m }) w.players o })
unfolding set_player
change_found-Reach f size i b w none e r = r
change_found-Reach f size i b w (some m) e r = rebodied i m (b m) e r

steer_all-Reach :
    (f : FloatOps) (size : Float) (angle : ℕ → Float) (ps : List Player) (w : World)
    → Reach f size w
    → Reach f size (steer_all f angle ps w)
unfolding steer_all
steer_all-Reach f size angle [] w r = r
steer_all-Reach f size angle (p ∷ ps) w r = steer_all-Reach f size angle ps _ (
    change_found-Reach f size p.engine_player (λ m. (set_angle f (angle p.client_id) m).body) w
      (get_elem? w.players p.engine_player) refl r)

position_players-Reach :
    (f : FloatOps) (size part angle : Float) (ps : List Player) (w : World)
    → Reach f size w
    → Reach f size (position_players f part angle ps w)
unfolding position_players
position_players-Reach f size part angle [] w r = r
position_players-Reach f size part angle (p ∷ ps) w r =
    let spot : Vector2D = record {
      x = f.mul quarter_thousand_float (f.cos angle);
      y = f.mul quarter_thousand_float (f.sin angle);
    } in
    position_players-Reach f size part (f.add angle part) ps _ (
      change_found-Reach f size p.engine_player
        (λ m. (set_angle f zero_float (set_position spot m)).body) w
        (get_elem? w.players p.engine_player) refl r)

position_food-Reach :
    (f : FloatOps) (size : Float) (a : Answers) (n : ℕ) (g : Game)
    → Reach f size g.world
    → Reach f size (position_food f a n g).world
unfolding position_food
position_food-Reach f size a zero g r = r
position_food-Reach f size a (suc n) g r = position_food-Reach f size a n _ (fed _ r)

joined_if-Reach :
    (f : FloatOps) (size : Float) (a : Answers) (k : ℕ) (g : Game) (b : Bool)
    → Reach f size g.world
    → Reach f size (if b then join f a k g else g).world
unfolding join
joined_if-Reach f size a k g true r = joined _ r
joined_if-Reach f size a k g false r = r

join_all-Reach :
    (f : FloatOps) (size : Float) (a : Answers) (n player_no : ℕ) (ks : List ℕ) (g : Game)
    → Reach f size g.world
    → Reach f size (join_all f a n player_no ks g).0.world
unfolding join_all
join_all-Reach f size a n player_no [] g r = r
join_all-Reach f size a n player_no (k ∷ ks) g r =
    join_all-Reach f size a n ((player_no + 1) % 256) ks _
      (joined_if-Reach f size a k g (a.joins k) r)

five_steps-Reach :
    (f : FloatOps) (size : Float) (e : ℕ → Events) (w : World)
    → Reach f size w
    → Reach f size (five_steps f e w)
unfolding five_steps
five_steps-Reach f size e w r = step-Reach f size (e 4) (
    step-Reach f size (e 3)
      (step-Reach f size (e 2) (step-Reach f size (e 1) (step-Reach f size (e 0) r))))

set_out-Reach :
    (f : FloatOps) (size : Float) (a : Answers) (g : Game)
    → Reach f size g.world
    → Reach f size (set_out f a g).world
unfolding set_out
set_out-Reach f size a g r =
    let part = f.turn_part (length g.players) in
    let placed = position_players f part zero_float g.players g.world in
    refreshed (
      position_food-Reach f size a (length g.players * 6)
        (record g { world = placed; players = update_players placed g.players })
        (position_players-Reach f size part zero_float g.players g.world r))

update_phase-Reach :
    (f : FloatOps) (size : Float) (o : Outside) (q : GamePhase) (g : Game)
    → Reach f size g.world
    → Reach f size (update_phase f o q g).0.world
unfolding new_game_request move_request
update_phase-Reach f size o new_game_phase g r =
    set_out-Reach f size o.answers
      (join_all f o.answers (length o.answers.client_ids) 0 o.answers.client_ids g).0
      (join_all-Reach f size o.answers (length o.answers.client_ids) 0 o.answers.client_ids g r)
update_phase-Reach f size o food_update_phase g r = r
update_phase-Reach f size o player_update_phase g r = r
update_phase-Reach f size o move_phase g r =
    five_steps-Reach f size o.events _
      (steer_all-Reach f size (λ k. get_angle k o.moves) g.players g.world r)
update_phase-Reach f size o game_over_phase g r = r
update_phase-Reach f size o main_menu g r = r
update_phase-Reach f size o tester g r = r
update_phase-Reach f size o game_idle g r = r
update_phase-Reach f size o game_end g r = r

-- However long a game is played, its world is one for which the engine's bounds hold: from such a
-- world, the loop of `main` leads to such a world.
pub play-Reach :
    (f : FloatOps) (size : Float) (os : List Outside) (g : Game)
    → Reach f size g.world
    → Reach f size (play f os g).0.world
unfolding play update
play-Reach f size [] g r = r
play-Reach f size (o ∷ os) g r =
    play-Reach f size os (update f o g).0 (update_phase-Reach f size o g.phase g r)

-- After any number of rounds of a match in a new game, whatever the clients and the physics do, no hitpoints are negative, and
-- all hitpoints together are at most two for each player and one for each food.
pub play-total_hp :
    (f : FloatOps) (os : List Outside) (v : Server)
    → let w = (play f os (new_match v new_game).1).0.world in
      IsSound w × (total_hp w ≤ℤ pos (2 * length w.players + length w.food))
unfolding new_match new_game
play-total_hp f os v =
    Reach-total_hp (play-Reach f thousand_float os (new_match v new_game).1 start)
