-- ===== src/Tests/Worlds.antt =====
-- A world with two players and two foods, one of them eaten, and a step in which the first player
-- eats the other food and then meets the second player.
use mniam_headless.Base.{
  ◌%◌, ◌^◌, ℕ, ◌*◌, ◌+◌, ◌≡◌, ◌<◌, refl, true, false, [], ◌∷◌, length, inl, inr, arith,
}
use mniam_headless.Base.Int.{◌+ℤ◌, ℤ, pos, negsuc, ◌≤ℤ◌}
use mniam_headless.Engine.{
  Float, FloatOps, Vector2D, Body, Mortal, World, new_world, add_food, add_player, Ref, food_at,
  player_at, Motion, Contact, Events, heal, step, update, process_ongoing_contacts, ongoing_contact,
  begin_contact,
}
use mniam_headless.Game.{Player, player_state}
use mniam_headless.Game.Reports.{player_state-hp}
use mniam_headless.Engine.Effects.{AtEdge, HasPlayer, HasFood}
use mniam_headless.Engine.Conservation.{step-total_hp, step-IsSound}
use mniam_headless.Engine.Hitpoints.{IsSound, total_hp}
use mniam_headless.Engine.Mortality.{IsDead, IsShown, step-IsShown, step-IsDead_player}
use mniam_headless.Engine.Bounds.{heal_fits}
use mniam_headless.Engine.Reachable.{Reach, start, fed, joined}
use mniam_headless.Engine.Rules.{Scores, scores, Move, Moves, eat, eaten}
use mniam_headless.Engine.Refinement.{step-Moves, Move-begin_contact}

abbrev float_of : ℤ → Float
float_of (pos n) = n
float_of (negsuc n) = n

abbrev pub ops : FloatOps
ops = record {
  add = λ a b. a + b;
  mul = λ a b. (a * b) % 2 ^ 32;
  div = λ a b. a;
  cos = λ a. a;
  sin = λ a. a;
  of_int = float_of;
  turn_part = λ n. n;
}

abbrev pub spot : Vector2D
spot = record { x = 3; y = 4 }

abbrev pub body : Body
body = record { position = spot; velocity = spot; radius = 26; is_sensor = false; enabled = true }

abbrev pub mortal : ℕ → Mortal
mortal n = record { hitpoints = pos n; body = body }

abbrev pub arena : World
arena = record {
  side_length = 1000;
  food = mortal 1 ∷ mortal 0 ∷ [];
  players = mortal 2 ∷ mortal 1 ∷ mortal 0 ∷ [];
}

abbrev pub still : ℕ → Motion
still i = record { position = spot; velocity = spot }

abbrev touch : Ref → Ref → Contact
touch a b = record { is_touching = true; fixture_a = a; fixture_b = b }

abbrev pub meal : Events
meal = record {
  food_motion = still;
  player_motion = still;
  begins = touch (food_at 0) (player_at 0) ∷ [];
  contacts = touch (player_at 1) (player_at 0) ∷ [];
}

arena-IsSound : IsSound arena
arena-IsSound = record {
  food_nonneg = (omega arith, (omega arith, tt));
  players_nonneg = (omega arith, (omega arith, (omega arith, tt)));
}

step-IsSound_example :
    IsSound (step ops meal arena) × (total_hp (step ops meal arena) ≤ℤ total_hp arena)
step-IsSound_example = step-IsSound ops meal arena arena-IsSound

meal_inside : ¬ AtEdge (food_at 0) (player_at 0)
meal_inside (inl e) = cc
meal_inside (inr e) = cc

step-total_hp_example : total_hp (step ops meal arena) ≡ total_hp arena
step-total_hp_example = step-total_hp ops meal arena (meal_inside, tt)

step-IsDead_player_example :
    (m : Mortal) × HasPlayer (step ops meal arena) 2 m × IsDead m × (m.body.enabled ≡ false)
step-IsDead_player_example =
    step-IsDead_player ops meal arena 2 (record { mortal = mortal 0; there = refl; dead = refl })

abbrev winner : Mortal
winner = record {
  hitpoints = pos 4;
  body = record {
    position = spot;
    velocity = spot;
    radius = 0x41c8_0004;
    is_sensor = false;
    enabled = true;
  };
}

winner_there : HasPlayer (step ops meal arena) 0 winner
unfolding step process_ongoing_contacts ongoing_contact begin_contact ◌+ℤ◌ update
winner_there = refl

step-IsShown_example : IsShown ops winner
step-IsShown_example = step-IsShown ops meal arena 0 winner (inl winner_there)

abbrev picnic : World
picnic = (add_food ops spot (add_player ops spot (new_world 1000)).0).0

picnic-Reach : Reach ops 1000 picnic
picnic-Reach = fed spot (joined spot start)

abbrev guest : Mortal
guest = record {
  hitpoints = pos 2;
  body = record {
    position = spot;
    velocity = record { x = 0; y = 0 };
    radius = 2;
    is_sensor = false;
    enabled = true;
  };
}

abbrev crumb : Mortal
crumb = record {
  hitpoints = pos 1;
  body = record {
    position = spot;
    velocity = record { x = 0; y = 0 };
    radius = 1;
    is_sensor = true;
    enabled = true;
  };
}

few_guests : 2 * length picnic.players + length picnic.food < 2147483648
unfolding add_food add_player new_world
few_guests = omega arith

guest_there : HasPlayer picnic 0 guest
unfolding add_food add_player new_world
guest_there = refl

crumb_there : HasFood picnic 0 crumb
unfolding add_food add_player new_world
crumb_there = refl

heal_fits_example :
    (pos 0 ≤ℤ (heal crumb.hitpoints guest).hitpoints)
    × ((heal crumb.hitpoints guest).hitpoints ≤ℤ pos 2147483647)
heal_fits_example = heal_fits 0 0 guest crumb picnic-Reach few_guests guest_there (inl crumb_there)

abbrev eater : Player
eater = record { engine_player = 0; last_hp = pos 2; client_id = 3; name = [] }

picnic_small : 2 * length picnic.players + length picnic.food < 65536
unfolding add_food add_player new_world
picnic_small = omega arith

player_state-hp_example : pos (player_state picnic 4 eater).hp ≡ guest.hitpoints
player_state-hp_example = player_state-hp 4 eater guest picnic-Reach picnic_small guest_there

step-Moves_example : Moves (1 + 1) (scores arena) (scores (step ops meal arena))
step-Moves_example = step-Moves ops meal arena

-- The first player eats the first food.
abbrev fed_scores : Scores
fed_scores = eaten 0 0 (pos 1) (pos 2) (scores arena)

eats_first : Move (scores arena) fed_scores
eats_first = eat 0 0 (pos 1) (pos 2) refl refl refl refl refl

Move-begin_contact_example : (a : Ref) × (b : Ref) × (scores (begin_contact a b arena) ≡ fed_scores)
Move-begin_contact_example = Move-begin_contact arena fed_scores eats_first
