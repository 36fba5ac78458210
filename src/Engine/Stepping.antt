-- ===== src/Engine/Stepping.antt =====
-- `World::init`, `World::step` and `World::processOngioingContacts` of src/engine/engine.cpp.
-- What Box2D does in `b2World::Step` is the argument `Events`: the motion that each body ends
-- with, the contacts that begin on the way and the contact list afterwards.
use mniam_headless.Base.{ℕ, suc, Bool, List, [], ◌∷◌, map, if◌then◌else◌}
use mniam_headless.Engine.Objects.{FloatOps, Vector2D, Mortal, World, Ref, update}
use mniam_headless.Engine.Contacts.{Object, a_player, resolve, player_player, begin_contact}

pub record Motion : Type 0 where
  pub position : Vector2D
  pub velocity : Vector2D

pub record Contact : Type 0 where
  pub is_touching : Bool
  pub fixture_a : Ref
  pub fixture_b : Ref

pub record Events : Type 0 where
  pub food_motion : ℕ → Motion
  pub player_motion : ℕ → Motion
  pub begins : List Contact
  pub contacts : List Contact

unfoldable pub move_body : Motion → Mortal → Mortal
move_body v m = record m { body = record m.body { position = v.position; velocity = v.velocity } }

-- The objects of a list, each moved by the motion at its place.
unfoldable pub move_all : (ℕ → Motion) → ℕ → List Mortal → List Mortal
unfolding move_body
move_all v i [] = []
move_all v i (m ∷ ms) = move_body (v i) m ∷ move_all v (suc i) ms

unfoldable pub begin_all : List Contact → World → World
begin_all [] w = w
begin_all (c ∷ cs) w = begin_all cs (begin_contact c.fixture_a c.fixture_b w)

unfoldable pub move_world : Events → World → World
unfolding move_all
move_world e w = record w {
  food = move_all e.food_motion 0 w.food;
  players = move_all e.player_motion 0 w.players;
}

-- `b2World::Step`, as far as the program sees it.
unfoldable pub physics_step : Events → World → World
unfolding move_world begin_all
physics_step e w = begin_all e.begins (move_world e w)

-- Only a pair of players is handled again while it keeps touching.
unfoldable pub ongoing_objects : Object → Object → World → World
unfolding player_player
ongoing_objects (a_player i o1) (a_player j o2) w = player_player i o1 j o2 w
ongoing_objects _ _ w = w

unfoldable pub ongoing_contact : Contact → World → World
unfolding resolve ongoing_objects
ongoing_contact c w =
    if c.is_touching then ongoing_objects (resolve w c.fixture_a) (resolve w c.fixture_b) w else w

unfoldable pub process_ongoing_contacts : List Contact → World → World
process_ongoing_contacts [] w = w
process_ongoing_contacts (c ∷ cs) w = process_ongoing_contacts cs (ongoing_contact c w)

module _ (f : FloatOps) where
  -- `World::init`, which is also the end of `World::step`.
  unfoldable pub init_world : World → World
  init_world w = record w { players = map (update f) w.players; food = map (update f) w.food }

  unfoldable pub step : Events → World → World
  unfolding physics_step init_world
  step e w = init_world (process_ongoing_contacts e.contacts (physics_step e w))
