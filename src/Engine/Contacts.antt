-- ===== src/Engine/Contacts.antt =====
-- `ContactListener` of src/engine/engine.cpp. A handler gets references to two objects and writes
-- through them, so it is a function on the world. A reference to no object stands for a null
-- pointer. The output under `verbose`, which is false, is left out.
use mniam_headless.Base.{
  ℕ, Bool, true, false, ◌&&◌, Option, none, some, get_elem?, set, if◌then◌else◌,
}
use mniam_headless.Base.Int.{ltb_ℤ}
use mniam_headless.Engine.Objects.{
  Mortal, World, Ref, null, boundaries, food_at, player_at, alive, hp, kill, heal,
}

unfoldable pub set_food : ℕ → Mortal → World → World
set_food i m w = record w { food = set w.food i m }

unfoldable pub set_player : ℕ → Mortal → World → World
set_player i m w = record w { players = set w.players i m }

-- `handle(MapBoundaries&, Food&)`
unfoldable pub map_food : ℕ → Mortal → World → World
unfolding kill set_food
map_food i o2 w = set_food i (kill o2) w

-- `handle(Food&, Player&)`
unfoldable pub food_player : ℕ → Mortal → ℕ → Mortal → World → World
unfolding alive hp kill heal set_food set_player
food_player i o1 j o2 w =
    if alive o1 && alive o2 then set_food i (kill o1) (set_player j (heal (hp o1) o2) w) else w

-- The comparison and the two branches of `handle(Player&, Player&)`.
unfoldable pub fight : ℕ → Mortal → ℕ → Mortal → World → World
unfolding hp kill heal set_player
fight i o1 j o2 w =
    if ltb_ℤ (hp o2) (hp o1)
    then set_player j (kill o2) (set_player i (heal (hp o2) o1) w)
    else if ltb_ℤ (hp o1) (hp o2)
    then set_player i (kill o1) (set_player j (heal (hp o1) o2) w)
    else w

-- `handle(Player&, Player&)`
unfoldable pub player_player : ℕ → Mortal → ℕ → Mortal → World → World
unfolding alive fight
player_player i o1 j o2 w = if alive o1 && alive o2 then fight i o1 j o2 w else w

-- An object that a reference leads to, with its place.
pub data Object : Type 0 where
  nothing : Object
  the_map : Object
  a_food : ℕ → Mortal → Object
  a_player : ℕ → Mortal → Object

abbrev pub food_object : ℕ → Option Mortal → Object
food_object i none = nothing
food_object i (some m) = a_food i m

abbrev pub player_object : ℕ → Option Mortal → Object
player_object i none = nothing
player_object i (some m) = a_player i m

unfoldable pub resolve : World → Ref → Object
resolve w null = nothing
resolve w boundaries = the_map
resolve w (food_at i) = food_object i (get_elem? w.food i)
resolve w (player_at i) = player_object i (get_elem? w.players i)

-- The two-level dispatch: `BeginContact` on the type of the first object, the template
-- `handle(T&, WorldObject&)` on the type of the second, and the overloads that swap the two.
unfoldable pub dispatch : Object → Object → World → World
unfolding map_food food_player player_player
dispatch the_map the_map w = w
dispatch the_map (a_food j o2) w = map_food j o2 w
dispatch the_map (a_player j o2) w = w
dispatch (a_food i o1) the_map w = map_food i o1 w
dispatch (a_food i o1) (a_food j o2) w = w
dispatch (a_food i o1) (a_player j o2) w = food_player i o1 j o2 w
dispatch (a_player i o1) the_map w = w
dispatch (a_player i o1) (a_food j o2) w = food_player j o2 i o1 w
dispatch (a_player i o1) (a_player j o2) w = player_player i o1 j o2 w
dispatch _ _ w = w

unfoldable pub begin_contact : Ref → Ref → World → World
unfolding resolve dispatch
begin_contact a b w = dispatch (resolve w a) (resolve w b) w

abbrev is_boundaries : Object → Bool
is_boundaries the_map = true
is_boundaries _ = false

-- `PreSolve`: whether the contact stays enabled. It reads both types with no test for null; `none`
-- is the dereference of a null pointer.
abbrev pre_solve_objects : Object → Object → Option Bool
pre_solve_objects nothing b = none
pre_solve_objects a nothing = none
pre_solve_objects the_map b = some true
pre_solve_objects a the_map = some true
pre_solve_objects _ _ = some false

unfoldable pub pre_solve : World → Ref → Ref → Option Bool
unfolding resolve
pre_solve w a b = pre_solve_objects (resolve w a) (resolve w b)
