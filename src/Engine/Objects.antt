-- ===== src/Engine/Objects.antt =====
-- src/engine/world_object.hpp and the object lists of `World` in src/engine/engine.hpp.
-- A float is its IEEE 754 bit pattern; the arithmetic on floats is the parameter `FloatOps`.
-- A pointer kept in a body's user data is a `Ref`: the object's place in the list that owns it.
use mniam_headless.Base.{ℕ, Bool, true, false, not, List, [], ◌∷◌, ◌++◌, length}
use mniam_headless.Base.Int.{ℤ, pos, ◌+ℤ◌, ◌-ℤ◌, ltb_ℤ}

abbrev pub Float : Type 0
Float = ℕ

-- The float operations that the program asks of the hardware and of <cmath>.
pub record FloatOps : Type 0 where
  pub add : Float → Float → Float
  pub mul : Float → Float → Float
  pub div : Float → Float → Float
  pub cos : Float → Float
  pub sin : Float → Float
  pub of_int : ℤ → Float
  -- (2 * 3.1416) / n, computed in double precision and rounded to a float.
  pub turn_part : ℕ → Float

-- 0.0f, 25.0f, 250.0f, 10.0f and 1000.0f
abbrev pub zero_float : Float
zero_float = 0

abbrev pub min_radius : Float
min_radius = 0x41c8_0000

abbrev pub quarter_thousand_float : Float
quarter_thousand_float = 0x437a_0000

abbrev pub ten_float : Float
ten_float = 0x4120_0000

abbrev pub thousand_float : Float
thousand_float = 0x447a_0000

pub record Vector2D : Type 0 where
  pub x : Float
  pub y : Float

-- What the program sets and reads of a `b2Body` and its one fixture.
pub record Body : Type 0 where
  pub position : Vector2D
  pub velocity : Vector2D
  pub radius : Float
  pub is_sensor : Bool
  pub enabled : Bool

pub record Mortal : Type 0 where
  pub hitpoints : ℤ
  pub body : Body

module _ (f : FloatOps) where
  open f use {of_int}

  -- The constructor of `Mortal`: the first radius is the hitpoints alone.
  unfoldable pub new_mortal : Vector2D → ℤ → Bool → Mortal
  new_mortal p initial_hp collision_enabled = record {
    hitpoints = initial_hp;
    body = record {
      position = p;
      velocity = record { x = zero_float; y = zero_float };
      radius = of_int initial_hp;
      is_sensor = not collision_enabled;
      enabled = true;
    };
  }

  unfoldable pub new_food : Vector2D → Mortal
  unfolding new_mortal
  new_food p = new_mortal p (pos 1) false

  unfoldable pub new_player : Vector2D → Mortal
  unfolding new_mortal
  new_player p = new_mortal p (pos 2) true

unfoldable pub alive : Mortal → Bool
alive m = ltb_ℤ (pos 0) m.hitpoints

unfoldable pub hp : Mortal → ℤ
hp m = m.hitpoints

unfoldable pub harm : ℤ → Mortal → Mortal
harm damage m = record m { hitpoints = m.hitpoints -ℤ damage }

unfoldable pub kill : Mortal → Mortal
unfolding harm
kill m = harm m.hitpoints m

unfoldable pub heal : ℤ → Mortal → Mortal
heal heal_power m = record m { hitpoints = m.hitpoints +ℤ heal_power }

unfoldable pub set_position : Vector2D → Mortal → Mortal
set_position p m = record m { body = record m.body { position = p } }

unfoldable pub get_position : Mortal → Vector2D
get_position m = m.body.position

unfoldable pub get_radius : Mortal → Float
get_radius m = m.body.radius

-- `Mortal::update` and `Player::setAngle`.
module _ (f : FloatOps) where
  open f use {add, mul, cos, sin, of_int}

  unfoldable pub update : Mortal → Mortal
  unfolding alive hp
  update m = record m {
    body = record m.body { radius = add min_radius (of_int (hp m)); enabled = alive m };
  }

  unfoldable pub set_angle : Float → Mortal → Mortal
  set_angle phi m = record m {
    body = record m.body {
      velocity = record { x = mul ten_float (cos phi); y = mul ten_float (sin phi) };
    };
  }

-- The user data of a body, typed by `WorldObject::Type`.
pub data Ref : Type 0 where
  null : Ref
  boundaries : Ref
  food_at : ℕ → Ref
  player_at : ℕ → Ref

pub record World : Type 0 where
  pub side_length : Float
  pub food : List Mortal
  pub players : List Mortal

unfoldable pub new_world : Float → World
new_world size = record { side_length = size; food = []; players = [] }

-- The new object stands at the end of its list; its place there is the reference that is returned.
module _ (f : FloatOps) where
  unfoldable pub add_food : Vector2D → World → World × ℕ
  unfolding new_food
  add_food p w = (record w { food = w.food ++ new_food f p ∷ [] }, length w.food)

  unfoldable pub add_player : Vector2D → World → World × ℕ
  unfolding new_player
  add_player p w = (record w { players = w.players ++ new_player f p ∷ [] }, length w.players)
