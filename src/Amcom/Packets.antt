-- ===== src/Amcom/Packets.antt =====
-- src/amcom_packets.h: the packet types and the payload structures, packed and little-endian.
use mniam_headless.Base.{ℕ, ◌/◌, ◌%◌, List, [], ◌∷◌, ◌++◌}
use mniam_headless.Connection.{Bytes}
use mniam_headless.Engine.{Float}

-- `AMCOM_PacketType`
pub data PacketType : Type 0 where
  no_packet identify_request identify_response new_game_request new_game_response : PacketType
  player_update_request food_update_request move_request move_response : PacketType
  game_over_request game_over_response : PacketType

abbrev pub type_code : PacketType → ℕ
type_code no_packet = 0
type_code identify_request = 1
type_code identify_response = 2
type_code new_game_request = 3
type_code new_game_response = 4
type_code player_update_request = 5
type_code food_update_request = 7
type_code move_request = 9
type_code move_response = 10
type_code game_over_request = 11
type_code game_over_response = 12

abbrev pub max_player_name_len : ℕ
max_player_name_len = 24

abbrev pub max_player_message_len : ℕ
max_player_message_len = 127

abbrev pub max_player_updates : ℕ
max_player_updates = 8

abbrev pub max_food_updates : ℕ
max_food_updates = 16

-- `uint16_t`, and `uint32_t` or a float, in memory.
abbrev pub u16_bytes : ℕ → Bytes
u16_bytes n = n % 256 ∷ n / 256 % 256 ∷ []

abbrev pub u32_bytes : ℕ → Bytes
u32_bytes n = n % 256 ∷ n / 256 % 256 ∷ n / 65536 % 256 ∷ n / 16777216 % 256 ∷ []

pub record IdentifyRequest : Type 0 where
  pub game_ver_hi : ℕ
  pub game_ver_lo : ℕ
  pub game_revision : ℕ

unfoldable pub identify_request_bytes : IdentifyRequest → Bytes
identify_request_bytes r = r.game_ver_hi ∷ r.game_ver_lo ∷ u16_bytes r.game_revision

pub record NewGameRequest : Type 0 where
  pub player_number : ℕ
  pub number_of_players : ℕ
  pub map_width : Float
  pub map_height : Float

unfoldable pub new_game_request_bytes : NewGameRequest → Bytes
new_game_request_bytes r =
    r.player_number ∷ r.number_of_players ∷ (u32_bytes r.map_width ++ u32_bytes r.map_height)

pub record PlayerState : Type 0 where
  pub player_no : ℕ
  pub hp : ℕ
  pub x : Float
  pub y : Float

unfoldable pub player_state_bytes : PlayerState → Bytes
player_state_bytes s = s.player_no ∷ (u16_bytes s.hp ++ (u32_bytes s.x ++ u32_bytes s.y))

-- `foodNo`, `state` (1 is available, 0 eaten) and the position.
pub record FoodState : Type 0 where
  pub food_no : ℕ
  pub state : ℕ
  pub x : Float
  pub y : Float

unfoldable pub food_state_bytes : FoodState → Bytes
food_state_bytes s = u16_bytes s.food_no ++ (s.state ∷ (u32_bytes s.x ++ u32_bytes s.y))

-- An array of structures in memory.
unfoldable pub array_bytes {ℓ} : {A : Type ℓ} → (A → Bytes) → List A → Bytes
array_bytes f [] = []
array_bytes f (x ∷ xs) = f x ++ array_bytes f xs

pub record MoveRequest : Type 0 where
  pub game_time : ℕ

unfoldable pub move_request_bytes : MoveRequest → Bytes
move_request_bytes r = u32_bytes r.game_time

-- sizeof of the response payloads
abbrev pub identify_response_size : ℕ
identify_response_size = 24

abbrev pub new_game_response_size : ℕ
new_game_response_size = 127

abbrev pub move_response_size : ℕ
move_response_size = 4

abbrev pub game_over_response_size : ℕ
game_over_response_size = 127
