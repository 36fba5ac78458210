-- ===== src/Amcom/Transactions.antt =====
-- src/amcom_transactions.h.
use mniam_headless.Base.{
  ℕ, ◌+◌, ◌*◌, Bool, true, false, List, [], ◌∷◌, ◌++◌, Option, none, some, length, take, drop, ◌==◌,
  if◌then◌else◌,
}
use mniam_headless.Base.OrderedMap.{find, emplace}
use mniam_headless.Connection.{Bytes, Transaction, new_transaction}
use mniam_headless.Engine.{Float, zero_float, thousand_float}
use mniam_headless.Amcom.Library.{Packet, Amcom, packet_overhead}
use mniam_headless.Amcom.Packets.{
  PacketType, identify_request, new_game_request, new_game_response, player_update_request,
  food_update_request, move_request, move_response, game_over_request, game_over_response,
  type_code, max_player_updates, max_food_updates, identify_request_bytes, new_game_request_bytes,
  PlayerState, player_state_bytes, FoodState, food_state_bytes, array_bytes, move_request_bytes,
  identify_response_size, new_game_response_size, move_response_size, game_over_response_size,
}

-- The response packet of an `AMCOMTransaction` and the size of its payload.
pub record ResponseKind : Type 0 where
  pub response_packet : PacketType
  pub payload_size : ℕ

-- The response of a `MoveTransaction`.
abbrev pub move_kind : ResponseKind
move_kind = record { response_packet = move_response; payload_size = move_response_size }

-- The response of a `NewGameTransaction`.
abbrev pub new_game_kind : ResponseKind
new_game_kind = record {
  response_packet = new_game_response;
  payload_size = new_game_response_size;
}

-- The response of a `GameOverTransaction`.
abbrev pub game_over_kind : ResponseKind
game_over_kind = record {
  response_packet = game_over_response;
  payload_size = game_over_response_size;
}

-- `responses`: what each client has answered.
abbrev pub Responses : Type 0
Responses = List (ℕ × Bytes)

unfoldable pub save_response : ℕ → Bytes → Responses → Responses
save_response client_id payload responses = emplace client_id payload responses

-- `packetHandler`, over the flag of the context and the responses. It copies as many bytes as the
-- response payload has, whatever the length in the header says.
unfoldable pub packet_handler : ResponseKind → ℕ → Packet → Responses × Bool → Responses × Bool
unfolding save_response
packet_handler kind client_id p (responses, ok) =
    if p.header.type == type_code kind.response_packet
    then (save_response client_id (take kind.payload_size p.payload) responses, true)
    else (responses, ok)

unfoldable pub handle_all : ResponseKind → ℕ → List Packet → Responses × Bool → Responses × Bool
unfolding packet_handler
handle_all kind client_id [] s = s
handle_all kind client_id (p ∷ ps) s =
    handle_all kind client_id ps (packet_handler kind client_id p s)

module _ {R : Type 0} (a : Amcom R) where
  open a use {init_receiver, serialize, deserialize}

  -- `operator()`, the validator of the responses.
  unfoldable pub validate : ResponseKind → ℕ → Bytes → Responses → Responses × Bool
  unfolding handle_all
  validate kind client_id response_data responses =
      handle_all kind client_id (deserialize init_receiver response_data).1 (responses, false)

  -- The request buffer of an `AMCOMTransaction`: what is serialized is written over the start of a
  -- buffer of the packet's size, which holds any bytes before.
  unfoldable pub fill : Bytes → ℕ → Bytes → Bytes
  fill buffer type payload =
      let written = serialize type payload in
      take (packet_overhead + length payload) (written ++ drop (length written) buffer)

  unfoldable pub amcom_transaction : Bytes → PacketType → Bytes → ℕ → Transaction
  unfolding fill new_transaction
  amcom_transaction buffer request payload payload_size =
      new_transaction (fill buffer (type_code request) payload) (packet_overhead + payload_size)

  unfoldable pub identify_transaction : Bytes → Transaction
  unfolding amcom_transaction identify_request_bytes
  identify_transaction buffer =
      amcom_transaction buffer identify_request
        (identify_request_bytes (record { game_ver_hi = 0; game_ver_lo = 2; game_revision = 0 }))
        identify_response_size

  unfoldable pub new_game_transaction : Bytes → ℕ → ℕ → Transaction
  unfolding amcom_transaction new_game_request_bytes
  new_game_transaction buffer player_number number_of_players =
      amcom_transaction buffer new_game_request
        (new_game_request_bytes (record {
          player_number = player_number;
          number_of_players = number_of_players;
          map_width = thousand_float;
          map_height = thousand_float;
        }))
        new_game_response_size

  unfoldable pub move_transaction : Bytes → ℕ → Transaction
  unfolding amcom_transaction move_request_bytes
  move_transaction buffer game_time =
      amcom_transaction buffer move_request (move_request_bytes (record { game_time = game_time }))
        move_response_size

  -- `updateRequest` of the three transactions that send arrays of states.
  unfoldable pub food_update : List FoodState → Bytes
  food_update states =
      serialize (type_code food_update_request) (array_bytes food_state_bytes states)

  unfoldable pub player_update : List PlayerState → Bytes
  player_update states =
      serialize (type_code player_update_request) (array_bytes player_state_bytes states)

  unfoldable pub game_over : List PlayerState → Bytes
  game_over states = serialize (type_code game_over_request) (array_bytes player_state_bytes states)

-- `FoodUpdateTransaction`, `PlayerUpdateTransaction` and `GameOverTransaction` with the states that were
-- added as their request, after `updateRequest`.
unfoldable pub food_update_transaction : Bytes → Transaction
unfolding new_transaction
food_update_transaction request_data = new_transaction request_data 0

unfoldable pub player_update_transaction : Bytes → Transaction
unfolding new_transaction
player_update_transaction request_data = new_transaction request_data 0

unfoldable pub game_over_transaction : Bytes → Transaction
unfolding new_transaction
game_over_transaction request_data =
    new_transaction request_data (packet_overhead + game_over_response_size)

unfoldable pub add_food_state : FoodState → List FoodState → List FoodState
add_food_state s states = states ++ s ∷ []

unfoldable pub is_full_food : List FoodState → Bool
is_full_food states = length states == max_food_updates

unfoldable pub add_player_state : PlayerState → List PlayerState → List PlayerState
add_player_state s states = states ++ s ∷ []

unfoldable pub is_full_player : List PlayerState → Bool
is_full_player states = length states == max_player_updates

-- `getResponse`
abbrev pub get_response : ℕ → Responses → Option Bytes
get_response client_id responses = find client_id responses

-- "???"
abbrev pub unknown_name : Bytes
unknown_name = b'?' ∷ b'?' ∷ b'?' ∷ []

-- The bytes of a text up to its terminating 0.
unfoldable pub c_string : Bytes → Bytes
c_string [] = []
c_string (c ∷ cs) = let rest = c_string cs in if c == 0 then [] else c ∷ rest

abbrev text_or : Bytes → Option Bytes → Bytes
text_or d none = d
text_or d (some payload) = c_string payload

unfoldable pub get_name : ℕ → Responses → Bytes
unfolding c_string
get_name client_id responses = text_or unknown_name (get_response client_id responses)

unfoldable pub get_hello_message : ℕ → Responses → Bytes
unfolding c_string
get_hello_message client_id responses = text_or [] (get_response client_id responses)

unfoldable pub get_end_message : ℕ → Responses → Bytes
unfolding c_string
get_end_message client_id responses = text_or [] (get_response client_id responses)

-- A float in memory.
abbrev pub read_float : Bytes → Float
read_float (a ∷ b ∷ c ∷ d ∷ _) = a + 256 * b + 65536 * c + 16777216 * d
read_float _ = 0

abbrev pub angle_or_zero : Option Bytes → Float
angle_or_zero none = zero_float
angle_or_zero (some payload) = read_float payload

unfoldable pub get_angle : ℕ → Responses → Float
get_angle client_id responses = angle_or_zero (get_response client_id responses)
