-- ===== src/Tests/Packets.antt =====
-- A packet library that does what amcom.h documents for whole packets, and the theorems on the
-- payloads and the validator applied to it.
use mniam_headless.Base.{
  ℕ, ◌+◌, ◌*◌, ◌≤◌, ◌≡◌, refl, List, [], ◌∷◌, length, take, leb, if◌then◌else◌, arith,
}
use mniam_headless.Base.OrderedMap.{find}
use mniam_headless.Connection.{Bytes}
use mniam_headless.Amcom.{
  Packet, Amcom, IsAmcom, packet_overhead, food_update_request, type_code, FoodState, food_update,
  Responses, move_kind, validate, update_crc, identify_request_bytes, NewGameRequest,
  new_game_request_bytes, MoveRequest, move_request_bytes, identify_request, new_game_request,
  move_request, identify_transaction, new_game_transaction, move_transaction,
}
use mniam_headless.Amcom.RoundTrip.{read_food_states, food_update_round_trip}
use mniam_headless.Amcom.Validation.{is_some, first_response, answer_of, validate-Responses}
use mniam_headless.Amcom.Crc.{crc_byte, update_crc-crc_byte}
use mniam_headless.Amcom.Requests.{IsWhole, transactions-IsWhole}
use mniam_headless.Amcom.Reading.{
  Reads, read_identify, read_new_game, read_move, transactions-Reads,
}
use mniam_headless.Engine.{thousand_float}

abbrev frame : ℕ → Bytes → Bytes
frame type payload =
    if leb (length payload) 200 then 0xa1 ∷ type ∷ length payload ∷ 0 ∷ 0 ∷ payload else []

abbrev parse : Bytes → List Packet
parse (sop ∷ type ∷ size ∷ low ∷ high ∷ payload) =
    record {
      header = record { start = sop; type = type; size = size; crc = low + 256 * high };
      payload = payload;
    }
    ∷ []
parse _ = []

-- One call of `deserialize` for one whole packet, without a sum.
abbrev pub framing : Amcom (Unit {0})
framing = record {
  init_receiver = tt;
  serialize = frame;
  deserialize = λ receiver bytes. (receiver, parse bytes);
}

frame-length :
    (type : ℕ) (payload : Bytes)
    → length payload ≤ 200
    → frame type payload ≡ 0xa1 ∷ type ∷ length payload ∷ 0 ∷ 0 ∷ payload
frame-length type payload few = ground arith

take_all : (xs : Bytes) → take (length xs) xs ≡ xs
take_all [] = refl
take_all (x ∷ xs) = rw (take_all xs)

carried : ℕ → Bytes → Packet
carried type payload = record {
  header = record { start = 0xa1; type = type; size = length payload; crc = 0 };
  payload = payload;
}

pub framing-IsAmcom : IsAmcom framing
unfolding carried
framing-IsAmcom = record {
  serialize_size = λ type payload small few. ground (arith, frame-length type payload few);
  serialize_refuses = λ type payload many. ground arith;
  deserialize-serialize = λ type payload small few. (
    carried type payload,
    rw (frame-length type payload few),
    record { same_type = refl; same_size = refl; same_payload = take_all payload },
  );
}

abbrev foods : List FoodState
foods =
    record { food_no = 300; state = 1; x = 0x4120_0000; y = 0xc120_0000 }
    ∷ record { food_no = 301; state = 0; x = 0; y = 0x447a_0000 }
    ∷ []

food_update_round_trip_example :
    (p : Packet) × (length (food_update framing foods) ≡ packet_overhead + 11 * length foods)
    × ((framing.deserialize framing.init_receiver (food_update framing foods)).1 ≡ p ∷ [])
    × (p.header.type ≡ type_code food_update_request)
    × (read_food_states (take p.header.size p.payload) ≡ foods)
food_update_round_trip_example =
    food_update_round_trip framing framing-IsAmcom foods
      (
        record { food_no_fits = omega arith; x_fits = omega arith; y_fits = omega arith },
        (record { food_no_fits = omega arith; x_fits = omega arith; y_fits = omega arith }, tt),
      )
      (omega arith)

abbrev pub angle_packet : Bytes
angle_packet = 0xa1 ∷ 10 ∷ 4 ∷ 0 ∷ 0 ∷ 0 ∷ 0 ∷ 128 ∷ 63 ∷ []

abbrev answered : Responses
answered = (2, 1 ∷ 2 ∷ 3 ∷ 4 ∷ []) ∷ []

validate-Responses_example :
    ((validate framing move_kind 5 angle_packet answered).1
      ≡ is_some (first_response move_kind (parse angle_packet)))
    × (find 5 (validate framing move_kind 5 angle_packet answered).0
        ≡ answer_of move_kind 5 (parse angle_packet) 5 (find 5 answered))
validate-Responses_example =
    validate-Responses framing move_kind 5 5 angle_packet answered (omega arith, tt)

update_crc-crc_byte_example : update_crc 0x31 0xffff ≡ crc_byte 0x31 0xffff
update_crc-crc_byte_example = update_crc-crc_byte 0x31 0xffff (omega arith) (omega arith)

abbrev invitation : NewGameRequest
invitation = record {
  player_number = 1;
  number_of_players = 2;
  map_width = thousand_float;
  map_height = thousand_float;
}

abbrev tick : MoveRequest
tick = record { game_time = 70000 }

abbrev junk : Bytes
junk = 9 ∷ 9 ∷ 9 ∷ []

transactions-IsWhole_example :
    IsWhole framing
      (identify_transaction framing junk)
      identify_request
      (identify_request_bytes (record { game_ver_hi = 0; game_ver_lo = 2; game_revision = 0 }))
      9
      29
    × IsWhole framing
        (new_game_transaction framing junk 1 2)
        new_game_request
        (new_game_request_bytes invitation)
        15
        132
    × IsWhole framing
        (move_transaction framing junk 70000)
        move_request
        (move_request_bytes tick)
        9
        9
transactions-IsWhole_example = transactions-IsWhole framing framing-IsAmcom junk 1 2 70000

transactions-Reads_example :
    Reads framing
      (identify_transaction framing junk)
      identify_request
      read_identify
      (record { game_ver_hi = 0; game_ver_lo = 2; game_revision = 0 })
    × Reads framing
        (new_game_transaction framing junk 1 2)
        new_game_request
        read_new_game
        invitation
    × Reads framing (move_transaction framing junk 70000) move_request read_move tick
transactions-Reads_example = transactions-Reads framing framing-IsAmcom junk 1 2 70000 (omega arith)
