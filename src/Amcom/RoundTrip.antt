-- ===== src/Amcom/RoundTrip.antt =====
-- What a client that reads an update packet finds in it.
use mniam_headless.Base.{
  ℕ, ◌+◌, ◌*◌, ◌/◌, ◌%◌, ◌^◌, ◌≤◌, ◌<◌, ◌≡◌, refl, ◌∙◌, ap, List, [], ◌∷◌, length, take, All, arith,
}
use mniam_headless.Connection.{Bytes}
use mniam_headless.Amcom.Library.{Packet, Amcom, IsAmcom, packet_overhead}
use mniam_headless.Amcom.Packets.{
  PlayerState, player_state_bytes, FoodState, food_state_bytes, array_bytes, type_code,
  food_update_request, player_update_request, max_food_updates, max_player_updates,
}
use mniam_headless.Amcom.Transactions.{food_update, player_update}

-- How a client reads the array in a payload, structure by structure.
pub read_player_states : Bytes → List PlayerState
read_player_states (n ∷ h0 ∷ h1 ∷ x0 ∷ x1 ∷ x2 ∷ x3 ∷ y0 ∷ y1 ∷ y2 ∷ y3 ∷ rest) =
    record {
      player_no = n;
      hp = h0 + 256 * h1;
      x = x0 + 256 * x1 + 65536 * x2 + 16777216 * x3;
      y = y0 + 256 * y1 + 65536 * y2 + 16777216 * y3;
    }
    ∷ read_player_states rest
read_player_states _ = []

pub read_food_states : Bytes → List FoodState
read_food_states (n0 ∷ n1 ∷ s ∷ x0 ∷ x1 ∷ x2 ∷ x3 ∷ y0 ∷ y1 ∷ y2 ∷ y3 ∷ rest) =
    record {
      food_no = n0 + 256 * n1;
      state = s;
      x = x0 + 256 * x1 + 65536 * x2 + 16777216 * x3;
      y = y0 + 256 * y1 + 65536 * y2 + 16777216 * y3;
    }
    ∷ read_food_states rest
read_food_states _ = []

-- The fields of a structure fit their types.
pub record PlayerFits (s : PlayerState) : Type 0 where
  pub hp_fits : s.hp < 2 ^ 16
  pub x_fits : s.x < 2 ^ 32
  pub y_fits : s.y < 2 ^ 32

pub record FoodFits (s : FoodState) : Type 0 where
  pub food_no_fits : s.food_no < 2 ^ 16
  pub x_fits : s.x < 2 ^ 32
  pub y_fits : s.y < 2 ^ 32

pub u16_read : (n : ℕ) → n < 2 ^ 16 → n % 256 + 256 * (n / 256 % 256) ≡ n
u16_read n h = omega arith

pub u32_read :
    (n : ℕ)
    → n < 2 ^ 32
    → n % 256 + 256 * (n / 256 % 256) + 65536 * (n / 65536 % 256) + 16777216 * (n / 16777216 % 256)
      ≡ n
u32_read n h = omega arith

-- Reading gives back an array of player states that was written.
pub read_player_states-array_bytes :
    (states : List PlayerState)
    → All PlayerFits states
    → read_player_states (array_bytes player_state_bytes states) ≡ states
unfolding read_player_states array_bytes player_state_bytes
read_player_states-array_bytes [] h = refl
read_player_states-array_bytes (s ∷ states) h = rw (
  u16_read s.hp h.0.hp_fits,
  u32_read s.x h.0.x_fits,
  u32_read s.y h.0.y_fits,
  read_player_states-array_bytes states h.1,
)

-- Reading gives back an array of food states that was written.
pub read_food_states-array_bytes :
    (states : List FoodState)
    → All FoodFits states
    → read_food_states (array_bytes food_state_bytes states) ≡ states
unfolding read_food_states array_bytes food_state_bytes
read_food_states-array_bytes [] h = refl
read_food_states-array_bytes (s ∷ states) h = rw (
  u16_read s.food_no h.0.food_no_fits,
  u32_read s.x h.0.x_fits,
  u32_read s.y h.0.y_fits,
  read_food_states-array_bytes states h.1,
)

-- Each structure takes eleven bytes.
pub length-player_states :
    (states : List PlayerState)
    → length (array_bytes player_state_bytes states) ≡ 11 * length states
unfolding array_bytes player_state_bytes
length-player_states [] = refl
length-player_states (s ∷ states) = omega (arith, length-player_states states)

pub length-food_states :
    (states : List FoodState) → length (array_bytes food_state_bytes states) ≡ 11 * length states
unfolding array_bytes food_state_bytes
length-food_states [] = refl
length-food_states (s ∷ states) = omega (arith, length-food_states states)

module _ {R : Type 0} (a : Amcom R) (h : IsAmcom a) where
  open a use {init_receiver, deserialize}

  -- With a packet library as documented, an update of at most 16 foods whose fields fit their
  -- types fits a packet: its size is 5 and 11 for each food, and a new receiver that is fed its
  -- bytes reports one packet of the update's type, in whose payload the same states are read.
  pub food_update_round_trip :
      (states : List FoodState)
      → All FoodFits states
      → length states ≤ max_food_updates
      → (p : Packet) × (length (food_update a states) ≡ packet_overhead + 11 * length states)
        × ((deserialize init_receiver (food_update a states)).1 ≡ p ∷ [])
        × (p.header.type ≡ type_code food_update_request)
        × (read_food_states (take p.header.size p.payload) ≡ states)
  unfolding food_update
  food_update_round_trip states fits few =
      let size = length-food_states states in
      let payload = array_bytes food_state_bytes states in
      let small : length payload ≤ 200 = omega (arith, size) in
      let (p, got, carries) = h.deserialize-serialize 7 payload (omega arith) small in
      (
        p,
        h.serialize_size 7 payload (omega arith) small ∙ ap (λ n. 5 + n) size,
        got,
        carries.same_type,
        ap (λ n. read_food_states (take n p.payload)) carries.same_size
            ∙ ap read_food_states carries.same_payload
            ∙ read_food_states-array_bytes states fits,
      )

  -- With a packet library as documented, an update of at most 8 players whose fields fit their
  -- types fits a packet: its size is 5 and 11 for each player, and a new receiver that is fed its
  -- bytes reports one packet of the update's type, in whose payload the same states are read.
  pub player_update_round_trip :
      (states : List PlayerState)
      → All PlayerFits states
      → length states ≤ max_player_updates
      → (p : Packet) × (length (player_update a states) ≡ packet_overhead + 11 * length states)
        × ((deserialize init_receiver (player_update a states)).1 ≡ p ∷ [])
        × (p.header.type ≡ type_code player_update_request)
        × (read_player_states (take p.header.size p.payload) ≡ states)
  unfolding player_update
  player_update_round_trip states fits few =
      let size = length-player_states states in
      let payload = array_bytes player_state_bytes states in
      let small : length payload ≤ 200 = omega (arith, size) in
      let (p, got, carries) = h.deserialize-serialize 5 payload (omega arith) small in
      (
        p,
        h.serialize_size 5 payload (omega arith) small ∙ ap (λ n. 5 + n) size,
        got,
        carries.same_type,
        ap (λ n. read_player_states (take n p.payload)) carries.same_size
            ∙ ap read_player_states carries.same_payload
            ∙ read_player_states-array_bytes states fits,
      )
