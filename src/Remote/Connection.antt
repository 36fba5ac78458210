-- ===== src/Remote/Connection.antt =====
-- `RemoteConnection` of src/remote_connection.cpp: the calls that set up a transaction, and the loop
-- of its thread that sends the requests and takes the packets. WinSock and the clock are arguments.
use mniam_headless.Base.{
  ℕ, zero, suc, Bool, true, false, List, [], ◌∷◌, ◌++◌, Option, none, some, take, ltb, leb, ◌==◌,
  if◌then◌else◌,
}
use mniam_headless.Base.Int.{ℤ}
use mniam_headless.Engine.{Float}
use mniam_headless.Connection.{Bytes, to_size_t}
use mniam_headless.Amcom.{
  Amcom, Packet, PacketType, no_packet, identify_request, identify_response, new_game_request,
  new_game_response, player_update_request, food_update_request, move_request, move_response,
  type_code, max_player_updates, max_food_updates, max_packet_size, identify_request_bytes,
  new_game_request_bytes, PlayerState, player_state_bytes, FoodState, food_state_bytes, array_bytes,
  read_float,
}
use mniam_headless.Remote.Transaction.{
  RemoteTransaction, setup_transaction, get_request_to_send, indicate_transmission,
  indicate_reception,
}

-- `R` is the type of AMCOM receivers. `player_name` is the buffer of 64 bytes.
pub record Remote (R : Type 0) : Type 0 where
  pub am_receiver : R
  pub alive : Bool
  pub identified : Bool
  pub remote_transaction : RemoteTransaction
  pub player_name : Bytes
  pub move_angle : Float
  pub player_number : ℕ
  pub number_of_players : ℕ
  pub map_width : Float
  pub map_height : Float
  pub x : Float
  pub y : Float
  pub player_queue : List PlayerState
  pub food_queue : List FoodState

-- What the outside does in one round of the loop. `junk` is what the uninitialised payload of
-- MOVE.request holds; `received` is the result of `recv`.
pub record Round : Type 0 where
  pub sent_at : ℕ
  pub send_ok : Bool
  pub junk : Bytes
  pub available : ℕ
  pub received : ℤ
  pub read_data : Bytes
  pub read_at : ℕ

-- The loop that takes states from a queue, for as many as still fit.
unfoldable pub drain {ℓ} : {A : Type ℓ} → ℕ → List A → List A × List A
drain zero xs = ([], xs)
drain (suc n) [] = ([], [])
drain (suc n) (x ∷ xs) = let (taken, rest) = drain n xs in (x ∷ taken, rest)

module _ {R : Type 0} where
  -- `connectPlayer`, but for the thread that it starts.
  unfoldable pub connect_player : Remote R → Remote R
  connect_player c = record c { alive = false; identified = false }

  unfoldable pub disconnect_player : Remote R → Remote R
  disconnect_player c = record c { alive = false; identified = false }

  abbrev pub set_up : PacketType → PacketType → Remote R → Remote R
  set_up request confirmation c = record c {
    remote_transaction = setup_transaction request confirmation c.remote_transaction;
  }

  unfoldable pub identify : Remote R → Remote R × Bool
  identify c = (if c.alive then set_up identify_request identify_response c else c, c.alive)

  unfoldable pub new_game_with : ℕ → ℕ → Float → Float → Remote R → Remote R × Bool
  new_game_with player_no players width height c = (
    if c.alive
        then set_up new_game_request new_game_response (record c {
          player_number = player_no;
          number_of_players = players;
          map_width = width;
          map_height = height;
        })
        else c,
    c.alive,
  )

  unfoldable pub send_move_request : Float → Float → Remote R → Remote R × Bool
  send_move_request x y c = (
    if c.alive then set_up move_request move_response (record c { x = x; y = y }) else c,
    c.alive,
  )

  unfoldable pub send_player_update : Remote R → Remote R × Bool
  send_player_update c = (if c.alive then set_up player_update_request no_packet c else c, c.alive)

  unfoldable pub send_food_update : Remote R → Remote R × Bool
  send_food_update c = (if c.alive then set_up food_update_request no_packet c else c, c.alive)

  -- The response that is kept, if the packet is one.
  unfoldable pub keep_response : Packet → Remote R → Remote R
  keep_response p c =
      if p.header.type == type_code identify_response
      then record c { identified = true; player_name = take 64 p.payload }
      else (if p.header.type == type_code move_response
          then record c { move_angle = read_float p.payload }
          else c)

  unfoldable pub packet_received : ℕ → Packet → Remote R → Remote R
  unfolding keep_response
  packet_received now p c =
      let c' = keep_response p c in
      record c' { remote_transaction = indicate_reception now p.header.type c'.remote_transaction }

  unfoldable pub all_received : ℕ → List Packet → Remote R → Remote R
  all_received now [] c = c
  all_received now (p ∷ ps) c = all_received now ps (packet_received now p c)

  -- After `send`: a failure ends the loop, and the transmission is indicated in any case.
  unfoldable pub transmitted : Round → Remote R → Remote R
  transmitted r c = record c {
    alive = if r.send_ok then c.alive else false;
    remote_transaction = indicate_transmission r.sent_at c.remote_transaction;
  }

module _ {R : Type 0} (a : Amcom R) where
  open a use {serialize, deserialize}

  -- The start of the thread, when the connection stands.
  unfoldable pub connected : Remote R → Remote R
  connected c = record c { am_receiver = a.init_receiver; alive = true }

  -- The cases of the switch, with the packet that is handed to `send`.
  abbrev pub send_packet : Round → PacketType → Remote R → Remote R × List Bytes
  send_packet r identify_request c = (
    transmitted r c,
    serialize (type_code identify_request)
          (identify_request_bytes (record { game_ver_hi = 0; game_ver_lo = 1; game_revision = 0 }))
        ∷ [],
  )
  send_packet r new_game_request c = (
    transmitted r c,
    serialize (type_code new_game_request) (
          new_game_request_bytes (record {
            player_number = c.player_number;
            number_of_players = c.number_of_players;
            map_width = c.map_width;
            map_height = c.map_height;
          }))
        ∷ [],
  )
  send_packet r player_update_request c =
      let (states, rest) = drain max_player_updates c.player_queue in
      (
        transmitted r (record c { player_queue = rest }),
        serialize (type_code player_update_request) (array_bytes player_state_bytes states) ∷ [],
      )
  send_packet r food_update_request c =
      let (states, rest) = drain max_food_updates c.food_queue in
      (
        transmitted r (record c { food_queue = rest }),
        serialize (type_code food_update_request) (array_bytes food_state_bytes states) ∷ [],
      )
  send_packet r move_request c = (transmitted r c, serialize (type_code move_request) r.junk ∷ [])
  send_packet r _ c = (c, [])

  unfoldable pub send_request : Round → Remote R → Remote R × List Bytes
  unfolding get_request_to_send
  send_request r c = send_packet r (get_request_to_send c.remote_transaction) c

  unfoldable pub deliver : ℕ → Bytes → Remote R → Remote R
  unfolding all_received
  deliver now bytes c =
      let (receiver, packets) = deserialize c.am_receiver bytes in
      all_received now packets (record c { am_receiver = receiver })

  -- `recvSize` is unsigned, so that the test `recvSize < 0` never holds, and -1 is read as a size.
  -- `none` is the deserialization of more bytes than the buffer has.
  unfoldable pub receive_available : Round → Remote R → Option (Remote R)
  unfolding deliver
  receive_available r c =
      let recv_size = to_size_t r.received in
      if r.available == 0
      then some c
      else (if ltb 0 recv_size
          then (if leb recv_size max_packet_size
              then some (deliver r.read_at (take recv_size r.read_data) c)
              else none)
          else some c)

  abbrev pub with_sent : List Bytes → Option (Remote R) → Option (Remote R × List Bytes)
  with_sent sent none = none
  with_sent sent (some c) = some (c, sent)

  -- One round of the loop, with the packets that are sent.
  unfoldable pub run_round : Round → Remote R → Option (Remote R × List Bytes)
  unfolding send_request receive_available
  run_round r c = let (c', sent) = send_request r c in with_sent sent (receive_available r c')

  abbrev pub and_later :
      List Bytes → Option (Remote R × List Bytes) → Option (Remote R × List Bytes)
  and_later sent none = none
  and_later sent (some (c, later)) = some (c, sent ++ later)

  abbrev pub continue :
      (Remote R → Option (Remote R × List Bytes))
      → Option (Remote R × List Bytes)
      → Option (Remote R × List Bytes)
  continue loop none = none
  continue loop (some (c, sent)) = and_later sent (loop c)

  -- The loop `while (player->alive)`, for as many rounds as the outside answers.
  unfoldable pub run_rounds : List Round → Remote R → Option (Remote R × List Bytes)
  unfolding run_round
  run_rounds [] c = some (c, [])
  run_rounds (r ∷ rs) c =
      if c.alive then continue (λ c'. run_rounds rs c') (run_round r c) else some (c, [])
