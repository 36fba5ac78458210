-- ===== src/Amcom/Reading.antt =====
-- What a client reads in the packets that the transactions of src/amcom_transactions.h send, structure by
-- structure as src/amcom_packets.h lays them out.
use mniam_headless.Base.{
  ℕ, ◌+◌, ◌*◌, ◌^◌, ◌≤◌, ◌<◌, ◌≡◌, ap, ◌∙◌, Option, none, some, [], ◌∷◌, length, take, arith,
}
use mniam_headless.Connection.{Bytes, Transaction}
use mniam_headless.Engine.{thousand_float}
use mniam_headless.Amcom.Library.{Packet, Amcom, IsAmcom, max_payload_size}
use mniam_headless.Amcom.Packets.{
  PacketType, identify_request, new_game_request, move_request, type_code, IdentifyRequest,
  identify_request_bytes, NewGameRequest, new_game_request_bytes, MoveRequest, move_request_bytes,
}
use mniam_headless.Amcom.Transactions.{identify_transaction, new_game_transaction, move_transaction}
use mniam_headless.Amcom.RoundTrip.{u16_read, u32_read}
use mniam_headless.Amcom.Requests.{transactions-IsWhole}

pub read_identify : Bytes → Option IdentifyRequest
read_identify (hi ∷ lo ∷ r0 ∷ r1 ∷ []) =
    some (record { game_ver_hi = hi; game_ver_lo = lo; game_revision = r0 + 256 * r1 })
read_identify _ = none

pub read_new_game : Bytes → Option NewGameRequest
read_new_game (number ∷ count ∷ w0 ∷ w1 ∷ w2 ∷ w3 ∷ h0 ∷ h1 ∷ h2 ∷ h3 ∷ []) = some (record {
  player_number = number;
  number_of_players = count;
  map_width = w0 + 256 * w1 + 65536 * w2 + 16777216 * w3;
  map_height = h0 + 256 * h1 + 65536 * h2 + 16777216 * h3;
})
read_new_game _ = none

pub read_move : Bytes → Option MoveRequest
read_move (t0 ∷ t1 ∷ t2 ∷ t3 ∷ []) =
    some (record { game_time = t0 + 256 * t1 + 65536 * t2 + 16777216 * t3 })
read_move _ = none

read_identify-bytes :
    (r : IdentifyRequest)
    → r.game_revision < 2 ^ 16
    → read_identify (identify_request_bytes r) ≡ some r
unfolding read_identify identify_request_bytes
read_identify-bytes r h = rw (u16_read r.game_revision h)

read_new_game-bytes :
    (r : NewGameRequest)
    → r.map_width < 2 ^ 32
    → r.map_height < 2 ^ 32
    → read_new_game (new_game_request_bytes r) ≡ some r
unfolding read_new_game new_game_request_bytes
read_new_game-bytes r w h = rw (u32_read r.map_width w, u32_read r.map_height h)

read_move-bytes :
    (r : MoveRequest) → r.game_time < 2 ^ 32 → read_move (move_request_bytes r) ≡ some r
unfolding read_move move_request_bytes
read_move-bytes r h = rw (u32_read r.game_time h)

-- A new receiver that is fed the request reports one packet of the type, in which the fields are read.
abbrev pub Reads :
    {R A : Type 0} → Amcom R → Transaction → PacketType → (Bytes → Option A) → A → Type 0
Reads a t request read fields =
    (p : Packet) × ((a.deserialize a.init_receiver t.request).1 ≡ p ∷ [])
    × (p.header.type ≡ type_code request)
    × (read (take p.header.size p.payload) ≡ some fields)

module _ {R : Type 0} (a : Amcom R) (h : IsAmcom a) where
  serialized-Reads :
      {A : Type 0} (t : Transaction) (request : PacketType) (payload : Bytes)
      (read : Bytes → Option A) (fields : A)
      → t.request ≡ a.serialize (type_code request) payload
      → type_code request < 2 ^ 8
      → length payload ≤ max_payload_size
      → read payload ≡ some fields
      → Reads a t request read fields
  serialized-Reads t request payload read fields sent small few e =
      let (p, got, carries) = h.deserialize-serialize (type_code request) payload small few in
      (
        p,
        ap (λ bytes. (a.deserialize a.init_receiver bytes).1) sent ∙ got,
        carries.same_type,
        ap (λ n. read (take n p.payload)) carries.same_size ∙ ap read carries.same_payload ∙ e,
      )

  -- With a packet library as documented, a client reads in the packets of the transactions for IDENTIFY,
  -- NEW_GAME and MOVE, whatever their buffers held before: the version 0.2 and revision 0 of the game; its
  -- number and the number of players it was invited with, and the map's size of 1000 by 1000; and the game
  -- time it is to move at, if this fits 32 bits.
  pub transactions-Reads :
      (buffer : Bytes) (number count game_time : ℕ)
      → game_time < 2 ^ 32
      → Reads a
          (identify_transaction a buffer)
          identify_request
          read_identify
          (record { game_ver_hi = 0; game_ver_lo = 2; game_revision = 0 })
        × Reads a
            (new_game_transaction a buffer number count)
            new_game_request
            read_new_game
            (record {
              player_number = number;
              number_of_players = count;
              map_width = thousand_float;
              map_height = thousand_float;
            })
        × Reads a
            (move_transaction a buffer game_time)
            move_request
            read_move
            (record { game_time = game_time })
  transactions-Reads buffer number count game_time fits =
      let (i, g, m) = transactions-IsWhole a h buffer number count game_time in
      (
        serialized-Reads (identify_transaction a buffer) identify_request _ read_identify _ i.0
            (omega arith) (unfold identify_request_bytes in omega arith)
            (read_identify-bytes (record { game_ver_hi = 0; game_ver_lo = 2; game_revision = 0 })
              (omega arith)),
        serialized-Reads (new_game_transaction a buffer number count) new_game_request _
            read_new_game _ g.0 (omega arith) (unfold new_game_request_bytes in omega arith)
            (read_new_game-bytes _ (omega arith) (omega arith)),
        serialized-Reads (move_transaction a buffer game_time) move_request _ read_move _ m.0
            (omega arith) (unfold move_request_bytes in omega arith) (read_move-bytes _ fits),
      )
