-- ===== src/Amcom/Library.antt =====
-- src/amcom.h and src/amcom.c. The repository's amcom.c leaves the three functions open, and asks its
-- user to supply them: they are the parameter `Amcom`, with what amcom.h documents as `IsAmcom`.
-- `stub` is what the repository's own file does.
use Prim.Native.Nat.{bit_and, bit_or, bit_xor}
use mniam_headless.Base.{ℕ, ◌+◌, ◌*◌, ◌/◌, ◌%◌, ◌^◌, ◌≤◌, ◌<◌, ◌≡◌, List, [], ◌∷◌, length, take}
use mniam_headless.Connection.{Bytes}

abbrev pub sop : ℕ
sop = 0xa1

abbrev pub initial_crc : ℕ
initial_crc = 0xffff

abbrev pub packet_overhead : ℕ
packet_overhead = 5

abbrev pub max_payload_size : ℕ
max_payload_size = 200

abbrev pub max_packet_size : ℕ
max_packet_size = 205

-- The header fields and the payload buffer, which has room for 200 bytes; `size` of them count.
pub record PacketHeader : Type 0 where
  pub start : ℕ
  pub type : ℕ
  pub size : ℕ
  pub crc : ℕ

pub record Packet : Type 0 where
  pub header : PacketHeader
  pub payload : Bytes

-- `AMCOM_UpdateCRC`: a byte and a 16-bit sum.
unfoldable pub update_crc : ℕ → ℕ → ℕ
update_crc byte crc =
    let b1 = bit_xor byte (bit_and crc 0xff % 2 ^ 8) in
    let b2 = bit_xor b1 (b1 * 2 ^ 4 % 2 ^ 8) in
    bit_xor (bit_xor (bit_or (b2 * 2 ^ 8) (crc / 2 ^ 8 % 2 ^ 8)) (b2 / 2 ^ 4 % 2 ^ 8)) (b2 * 2 ^ 3)
    % 2 ^ 16

-- A receiver is an `R`. `serialize` gives the bytes that are written to the destination, whose
-- number is the result; `deserialize` gives the packets that the handler is called with, in order.
pub record Amcom (R : Type 0) : Type 0 where
  pub init_receiver : R
  pub serialize : ℕ → Bytes → Bytes
  pub deserialize : R → Bytes → R × List Packet

-- A packet that has this type and holds this payload.
pub record Carries (type : ℕ) (payload : Bytes) (p : Packet) : Type 0 where
  pub same_type : p.header.type ≡ type
  pub same_size : p.header.size ≡ length payload
  pub same_payload : take (length payload) p.payload ≡ payload

-- What amcom.h documents: a packet is as long as its header and its payload; arguments that are not
-- valid write nothing; a new receiver that is fed one whole packet reports exactly that packet.
pub record IsAmcom {R : Type 0} (a : Amcom R) : Type 0 where
  pub serialize_size :
      (type : ℕ) (payload : Bytes)
      → type < 2 ^ 8
      → length payload ≤ max_payload_size
      → length (a.serialize type payload) ≡ packet_overhead + length payload
  pub serialize_refuses :
      (type : ℕ) (payload : Bytes)
      → max_payload_size < length payload
      → a.serialize type payload ≡ []
  pub deserialize-serialize :
      (type : ℕ) (payload : Bytes)
      → type < 2 ^ 8
      → length payload ≤ max_payload_size
      → (p : Packet) × ((a.deserialize a.init_receiver (a.serialize type payload)).1 ≡ p ∷ [])
        × Carries type payload p

-- src/amcom.c as it stands: no receiver state, no byte, no packet.
unfoldable pub stub : Amcom (Unit {0})
stub = record {
  init_receiver = tt;
  serialize = λ type payload. [];
  deserialize = λ receiver bytes. (receiver, []);
}
