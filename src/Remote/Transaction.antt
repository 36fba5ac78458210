-- ===== src/Remote/Transaction.antt =====
-- `RemoteConnectionTransaction` of src/remote_connection.h.
use mniam_headless.Base.{ℕ, Bool, true, false, ◌&&◌, ◌==◌, not, if◌then◌else◌}
use mniam_headless.Amcom.{PacketType, no_packet, type_code}

pub data RemoteState : Type 0 where
  remote_idle request_to_send awaiting_confirmation finished : RemoteState

-- Times are in milliseconds.
pub record RemoteTransaction : Type 0 where
  pub request : PacketType
  pub confirmation : PacketType
  pub state : RemoteState
  pub start : ℕ
  pub end : ℕ

-- The default member initialisers.
unfoldable pub new_remote_transaction : RemoteTransaction
new_remote_transaction = record {
  request = no_packet;
  confirmation = no_packet;
  state = remote_idle;
  start = 0;
  end = 0;
}

unfoldable pub setup_transaction : PacketType → PacketType → RemoteTransaction → RemoteTransaction
setup_transaction request confirmation t = record t {
  request = request;
  confirmation = confirmation;
  state = request_to_send;
}

abbrev pub is_pending : RemoteState → Bool
is_pending request_to_send = true
is_pending _ = false

abbrev pub is_awaiting : RemoteState → Bool
is_awaiting awaiting_confirmation = true
is_awaiting _ = false

abbrev pub is_finished_state : RemoteState → Bool
is_finished_state finished = true
is_finished_state _ = false

unfoldable pub get_request_to_send : RemoteTransaction → PacketType
get_request_to_send t = if is_pending t.state then t.request else no_packet

unfoldable pub indicate_transmission : ℕ → RemoteTransaction → RemoteTransaction
indicate_transmission now t =
    if not (type_code t.confirmation == type_code no_packet)
    then record t { state = awaiting_confirmation; start = now }
    else record t { state = finished }

-- The type is the byte of the header.
unfoldable pub indicate_reception : ℕ → ℕ → RemoteTransaction → RemoteTransaction
indicate_reception now type t =
    if is_awaiting t.state && (type == type_code t.confirmation)
    then record t { state = finished; end = now }
    else t

unfoldable pub is_finished : RemoteTransaction → Bool
is_finished t = is_finished_state t.state
