-- ===== src/Tests/Remotes.antt =====
-- A remote connection with a packet that identifies the player, updates in its queues and a socket that
-- fails.
use mniam_headless.Base.{
  ℕ, ◌≤◌, ◌≡◌, refl, true, false, List, [], ◌∷◌, none, some, length, take, drop, arith,
}
use mniam_headless.Base.Int.{pos, negsuc}
use mniam_headless.Connection.{Bytes}
use mniam_headless.Amcom.{
  PlayerState, FoodState, identify_request, identify_response, type_code, player_update_request,
  max_player_updates, array_bytes, player_state_bytes,
}
use mniam_headless.Remote.{
  RemoteTransaction, request_to_send, awaiting_confirmation, is_finished, Remote, Round,
  send_request, send_player_update, deliver, run_rounds, Link, ThreadAnswers, connection_thread,
  connected, is_closed_by, transmitted,
}
use mniam_headless.Remote.Sending.{run_rounds_once}
use mniam_headless.Remote.Queues.{send_player_update_queue}
use mniam_headless.Remote.Confirmation.{has_type, deliver-is_finished}
use mniam_headless.Tests.Packets.{framing}
use mniam_headless.Remote.Closing.{Returns, not_freed, LoopEnds, connection_thread-Returns}

abbrev identification : RemoteTransaction
identification = record {
  request = identify_request;
  confirmation = identify_response;
  state = request_to_send;
  start = 0;
  end = 0;
}

abbrev seat : ℕ → PlayerState
seat n = record { player_no = n; hp = 2; x = 0; y = 0 }

abbrev crop : ℕ → FoodState
crop n = record { food_no = n; state = 1; x = 0; y = 0 }

abbrev linked : Remote (Unit {0})
linked = record {
  am_receiver = tt;
  alive = true;
  identified = false;
  remote_transaction = identification;
  player_name = [];
  move_angle = 0;
  player_number = 0;
  number_of_players = 2;
  map_width = 1000;
  map_height = 1000;
  x = 0;
  y = 0;
  player_queue = seat 0 ∷ seat 1 ∷ [];
  food_queue = crop 0 ∷ crop 1 ∷ crop 2 ∷ [];
}

abbrev waiting_link : Remote (Unit {0})
waiting_link = record linked {
  remote_transaction = record identification { state = awaiting_confirmation };
}

abbrev name_packet : Bytes
name_packet = 0xa1 ∷ 2 ∷ 2 ∷ 0 ∷ 0 ∷ 65 ∷ 0 ∷ []

abbrev quiet_round : Round
quiet_round = record {
  sent_at = 5;
  send_ok = true;
  junk = 1 ∷ 2 ∷ 3 ∷ 4 ∷ [];
  available = 0;
  received = pos 0;
  read_data = [];
  read_at = 6;
}

abbrev answered_round : Round
answered_round = record quiet_round { available = 7; received = pos 7; read_data = name_packet }

abbrev broken_round : Round
broken_round = record quiet_round { available = 7; received = negsuc 0 }

run_rounds_once_example :
    (after : Remote (Unit {0})) × (sent : List Bytes) × (run_rounds framing
        (quiet_round ∷ answered_round ∷ quiet_round ∷ [])
        linked
      ≡ some (after, sent))
    × (length sent ≤ 1)
run_rounds_once_example =
    run_rounds_once framing (quiet_round ∷ answered_round ∷ quiet_round ∷ []) linked
      (omega arith, (omega arith, (omega arith, tt)))

send_player_update_queue_example :
    let (c', sent) = send_request framing quiet_round (send_player_update linked).0 in
    (sent
      ≡ framing.serialize
          (type_code player_update_request)
          (array_bytes player_state_bytes (take max_player_updates linked.player_queue))
        ∷ [])
    × (c'.player_queue ≡ drop max_player_updates linked.player_queue)
    × (is_finished c'.remote_transaction ≡ true)
send_player_update_queue_example = send_player_update_queue framing quiet_round linked refl

deliver-is_finished_example :
    is_finished (deliver framing 6 name_packet waiting_link).remote_transaction
    ≡ has_type identify_response (framing.deserialize tt name_packet).1
deliver-is_finished_example = deliver-is_finished framing 6 name_packet waiting_link refl

-- The first address does not accept, the second one does; the first packet cannot be sent.
abbrev home : Link (Unit {0})
home = record { remote = record linked { alive = false }; socket = none; thread_handle = none }

abbrev route : ThreadAnswers
route = record {
  addresses = some (
      record { socket = some 4; accepts = false }
      ∷ record { socket = some 5; accepts = true }
      ∷ []);
  rounds = record quiet_round { send_ok = false } ∷ [];
  shutdown_ok = true;
  last_reads = pos 3 ∷ pos 0 ∷ [];
}

route-LoopEnds : LoopEnds framing route home.remote
unfolding run_rounds connected is_closed_by transmitted
route-LoopEnds = record { last = _; sent = _; runs = refl; off = refl; closes = refl }

connection_thread-Returns_example :
    Returns true (not_freed route.addresses) (connection_thread framing route home)
connection_thread-Returns_example =
    connection_thread-Returns framing route home refl refl (λ reached. route-LoopEnds)
