-- ===== src/Remote/Queues.antt =====
-- What becomes of the queues of a remote connection, and of an error of its socket.
use mniam_headless.Base.{
  ℕ, suc, ◌-◌, ◌<◌, ◌^◌, ◌≡◌, refl, true, false, [], ◌∷◌, none, take, drop, ◌==◌, ltb, leb, arith,
}
use mniam_headless.Base.Int.{negsuc}
use mniam_headless.Amcom.{
  Amcom, player_update_request, food_update_request, type_code, max_player_updates,
  max_food_updates, max_packet_size, player_state_bytes, food_state_bytes, array_bytes,
}
use mniam_headless.Remote.Transaction.{
  setup_transaction, get_request_to_send, indicate_transmission, is_finished,
}
use mniam_headless.Remote.Connection.{
  Remote, Round, send_player_update, send_food_update, transmitted, send_request, receive_available,
  run_round,
}
use mniam_headless.Remote.Sending.{drain-take}

module _ {R : Type 0} (a : Amcom R) where
  -- A PLAYER_UPDATE request that is set up while the connection is alive takes the first eight states
  -- of the queue, or all if there are fewer, into one packet, in order. The others stay in the queue, and
  -- the transaction is finished.
  pub send_player_update_queue :
      (r : Round) (c : Remote R)
      → c.alive ≡ true
      → let (c', sent) = send_request a r (send_player_update c).0 in
        (sent
          ≡ a.serialize
              (type_code player_update_request)
              (array_bytes player_state_bytes (take max_player_updates c.player_queue))
            ∷ [])
        × (c'.player_queue ≡ drop max_player_updates c.player_queue)
        × (is_finished c'.remote_transaction ≡ true)
  unfolding send_request send_player_update get_request_to_send transmitted indicate_transmission
      is_finished setup_transaction array_bytes
  send_player_update_queue r c on =
      rw (on, drain-take max_player_updates c.player_queue) (refl, refl, refl)

  -- A FOOD_UPDATE request that is set up while the connection is alive takes the first sixteen states
  -- of the queue, or all if there are fewer, into one packet, in order. The others stay in the queue, and
  -- the transaction is finished.
  pub send_food_update_queue :
      (r : Round) (c : Remote R)
      → c.alive ≡ true
      → let (c', sent) = send_request a r (send_food_update c).0 in
        (sent
          ≡ a.serialize
              (type_code food_update_request)
              (array_bytes food_state_bytes (take max_food_updates c.food_queue))
            ∷ [])
        × (c'.food_queue ≡ drop max_food_updates c.food_queue)
        × (is_finished c'.remote_transaction ≡ true)
  unfolding send_request send_food_update get_request_to_send transmitted indicate_transmission
      is_finished setup_transaction array_bytes
  send_food_update_queue r c on =
      rw (on, drain-take max_food_updates c.food_queue) (refl, refl, refl)

  -- If bytes are available and `recv` returns an error, the round deserializes more bytes than its
  -- buffer has: the error is not seen.
  pub run_round_error :
      (r : Round) (c : Remote R) (n : ℕ)
      → (r.available == 0) ≡ false
      → r.received ≡ negsuc n
      → n < 2 ^ 31
      → run_round a r c ≡ none
  unfolding run_round receive_available
  run_round_error r c n some_bytes failed small =
      let huge : ltb 0 (2 ^ 64 - suc n) ≡ true = ground arith in
      let over : leb (2 ^ 64 - suc n) max_packet_size ≡ false = ground arith in
      rw (some_bytes, failed, huge, over)
