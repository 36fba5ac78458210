-- ===== src/Amcom/Requests.antt =====
-- The bytes of the requests: the sizes that src/amcom_packets.h asserts, and what the transactions of
-- src/amcom_transactions.h send.
use mniam_headless.Base.{
  ℕ, zero, suc, ◌+◌, ◌^◌, ◌≤◌, ◌<◌, ◌≡◌, refl, ap, ◌∙◌, [], ◌∷◌, ◌++◌, length, take, arith,
}
use mniam_headless.Connection.{Bytes, Transaction, new_transaction}
use mniam_headless.Engine.{thousand_float}
use mniam_headless.Amcom.Library.{Amcom, IsAmcom, packet_overhead, max_payload_size}
use mniam_headless.Amcom.Packets.{
  PacketType, identify_request, new_game_request, move_request, type_code, identify_request_bytes,
  new_game_request_bytes, move_request_bytes,
}
use mniam_headless.Amcom.Transactions.{
  fill, amcom_transaction, identify_transaction, new_game_transaction, move_transaction,
}

take-length_append : (n : ℕ) (xs ys : Bytes) → length xs ≡ n → take n (xs ++ ys) ≡ xs
take-length_append zero [] ys h = refl
take-length_append zero (x ∷ xs) ys h = absurd (omega (arith, h))
take-length_append (suc n) [] ys h = absurd (omega (arith, h))
take-length_append (suc n) (x ∷ xs) ys h =
    ap (◌∷◌ x) (take-length_append n xs ys (omega (arith, h)))

-- What is sent is the packet of the request, whatever was in the buffer.
abbrev pub IsWhole : {R : Type 0} → Amcom R → Transaction → PacketType → Bytes → ℕ → ℕ → Type 0
IsWhole a t request payload size response_size =
    (t.request ≡ a.serialize (type_code request) payload)
    × (length t.request ≡ size)
    × (t.response_size ≡ response_size)

module _ {R : Type 0} (a : Amcom R) (h : IsAmcom a) where
  fill-serialize :
      (buffer : Bytes) (type : ℕ) (payload : Bytes)
      → type < 2 ^ 8
      → length payload ≤ max_payload_size
      → fill a buffer type payload ≡ a.serialize type payload
  unfolding fill
  fill-serialize buffer type payload t few =
      take-length_append (packet_overhead + length payload) (a.serialize type payload) _
        (h.serialize_size type payload t few)

  filled :
      (buffer : Bytes) (type : ℕ) (payload : Bytes) (n : ℕ)
      → type < 2 ^ 8
      → length payload ≡ n
      → n ≤ max_payload_size
      → (fill a buffer type payload ≡ a.serialize type payload)
        × (length (fill a buffer type payload) ≡ packet_overhead + n)
  filled buffer type payload n t size few =
      let e = fill-serialize buffer type payload t (omega arith) in
      (e, ap length e ∙ omega (arith, h.serialize_size type payload t (omega arith), size))

  -- With a packet library as documented, the transactions for IDENTIFY, NEW_GAME and MOVE send the packets of
  -- their requests, of 9, 15 and 9 bytes, whatever their buffers held before, and ask for responses of 29, 132
  -- and 9 bytes.
  pub transactions-IsWhole :
      (buffer : Bytes) (number count game_time : ℕ)
      → IsWhole a
          (identify_transaction a buffer)
          identify_request
          (identify_request_bytes (record { game_ver_hi = 0; game_ver_lo = 2; game_revision = 0 }))
          9
          29
        × IsWhole a
            (new_game_transaction a buffer number count)
            new_game_request
            (new_game_request_bytes (record {
              player_number = number;
              number_of_players = count;
              map_width = thousand_float;
              map_height = thousand_float;
            }))
            15
            132
        × IsWhole a
            (move_transaction a buffer game_time)
            move_request
            (move_request_bytes (record { game_time = game_time }))
            9
            9
  unfolding identify_transaction new_game_transaction move_transaction amcom_transaction
      new_transaction
  transactions-IsWhole buffer number count game_time =
      let i =
        filled buffer 1
          (identify_request_bytes (record { game_ver_hi = 0; game_ver_lo = 2; game_revision = 0 }))
          4 (omega arith) (unfold identify_request_bytes in refl) (omega arith) in
      let g =
        filled buffer 3
          (new_game_request_bytes (record {
            player_number = number;
            number_of_players = count;
            map_width = thousand_float;
            map_height = thousand_float;
          }))
          10 (omega arith) (unfold new_game_request_bytes in refl) (omega arith) in
      let m =
        filled buffer 9 (move_request_bytes (record { game_time = game_time })) 4 (omega arith)
          (unfold move_request_bytes in refl) (omega arith) in
      ((i.0, i.1, refl), (g.0, g.1, refl), (m.0, m.1, refl))
