-- ===== src/Tests/Entrances.antt =====
-- A client that takes part in a match, on the server of Tests/Servers.
use mniam_headless.Base.{ℕ, suc, zero, ◌≡◌, [], ◌∷◌, some, length, map}
use mniam_headless.Base.Int.{pos}
use mniam_headless.Connection.{Bytes, Exchange, get_clients}
use mniam_headless.Game.{new_game, new_game_request, set_out}
use mniam_headless.Game.Served.{Joined, join_served}
use mniam_headless.Game.Entering.{served_answers, new_game_request-asks}
use mniam_headless.Tests.Packets.{framing, framing-IsAmcom}
use mniam_headless.Tests.Worlds.{ops}
use mniam_headless.Tests.Matches.{outside}
use mniam_headless.Tests.Servers.{
  early_hall, early_hall-IsRegistry, early_hall-IsReady, memory, memory-IsStore, reply,
}

abbrev zeros : ℕ → Bytes
zeros zero = []
zeros (suc n) = 0 ∷ zeros n

-- The whole request is written, and a NEW_GAME.response with an empty message is read.
abbrev yes_reply : Exchange
yes_reply = record reply {
  written = pos 15;
  read_count = pos 132;
  read_data = 0xa1 ∷ 4 ∷ 127 ∷ 0 ∷ 0 ∷ zeros 127;
}

new_game_request-asks_example :
    let ids = map (λ i. i.client_id) (get_clients 70 early_hall) in
    (after : Joined) × (join_served framing
        (λ k. yes_reply)
        []
        ops
        outside.answers
        (length ids)
        0
        ids
        early_hall
        memory
        new_game
      ≡ some after)
    × (new_game_request ops
          (served_answers framing (λ k. yes_reply) [] ops outside.answers ids early_hall)
          new_game
        ≡ (
          set_out ops
              (served_answers framing (λ k. yes_reply) [] ops outside.answers ids early_hall)
              after.game,
          after.sent,
        ))
new_game_request-asks_example =
    new_game_request-asks framing (λ k. yes_reply) [] ops outside.answers framing-IsAmcom 70
      early_hall memory new_game early_hall-IsRegistry memory-IsStore early_hall-IsReady
