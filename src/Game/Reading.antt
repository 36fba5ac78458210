-- ===== src/Game/Reading.antt =====
-- What a client reads from the requests that the game (src/amgame.cpp) hands to its socket.
use mniam_headless.Base.{
  ℕ, ◌^◌, ◌<◌, ◌≤◌, ◌≡◌, refl, ap, ◌∙◌, false, Bool-cases, inl, inr, List, [], ◌∷◌, ◌++◌, map,
  length, ◌==◌, arith, All,
}
use mniam_headless.Connection.{Bytes}
use mniam_headless.Amcom.{
  food_state_bytes, food_update, Amcom, IsAmcom, PlayerState, type_code, food_update_request,
  player_update_request, game_over, player_update, game_over_request, new_game_request,
  move_request, new_game_request_bytes, move_request_bytes, player_state_bytes, array_bytes,
  max_food_updates, max_player_updates,
}
use mniam_headless.Amcom.RoundTrip.{
  length-player_states, length-food_states, PlayerFits, FoodFits, read_food_states,
  read_player_states,
}
use mniam_headless.Amcom.Requests.{transactions-IsWhole}
use mniam_headless.Game.State.{
  Sent, new_game_to, food_update_sent, player_update_sent, move_sent, game_over_sent,
}
use mniam_headless.Game.Broadcast.{
  request_of, read_request, foods_read, players_read, food_request_read, player_request_read,
}
use mniam_headless.Game.Eaten.{reported}
use mniam_headless.Game.Heeding.{is_for, sents_for}

-- The states of players in the player updates among what is sent.
pub players_reported : List Sent → List PlayerState
players_reported [] = []
players_reported (player_update_sent b ∷ sent) = b ++ players_reported sent
players_reported (_ ∷ sent) = players_reported sent

-- What an array of states needs to come through a packet.
abbrev pub SentFits : Sent → Type 0
SentFits (food_update_sent b) = All FoodFits b × (length b ≤ max_food_updates)
SentFits (player_update_sent b) = All PlayerFits b × (length b ≤ max_player_updates)
SentFits (game_over_sent b) = length b ≤ max_player_updates
SentFits _ = Unit {0}

abbrev request_type : Sent → ℕ
request_type (new_game_to k number count) = type_code new_game_request
request_type (player_update_sent b) = type_code player_update_request
request_type (food_update_sent b) = type_code food_update_request
request_type (move_sent time) = type_code move_request
request_type (game_over_sent b) = type_code game_over_request

module _ {R : Type 0} (a : Amcom R) (h : IsAmcom a) (buffer : Bytes) where
  -- A packet of another type holds no states.
  other_type :
      {A : Type 0} (type other : ℕ) (read : Bytes → List A) (payload : Bytes)
      → (other == type) ≡ false
      → other < 2 ^ 8
      → length payload ≤ 200
      → read_request a type read (a.serialize other payload) ≡ []
  other_type type other read payload ne small few =
      let (p, got, carries) = h.deserialize-serialize other payload small few in
      let differs : (p.header.type == type) ≡ false = ground (arith, carries.same_type) in
      rw (got, differs) refl

  other_read :
      {A : Type 0} (type : ℕ) (read : Bytes → List A) (s : Sent)
      → SentFits s
      → (request_type s == type) ≡ false
      → read_request a type read (request_of a buffer s) ≡ []
  unfolding request_of player_update game_over food_update
  other_read type read (food_update_sent b) fits ne =
      other_type type 7 read (array_bytes food_state_bytes b) ne (omega arith)
        (omega (arith, length-food_states b, fits.1))
  other_read type read (player_update_sent b) fits ne =
      other_type type 5 read (array_bytes player_state_bytes b) ne (omega arith)
        (omega (arith, length-player_states b, fits.1))
  other_read type read (game_over_sent b) fits ne =
      other_type type 11 read (array_bytes player_state_bytes b) ne (omega arith)
        (omega (arith, length-player_states b, fits))
  other_read type read (new_game_to k number count) fits ne =
      let (_, (whole, _, _), _) = transactions-IsWhole a h buffer number count 0 in
      ap (read_request a type read) whole
      ∙ other_type type 3 read _ ne (omega arith) (unfold new_game_request_bytes in omega arith)
  other_read type read (move_sent time) fits ne =
      let (_, _, (whole, _, _)) = transactions-IsWhole a h buffer 0 0 time in
      ap (read_request a type read) whole
      ∙ other_type type 9 read _ ne (omega arith) (unfold move_request_bytes in omega arith)

  -- Foods are read from the food updates alone.
  food_read :
      (s : Sent) (ss : List Sent)
      → SentFits s
      → read_request a 7 read_food_states (request_of a buffer s) ++ reported ss ≡ reported (s ∷ ss)
  unfolding request_of reported
  food_read (food_update_sent b) ss fits =
      ap (λ l. l ++ reported ss) (food_request_read a h b fits.0 fits.1)
  food_read (player_update_sent b) ss fits =
      ap (λ l. l ++ reported ss) (other_read 7 read_food_states (player_update_sent b) fits refl)
  food_read (game_over_sent b) ss fits =
      ap (λ l. l ++ reported ss) (other_read 7 read_food_states (game_over_sent b) fits refl)
  food_read (new_game_to k number count) ss fits =
      ap (λ l. l ++ reported ss)
        (other_read 7 read_food_states (new_game_to k number count) fits refl)
  food_read (move_sent time) ss fits =
      ap (λ l. l ++ reported ss) (other_read 7 read_food_states (move_sent time) fits refl)

  -- And players from the player updates.
  player_read :
      (s : Sent) (ss : List Sent)
      → SentFits s
      → read_request a 5 read_player_states (request_of a buffer s) ++ players_reported ss
        ≡ players_reported (s ∷ ss)
  unfolding request_of players_reported
  player_read (player_update_sent b) ss fits =
      ap (λ l. l ++ players_reported ss) (player_request_read a h b fits.0 fits.1)
  player_read (food_update_sent b) ss fits =
      ap (λ l. l ++ players_reported ss)
        (other_read 5 read_player_states (food_update_sent b) fits refl)
  player_read (game_over_sent b) ss fits =
      ap (λ l. l ++ players_reported ss)
        (other_read 5 read_player_states (game_over_sent b) fits refl)
  player_read (new_game_to k number count) ss fits =
      ap (λ l. l ++ players_reported ss)
        (other_read 5 read_player_states (new_game_to k number count) fits refl)
  player_read (move_sent time) ss fits =
      ap (λ l. l ++ players_reported ss)
        (other_read 5 read_player_states (move_sent time) fits refl)

  pub sent_read :
      (ss : List Sent)
      → All SentFits ss
      → (foods_read a (map (request_of a buffer) ss) ≡ reported ss)
        × (players_read a (map (request_of a buffer) ss) ≡ players_reported ss)
  sent_read [] fits = ((unfold reported in refl), (unfold players_reported in refl))
  sent_read (s ∷ ss) fits =
      let rest = sent_read ss fits.1 in
      (
        ap (λ l. read_request a 7 read_food_states (request_of a buffer s) ++ l) rest.0
            ∙ food_read s ss fits.0,
        ap (λ l. read_request a 5 read_player_states (request_of a buffer s) ++ l) rest.1
            ∙ player_read s ss fits.0,
      )

-- All states are in transactions with all clients.
pub sents_for-reported :
    (k : ℕ) (ss : List Sent)
    → (reported (sents_for k ss) ≡ reported ss)
      × (players_reported (sents_for k ss) ≡ players_reported ss)
unfolding reported players_reported sents_for
sents_for-reported k [] = (refl, refl)
sents_for-reported k (food_update_sent b ∷ ss) =
    let rest = sents_for-reported k ss in (ap (λ l. b ++ l) rest.0, rest.1)
sents_for-reported k (player_update_sent b ∷ ss) =
    let rest = sents_for-reported k ss in (rest.0, ap (λ l. b ++ l) rest.1)
sents_for-reported k (game_over_sent b ∷ ss) = sents_for-reported k ss
sents_for-reported k (move_sent time ∷ ss) = sents_for-reported k ss
sents_for-reported k (new_game_to j number count ∷ ss) = elim (Bool-cases (j == k)) [
  | inl hit ↦ rw hit (sents_for-reported k ss)
  | inr miss ↦ rw miss (sents_for-reported k ss)
]

pub sents_for-SentFits : (k : ℕ) (ss : List Sent) → All SentFits ss → All SentFits (sents_for k ss)
unfolding sents_for
sents_for-SentFits k [] fits = tt
sents_for-SentFits k (s ∷ ss) fits = elim (Bool-cases (is_for k s)) [
  | inl hit ↦ rw hit (fits.0, sents_for-SentFits k ss fits.1)
  | inr miss ↦ rw miss (sents_for-SentFits k ss fits.1)
]
