-- ===== src/Game/Broadcast.antt =====
-- What the clients read from the updates that `Game::update` (src/amgame.cpp) sends: from the state of
-- the world through batches, payloads and packets to the states a client finds.
use mathlib.Core.List.{append-nil}
use mniam_headless.Base.{
  ℕ, ◌+◌, ◌%◌, ◌^◌, ◌≤◌, ◌<◌, zero, suc, ◌≡◌, refl, ap, sym, subst, ◌∙◌, List, [], ◌∷◌, ◌++◌,
  Option, map, length, take, get_elem?, ◌==◌, if◌then◌else◌, arith, All,
}
use mniam_headless.Base.Int.{ℤ, pos, negsuc}
use mniam_headless.Connection.{Bytes}
use mniam_headless.Engine.{World, Mortal}
use mniam_headless.Engine.Positions.{PositionFits}
use mniam_headless.Amcom.{
  Amcom, IsAmcom, Packet, PlayerState, FoodState, type_code, food_update_request,
  player_update_request, food_update, player_update, game_over, new_game_transaction,
  move_transaction, max_food_updates, max_player_updates,
}
use mniam_headless.Amcom.RoundTrip.{
  PlayerFits, FoodFits, read_food_states, read_player_states, food_update_round_trip,
  player_update_round_trip,
}
use mniam_headless.Game.State.{
  Player, Food, Sent, new_game_to, food_update_sent, player_update_sent, move_sent, game_over_sent,
  wrap, hp_or_zero, position_or_origin,
}
use mniam_headless.Game.Updates.{food_state, player_state, send_food, send_players}
use mniam_headless.Game.Batches.{
  food_states, player_states, flatten, Filled, send_food-Batches, send_players-Batches,
}

module _ {A : Type 0} where
  pub All-split : (P : A → Type 0) (xs ys : List A) → All P (xs ++ ys) → All P xs × All P ys
  All-split P [] ys h = (tt, h)
  All-split P (x ∷ xs) ys h = let (left, right) = All-split P xs ys h.1 in ((h.0, left), right)

  pub Filled-le : (max : ℕ) (bs : List (List A)) → Filled max bs → All (λ b. length b ≤ max) bs
  Filled-le max [] h = tt
  Filled-le max (b ∷ []) h = (h.1, tt)
  Filled-le max (b ∷ c ∷ bs) h = (omega (arith, h.0), Filled-le max (c ∷ bs) h.1)

  -- If every batch that fits is read as it was written, so are all batches together.
  module _ (write : List A → Bytes) (read : Bytes → List A) (fits : A → Type 0) (max : ℕ) where
    read_batches :
        ((b : List A) → All fits b → length b ≤ max → read (write b) ≡ b)
        → (bs : List (List A)) → All fits (flatten bs)
        → All (λ b. length b ≤ max) bs
        → flatten (map (λ b. read (write b)) bs) ≡ flatten bs
    read_batches same [] h few = refl
    read_batches same (b ∷ bs) h few =
        let (here, later) = All-split fits b (flatten bs) h in
        ap (λ c. c ++ flatten (map (λ b. read (write b)) bs)) (same b here few.0)
        ∙ ap (◌++◌ b) (read_batches same bs later few.1)

abbrev pub OptionFits : Option Mortal → Type 0
OptionFits o = ((position_or_origin o).x < 2 ^ 32) × ((position_or_origin o).y < 2 ^ 32)

pub get_elem?-Fits : (ms : List Mortal) (i : ℕ) → All PositionFits ms → OptionFits (get_elem? ms i)
get_elem?-Fits [] i h = (omega arith, omega arith)
get_elem?-Fits (m ∷ ms) zero h = h.0
get_elem?-Fits (m ∷ ms) (suc i) h = get_elem?-Fits ms i h.1

pub food_states-FoodFits :
    (w : World) (n : ℕ) (fs : List Food)
    → All PositionFits w.food
    → n < 2 ^ 16
    → All FoodFits (food_states w n fs)
unfolding food_states food_state
food_states-FoodFits w n [] h small = tt
food_states-FoodFits w n (f ∷ fs) h small =
    let (x, y) = get_elem?-Fits w.food f.engine_food h in
    (
      record { food_no_fits = small; x_fits = x; y_fits = y },
      food_states-FoodFits w ((n + 1) % 2 ^ 16) fs h (omega arith),
    )

wrap-lt : (h : ℤ) → wrap (2 ^ 16) h < 2 ^ 16
wrap-lt (pos n) = omega arith
wrap-lt (negsuc n) = omega arith

pub player_states-PlayerFits :
    (w : World) (n : ℕ) (ps : List Player)
    → All PositionFits w.players
    → All PlayerFits (player_states w n ps)
unfolding player_states player_state
player_states-PlayerFits w n [] h = tt
player_states-PlayerFits w n (p ∷ ps) h =
    let (x, y) = get_elem?-Fits w.players p.engine_player h in
    (
      record {
        hp_fits = wrap-lt (hp_or_zero (get_elem? w.players p.engine_player));
        x_fits = x;
        y_fits = y;
      },
      player_states-PlayerFits w ((n + 1) % 2 ^ 16) ps h,
    )

module _ {R : Type 0} (a : Amcom R) where
  -- The request of the transaction that is run.
  unfoldable pub request_of : Bytes → Sent → Bytes
  unfolding food_update player_update game_over new_game_transaction move_transaction
  request_of buffer (new_game_to client_id player_no players) =
      (new_game_transaction a buffer player_no players).request
  request_of buffer (food_update_sent states) = food_update a states
  request_of buffer (player_update_sent states) = player_update a states
  request_of buffer (move_sent game_time) = (move_transaction a buffer game_time).request
  request_of buffer (game_over_sent states) = game_over a states

  -- What a client that feeds a request to a new receiver reads from packets of a type.
  abbrev pub read_packets : {A : Type 0} → ℕ → (Bytes → List A) → List Packet → List A
  read_packets type read [] = []
  read_packets type read (p ∷ ps) =
      let rest = read_packets type read ps in
      if p.header.type == type then read (take p.header.size p.payload) ++ rest else rest

  abbrev pub read_request : {A : Type 0} → ℕ → (Bytes → List A) → Bytes → List A
  read_request type read bytes = read_packets type read (a.deserialize a.init_receiver bytes).1

  abbrev pub foods_read : List Bytes → List FoodState
  foods_read requests =
      flatten (map (read_request (type_code food_update_request) read_food_states) requests)

  abbrev pub players_read : List Bytes → List PlayerState
  players_read requests =
      flatten (map (read_request (type_code player_update_request) read_player_states) requests)

map-sent :
    {A B : Type 0} (read : Bytes → B) (request : Sent → Bytes) (sent : A → Sent) (bs : List A)
    → map read (map request (map sent bs)) ≡ map (λ b. read (request (sent b))) bs
map-sent read request sent [] = refl
map-sent read request sent (b ∷ bs) =
    ap (◌∷◌ (read (request (sent b)))) (map-sent read request sent bs)

module _ {R : Type 0} (a : Amcom R) (h : IsAmcom a) where
  pub food_request_read :
      (b : List FoodState)
      → All FoodFits b
      → length b ≤ max_food_updates
      → read_request a (type_code food_update_request) read_food_states (food_update a b) ≡ b
  food_request_read b fits few =
      let (p, _, got, type, states) = food_update_round_trip a h b fits few in
      rw (got, type) (ap (λ l. l ++ []) states ∙ append-nil b)

  pub player_request_read :
      (b : List PlayerState)
      → All PlayerFits b
      → length b ≤ max_player_updates
      → read_request a (type_code player_update_request) read_player_states (player_update a b) ≡ b
  player_request_read b fits few =
      let (p, _, got, type, states) = player_update_round_trip a h b fits few in
      rw (got, type) (ap (λ l. l ++ []) states ∙ append-nil b)

  -- With a packet library as documented, and coordinates that are bit patterns of floats: a client that
  -- feeds the requests of a food update to new receivers reads the states of all foods, each once and
  -- in order, and from those of a player update the states of all players.
  pub updates_read :
      (buffer : Bytes) (w : World) (fs : List Food) (ps : List Player)
      → All PositionFits w.food
      → All PositionFits w.players
      → (foods_read a (map (request_of a buffer) (send_food w 0 [] fs)) ≡ food_states w 0 fs)
        × (players_read a (map (request_of a buffer) (send_players player_update_sent w 0 [] ps))
            ≡ player_states w 0 ps)
  unfolding request_of
  updates_read buffer w fs ps foods_fit players_fit =
      let (bs, sent, batches) = send_food-Batches w fs in
      let (cs, sent', batches') = send_players-Batches player_update_sent w ps in
      let food_fits : All FoodFits (flatten bs) =
        subst (All FoodFits) (sym batches.all_sent)
          (food_states-FoodFits w 0 fs foods_fit (omega arith)) in
      let player_fits : All PlayerFits (flatten cs) =
        subst (All PlayerFits) (sym batches'.all_sent)
          (player_states-PlayerFits w 0 ps players_fit) in
      (
        ap (λ l. foods_read a (map (request_of a buffer) l)) sent
            ∙ ap flatten (map-sent _ (request_of a buffer) food_update_sent bs)
            ∙ read_batches (food_update a)
                (read_request a (type_code food_update_request) read_food_states) FoodFits
                max_food_updates food_request_read bs food_fits
                (Filled-le max_food_updates bs batches.filled)
            ∙ batches.all_sent,
        ap (λ l. players_read a (map (request_of a buffer) l)) sent'
            ∙ ap flatten (map-sent _ (request_of a buffer) player_update_sent cs)
            ∙ read_batches (player_update a)
                (read_request a (type_code player_update_request) read_player_states) PlayerFits
                max_player_updates player_request_read cs player_fits
                (Filled-le max_player_updates cs batches'.filled)
            ∙ batches'.all_sent,
      )
