-- ===== src/Game/Heeding.antt =====
-- What one client has to do with the transactions of the game (src/amgame.cpp): which go to it, and what
-- its socket does with a request so that the server keeps it.
use mniam_headless.Base.{
  ℕ, suc, ◌+◌, ◌≡◌, refl, ap, sym, subst, ◌∙◌, Bool, true, not, ◌&&◌, ◌||◌, List, [], ◌∷◌, ◌++◌,
  map, Option, none, some, length, take, ◌==◌, if◌then◌else◌, arith, All, All-weaken, All-map,
}
use mniam_headless.Connection.{
  Bytes, Exchange, to_size_t, default_validator, new_client_transaction,
}
use mniam_headless.Connection.Listening.{Cooperative}
use mniam_headless.Connection.Telling.{CooperatesWith}
use mniam_headless.Amcom.{
  Amcom, ResponseKind, validate, new_game_kind, move_kind, game_over_kind, packet_overhead,
  game_over_response_size, PlayerState,
}
use mniam_headless.Amcom.Validation.{first_response, is_some, validate-verdict}
use mniam_headless.Engine.{World}
use mniam_headless.Game.State.{
  Food, Player, Sent, new_game_to, food_update_sent, player_update_sent, move_sent, game_over_sent,
}
use mniam_headless.Game.Updates.{send_food, send_players, send_eaten}
use mniam_headless.Game.Batches.{send_food-Batches, send_players-Batches}
use mniam_headless.Game.Eaten.{IsUpdate, send_eaten-reported}
use mniam_headless.Game.Broadcast.{request_of}

-- NEW_GAME requests go to one client, all others to everyone.
abbrev pub is_for : ℕ → Sent → Bool
is_for k (new_game_to j player_no players) = j == k
is_for k _ = true

unfoldable pub sents_for : ℕ → List Sent → List Sent
sents_for k [] = []
sents_for k (s ∷ ss) = let rest = sents_for k ss in if is_for k s then s ∷ rest else rest

-- The type and the size in bytes of the response that a transaction waits for.
abbrev pub response_of : Sent → Option (ResponseKind × ℕ)
response_of (new_game_to k player_no players) = some (new_game_kind, 132)
response_of (move_sent game_time) = some (move_kind, 9)
response_of (game_over_sent states) =
    some (game_over_kind, packet_overhead + game_over_response_size)
response_of (food_update_sent states) = none
response_of (player_update_sent states) = none

module _ {R : Type 0} (a : Amcom R) where
  -- If as many bytes are read as the response has, then the response is in them.
  abbrev pub answers_well : Option (ResponseKind × ℕ) → Exchange → Bool
  answers_well none x = true
  answers_well (some (kind, size)) x =
      not (size == to_size_t x.read_count)
      || is_some (first_response kind (a.deserialize a.init_receiver (take size x.read_data)).1)

  module _ (buffer : Bytes) where
    -- The socket takes the whole request, and does not send another answer of the response's size.
    unfoldable pub heeds : Sent → Exchange → Bool
    unfolding request_of
    heeds s x =
        (length (request_of a buffer s) == to_size_t x.written) && answers_well (response_of s) x

    -- The transaction at place `j` of the list comes in the round `i + j`.
    abbrev pub Heeds : (ℕ → Exchange) → ℕ → List Sent → Type 0
    Heeds x i [] = Unit {0}
    Heeds x i (s ∷ ss) = (heeds s (x i) ≡ true) × Heeds x (suc i) ss

    pub Heeds-constant :
        (x : Exchange) (i : ℕ) (ss : List Sent)
        → Heeds (λ j. x) i ss
        → All (λ s. heeds s x ≡ true) ss
    Heeds-constant x i [] well = tt
    Heeds-constant x i (s ∷ ss) well = (well.0, Heeds-constant x (suc i) ss well.1)

    pub heeds-silent :
        (s : Sent) (x : Exchange)
        → response_of s ≡ none
        → heeds s x ≡ true
        → Cooperative {V = Unit {0}} default_validator 0 x (request_of a buffer s)
    unfolding heeds new_client_transaction
    heeds-silent s x silent well c v = ground arith

    pub heeds-answer :
        (s : Sent) (x : Exchange) (kind : ResponseKind) (size : ℕ)
        → response_of s ≡ some (kind, size)
        → heeds s x ≡ true
        → Cooperative (validate a kind) size x (request_of a buffer s)
    unfolding heeds new_client_transaction
    heeds-answer s x kind size waits well c v =
        let verdict = validate-verdict a kind c.client_id (take size x.read_data) v in
        let answer : answers_well (some (kind, size)) x ≡ true =
          ap (λ o. answers_well o x) (sym waits) ∙ ground arith in
        ground (arith, verdict)

    pub Heeds-CooperatesWith :
        {V : Type 0} (validator : ℕ → Bytes → V → V × Bool) (size : ℕ)
        (waits : Option (ResponseKind × ℕ)) (x : ℕ → Exchange) (i : ℕ) (ss : List Sent)
        → ((s : Sent) (y : Exchange)
            → response_of s ≡ waits
            → heeds s y ≡ true
            → Cooperative validator size y (request_of a buffer s))
        → All (λ s. response_of s ≡ waits) ss
        → Heeds x i ss
        → CooperatesWith validator size x i (map (request_of a buffer) ss)
    Heeds-CooperatesWith validator size waits x i [] each alike well = tt
    Heeds-CooperatesWith validator size waits x i (s ∷ ss) each alike well = (
      each s (x i) alike.0 well.0,
      Heeds-CooperatesWith validator size waits x (suc i) ss each alike.1 well.1,
    )

pub sents_for-append :
    (k : ℕ) (ss ss' : List Sent) → sents_for k (ss ++ ss') ≡ sents_for k ss ++ sents_for k ss'
unfolding sents_for
sents_for-append k [] ss' = refl
sents_for-append k (s ∷ ss) ss' = ground (arith, sents_for-append k ss ss')

pub sents_for-All : (k : ℕ) (ss : List Sent) → All (λ s. is_for k s ≡ true) ss → sents_for k ss ≡ ss
unfolding sents_for
sents_for-All k [] h = refl
sents_for-All k (s ∷ ss) h = rw h.0 (ap (◌∷◌ s) (sents_for-All k ss h.1))

-- A transaction with all clients that waits for a response, or for none.
abbrev pub IsBroadcast : Option (ResponseKind × ℕ) → Sent → Type 0
IsBroadcast waits s = ((k : ℕ) → is_for k s ≡ true) × (response_of s ≡ waits)

-- The updates, and the messages at the end, go to all.
pub send_food-IsBroadcast :
    (w : World) (fs : List Food) → All (IsBroadcast none) (send_food w 0 [] fs)
send_food-IsBroadcast w fs =
    let (bs, sent, batches) = send_food-Batches w fs in
    subst (All (IsBroadcast none)) (sym sent)
      (All-map (IsBroadcast none) food_update_sent bs (λ b. ((λ k. refl), refl)))

pub send_players-IsBroadcast :
    (waits : Option (ResponseKind × ℕ)) (sent : List PlayerState → Sent) (w : World)
    (ps : List Player)
    → ((b : List PlayerState) → IsBroadcast waits (sent b))
    → All (IsBroadcast waits) (send_players sent w 0 [] ps)
send_players-IsBroadcast waits sent w ps each =
    let (bs, all, batches) = send_players-Batches sent w ps in
    subst (All (IsBroadcast waits)) (sym all) (All-map (IsBroadcast waits) sent bs each)

update-IsBroadcast : (s : Sent) → IsUpdate s → IsBroadcast none s
update-IsBroadcast (food_update_sent b) h = ((λ k. refl), refl)
update-IsBroadcast (new_game_to _ _ _) h = elim h [ ]
update-IsBroadcast (player_update_sent _) h = elim h [ ]
update-IsBroadcast (move_sent _) h = elim h [ ]
update-IsBroadcast (game_over_sent _) h = elim h [ ]

pub send_eaten-IsBroadcast :
    (w : World) (fs : List Food) → All (IsBroadcast none) (send_eaten w 0 [] fs).1
send_eaten-IsBroadcast w fs =
    All-weaken IsUpdate (IsBroadcast none) (send_eaten w 0 [] fs).1 update-IsBroadcast
      (send_eaten-reported w fs).1
