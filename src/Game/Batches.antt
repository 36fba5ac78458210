-- ===== src/Game/Batches.antt =====
-- The states that an update sends, and their batches.
use mniam_headless.Base.{
  ℕ, ◌+◌, ◌%◌, ◌^◌, ◌≤◌, ◌<◌, ◌≡◌, refl, ap, ◌∙◌, ◌||◌, Bool-cases, inl, inr, List, [], ◌∷◌, ◌++◌,
  map, length, length-append, is_empty, ◌==◌, if◌then◌else◌, arith,
}
use mathlib.Core.List.{append_assoc, append-nil}
use mniam_headless.Engine.{World}
use mniam_headless.Amcom.{PlayerState, FoodState, max_food_updates, max_player_updates}
use mniam_headless.Game.State.{Player, Food, Sent, food_update_sent}
use mniam_headless.Game.Updates.{food_state, player_state, send_food, send_players}

-- The states of all foods and of all players, with their numbers from `no` on.
unfoldable pub food_states : World → ℕ → List Food → List FoodState
food_states w food_no [] = []
food_states w food_no (f ∷ fs) = food_state w food_no f ∷ food_states w ((food_no + 1) % 2 ^ 16) fs

unfoldable pub player_states : World → ℕ → List Player → List PlayerState
player_states w player_no [] = []
player_states w player_no (p ∷ ps) =
    player_state w player_no p ∷ player_states w ((player_no + 1) % 2 ^ 16) ps

module _ {A : Type 0} where
  abbrev pub flatten : List (List A) → List A
  flatten [] = []
  flatten (b ∷ bs) = b ++ flatten bs

  -- Each batch but the last is full, and the last holds something and no more than fits.
  abbrev pub Filled : ℕ → List (List A) → Type 0
  Filled max [] = Unit {0}
  Filled max (b ∷ []) = (0 < length b) × (length b ≤ max)
  Filled max (b ∷ c ∷ bs) = (length b ≡ max) × Filled max (c ∷ bs)

  Filled-cons :
      (max : ℕ) (b : List A) (bs : List (List A))
      → 0 < max
      → length b ≡ max
      → Filled max bs
      → Filled max (b ∷ bs)
  Filled-cons max b [] pos e h = omega arith
  Filled-cons max b (c ∷ bs) pos e h = (e, h)

  -- The loop without what it sends: a batch that is full, or ended by the last item, is closed.
  collect : ℕ → List A → List A → List (List A)
  collect max batch [] = []
  collect max batch (x ∷ xs) =
      let batch' = batch ++ x ∷ [] in
      let sends = (length batch' == max) || is_empty xs in
      let rest = collect max (if sends then [] else batch') xs in
      if sends then batch' ∷ rest else rest

  collect-flatten :
      (max : ℕ) (batch : List A) (x : A) (xs : List A)
      → 0 < max
      → length batch < max
      → (flatten (collect max batch (x ∷ xs)) ≡ batch ++ x ∷ xs)
        × Filled max (collect max batch (x ∷ xs))
  unfolding collect
  collect-flatten max batch x [] pos room =
      let size = length-append batch (x ∷ []) in
      elim (Bool-cases (length (batch ++ x ∷ []) == max)) [
        | inl full ↦ rw full (append-nil (batch ++ x ∷ []), omega (arith, size))
        | inr more ↦ rw more (append-nil (batch ++ x ∷ []), omega (arith, size))
      ]
  collect-flatten max batch x (y ∷ ys) pos room =
      let size = length-append batch (x ∷ []) in
      elim (Bool-cases (length (batch ++ x ∷ []) == max)) [
        | inl full ↦
            let rest = collect-flatten max [] y ys pos pos in
            rw full (
              ap (λ t. (batch ++ x ∷ []) ++ t) rest.0 ∙ append_assoc batch (x ∷ []) (y ∷ ys),
              Filled-cons max (batch ++ x ∷ []) _ pos (ground arith) rest.1,
            )
        | inr more ↦
            let rest = collect-flatten max (batch ++ x ∷ []) y ys pos (ground (arith, size)) in
            rw more (rest.0 ∙ append_assoc batch (x ∷ []) (y ∷ ys), rest.1)
      ]

  -- Batches that hold the items `xs` in their order.
  pub record Batches (max : ℕ) (xs : List A) (bs : List (List A)) : Type 0 where
    pub all_sent : flatten bs ≡ xs
    pub filled : Filled max bs

  collect-Batches : (max : ℕ) (xs : List A) → 0 < max → Batches max xs (collect max [] xs)
  unfolding collect
  collect-Batches max [] pos = record { all_sent = refl; filled = tt }
  collect-Batches max (x ∷ xs) pos =
      let b = collect-flatten max [] x xs pos pos in record { all_sent = b.0; filled = b.1 }

is_empty-food_states :
    (w : World) (n : ℕ) (fs : List Food) → is_empty (food_states w n fs) ≡ is_empty fs
unfolding food_states
is_empty-food_states w n [] = refl
is_empty-food_states w n (f ∷ fs) = refl

is_empty-player_states :
    (w : World) (n : ℕ) (ps : List Player) → is_empty (player_states w n ps) ≡ is_empty ps
unfolding player_states
is_empty-player_states w n [] = refl
is_empty-player_states w n (p ∷ ps) = refl

send_food-collect :
    (w : World) (n : ℕ) (batch : List FoodState) (fs : List Food)
    → send_food w n batch fs
      ≡ map food_update_sent (collect max_food_updates batch (food_states w n fs))
unfolding send_food collect food_states
send_food-collect w n batch [] = refl
send_food-collect w n batch (f ∷ fs) =
    let batch' = batch ++ food_state w n f ∷ [] in
    rw (is_empty-food_states w ((n + 1) % 2 ^ 16) fs)
      elim (Bool-cases ((length batch' == max_food_updates) || is_empty fs)) [
        | inl sends ↦ rw sends (
            ap (λ rest. food_update_sent batch' ∷ rest)
              (send_food-collect w ((n + 1) % 2 ^ 16) [] fs))
        | inr waits ↦ rw waits (send_food-collect w ((n + 1) % 2 ^ 16) batch' fs)
      ]

send_players-collect :
    (sent : List PlayerState → Sent) (w : World) (n : ℕ) (batch : List PlayerState)
    (ps : List Player)
    → send_players sent w n batch ps
      ≡ map sent (collect max_player_updates batch (player_states w n ps))
unfolding send_players collect player_states
send_players-collect sent w n batch [] = refl
send_players-collect sent w n batch (p ∷ ps) =
    let batch' = batch ++ player_state w n p ∷ [] in
    rw (is_empty-player_states w ((n + 1) % 2 ^ 16) ps)
      elim (Bool-cases ((length batch' == max_player_updates) || is_empty ps)) [
        | inl sends ↦
            rw sends (
              ap (λ rest. sent batch' ∷ rest)
                (send_players-collect sent w ((n + 1) % 2 ^ 16) [] ps))
        | inr waits ↦ rw waits (send_players-collect sent w ((n + 1) % 2 ^ 16) batch' ps)
      ]

-- The food updates of a round hold the states of all foods, each once and in order, in batches of 16
-- of which only the last may hold fewer, and that one at least one.
pub send_food-Batches :
    (w : World) (fs : List Food)
    → (bs : List (List FoodState)) × (send_food w 0 [] fs ≡ map food_update_sent bs)
      × Batches max_food_updates (food_states w 0 fs) bs
send_food-Batches w fs = (
  collect max_food_updates [] (food_states w 0 fs),
  send_food-collect w 0 [] fs,
  collect-Batches max_food_updates (food_states w 0 fs) (omega arith),
)

-- The player updates of a round, and the messages at the end of a game, hold the states of all
-- players, each once and in order, in batches of 8 of which only the last may hold fewer, and that one
-- at least one.
pub send_players-Batches :
    (sent : List PlayerState → Sent) (w : World) (ps : List Player)
    → (bs : List (List PlayerState)) × (send_players sent w 0 [] ps ≡ map sent bs)
      × Batches max_player_updates (player_states w 0 ps) bs
send_players-Batches sent w ps = (
  collect max_player_updates [] (player_states w 0 ps),
  send_players-collect sent w 0 [] ps,
  collect-Batches max_player_updates (player_states w 0 ps) (omega arith),
)
