-- ===== src/Game/Eaten.antt =====
-- The foods that are reported as eaten after a move.
use mniam_headless.Base.{
  ℕ, ◌+◌, ◌%◌, ◌^◌, ◌≤◌, ◌<◌, ◌≡◌, refl, ap, sym, ◌∙◌, Bool, true, false, not, ◌&&◌, ◌||◌,
  Bool-cases, inl, inr, List, [], ◌∷◌, ◌++◌, length, length-append, is_empty, get_elem?, All, ◌==◌,
  if◌then◌else◌, arith,
}
use mathlib.Core.List.{append_assoc, append-nil}
use mniam_headless.Engine.{World}
use mniam_headless.Amcom.{FoodState, max_food_updates}
use mniam_headless.Game.State.{Food, Sent, food_update_sent, update_food, alive_or_false}
use mniam_headless.Game.Updates.{eaten_state, add_if_eaten, send_eaten}

-- Still alive for the game, dead in the world.
abbrev pub just_eaten : World → Food → Bool
just_eaten w f = f.is_alive && not (alive_or_false (get_elem? w.food f.engine_food))

-- What one food adds to a batch.
abbrev news : World → ℕ → Food → List FoodState
news w n f = if just_eaten w f then eaten_state w n f ∷ [] else []

-- The states of the foods that were just eaten, with their numbers from `n` on.
unfoldable pub eaten_states : World → ℕ → List Food → List FoodState
eaten_states w n [] = []
eaten_states w n (f ∷ fs) = news w n f ++ eaten_states w ((n + 1) % 2 ^ 16) fs

-- The states in the food updates among what is sent.
unfoldable pub reported : List Sent → List FoodState
reported [] = []
reported (food_update_sent b ∷ sent) = b ++ reported sent
reported (_ ∷ sent) = reported sent

-- An update that is sent holds a state at least and 16 at most.
abbrev pub IsUpdate : Sent → Type 0
IsUpdate (food_update_sent b) = (0 < length b) × (length b ≤ max_food_updates)
IsUpdate _ = ⊥

add_if_eaten-append :
    (w : World) (n : ℕ) (f : Food) (batch : List FoodState)
    → add_if_eaten w n f batch ≡ batch ++ news w n f
unfolding add_if_eaten
add_if_eaten-append w n f batch = ground (arith, append-nil batch)

length-news : (w : World) (n : ℕ) (f : Food) → length (news w n f) ≤ 1
length-news w n f = ground arith

length-add_if_eaten :
    (w : World) (n : ℕ) (f : Food) (batch : List FoodState)
    → length (add_if_eaten w n f batch) ≤ length batch + 1
length-add_if_eaten w n f batch =
    rw (add_if_eaten-append w n f batch)
      (omega (arith, length-append batch (news w n f), length-news w n f))

-- With the batch closed, or not, behind the food `f`.
send_eaten-cons :
    (w : World) (n : ℕ) (batch : List FoodState) (f : Food) (fs : List Food) (sends : Bool)
    → ((length (add_if_eaten w n f batch) == max_food_updates)
        || (is_empty fs && not (is_empty (add_if_eaten w n f batch))))
      ≡ sends
    → (send_eaten w n batch (f ∷ fs)).1 ≡ (
        if sends
        then food_update_sent (add_if_eaten w n f batch) ∷ (send_eaten w ((n + 1) % 2 ^ 16) [] fs).1
        else (send_eaten w ((n + 1) % 2 ^ 16) (add_if_eaten w n f batch) fs).1)
unfolding send_eaten
send_eaten-cons w n batch f fs true e = rw e
send_eaten-cons w n batch f fs false e = rw e

abbrev Reports : World → ℕ → List FoodState → List Food → List Sent → Type 0
Reports w n batch fs sent = (reported sent ≡ batch ++ eaten_states w n fs) × All IsUpdate sent

last_empty :
    (b : List FoodState)
    → ((length b == max_food_updates) || (true && not (is_empty b))) ≡ false
    → b ≡ []
last_empty [] e = refl
last_empty (x ∷ b) e = ground arith

last_some :
    (b : List FoodState)
    → ((length b == max_food_updates) || (true && not (is_empty b))) ≡ true
    → 0 < length b
last_some [] e = ground arith
last_some (x ∷ b) e = omega arith

send_eaten-Reports :
    (w : World) (n : ℕ) (batch : List FoodState) (f : Food) (fs : List Food)
    → length batch < max_food_updates
    → Reports w n batch (f ∷ fs) (send_eaten w n batch (f ∷ fs)).1
unfolding eaten_states reported
send_eaten-Reports w n batch f [] room =
    let b = add_if_eaten w n f batch in
    let added = add_if_eaten-append w n f batch in
    let size = length-add_if_eaten w n f batch in
    let whole : b ≡ batch ++ (news w n f ++ []) =
      added ∙ ap (λ t. batch ++ t) (sym (append-nil (news w n f))) in
    elim (Bool-cases ((length b == max_food_updates) || (true && not (is_empty b)))) [
      | inl s ↦
          rw (send_eaten-cons w n batch f [] true s) (
            unfold send_eaten in (append-nil b ∙ whole, ((last_some b s, omega (arith, size)), tt)))
      | inr s ↦
          rw (send_eaten-cons w n batch f [] false s)
            (unfold send_eaten in (sym (last_empty b s) ∙ whole, tt))
    ]
send_eaten-Reports w n batch f (g ∷ gs) room =
    let b = add_if_eaten w n f batch in
    let added = add_if_eaten-append w n f batch in
    let size = length-add_if_eaten w n f batch in
    let later = eaten_states w ((n + 1) % 2 ^ 16) (g ∷ gs) in
    let whole : b ++ later ≡ batch ++ (news w n f ++ later) =
      ap (λ t. t ++ later) added ∙ append_assoc batch (news w n f) later in
    elim (Bool-cases ((length b == max_food_updates) || (false && not (is_empty b)))) [
      | inl s ↦
          let rest = send_eaten-Reports w ((n + 1) % 2 ^ 16) [] g gs (omega arith) in
          rw (send_eaten-cons w n batch f (g ∷ gs) true s)
            (ap (λ t. b ++ t) rest.0 ∙ whole, ((ground arith, omega (arith, size)), rest.1))
      | inr s ↦
          let rest = send_eaten-Reports w ((n + 1) % 2 ^ 16) b g gs (ground arith) in
          rw (send_eaten-cons w n batch f (g ∷ gs) false s) (rest.0 ∙ whole, rest.1)
    ]

-- After a move, the food updates hold the states of exactly those foods that were alive for the game
-- and are dead in the world, in order and under their numbers. Each update holds a state at least and
-- 16 at most.
pub send_eaten-reported :
    (w : World) (fs : List Food)
    → (reported (send_eaten w 0 [] fs).1 ≡ eaten_states w 0 fs)
      × All IsUpdate (send_eaten w 0 [] fs).1
unfolding send_eaten eaten_states reported
send_eaten-reported w [] = (refl, tt)
send_eaten-reported w (f ∷ fs) = send_eaten-Reports w 0 [] f fs (omega arith)

not_eaten_again : (w : World) (f : Food) → just_eaten w (update_food w f).0 ≡ false
unfolding update_food
not_eaten_again w f = ground arith

eaten_states_again :
    (w : World) (n m : ℕ) (batch : List FoodState) (fs : List Food)
    → eaten_states w n (send_eaten w m batch fs).0 ≡ []
unfolding send_eaten eaten_states
eaten_states_again w n m batch [] = refl
eaten_states_again w n m batch (f ∷ fs) =
    rw (not_eaten_again w f) (eaten_states_again w ((n + 1) % 2 ^ 16) ((m + 1) % 2 ^ 16) _ fs)

-- A food is reported as eaten once: in the same world, the foods as a move leaves them have nothing to
-- report.
send_eaten_once :
    (w : World) (fs : List Food) → reported (send_eaten w 0 [] (send_eaten w 0 [] fs).0).1 ≡ []
send_eaten_once w fs =
    (send_eaten-reported w (send_eaten w 0 [] fs).0).0 ∙ eaten_states_again w 0 0 [] fs
