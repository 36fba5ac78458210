-- ===== src/Engine/Rules.antt =====
-- The rules of the game: an abstract game that knows hitpoints only.
use mniam_headless.Base.{ℕ, suc, ◌≡◌, ◌≢◌, true, List, some, get_elem?, set, map}
use mniam_headless.Base.Int.{ℤ, pos, ◌+ℤ◌, ltb_ℤ}
use mniam_headless.Engine.Objects.{Mortal, World}

-- The hitpoints of all foods and players.
pub record Scores : Type 0 where
  pub foods : List ℤ
  pub players : List ℤ

abbrev pub points : List Mortal → List ℤ
points ms = map (λ m. m.hitpoints) ms

abbrev pub scores : World → Scores
scores w = record { foods = points w.food; players = points w.players }

abbrev pub IsPositive : ℤ → Type 0
IsPositive h = ltb_ℤ (pos 0) h ≡ true

-- What is left when food `i` with `h` was eaten by player `j` with `k`, and when player `i` with `h` has
-- beaten player `j` with `k`.
abbrev pub eaten : ℕ → ℕ → ℤ → ℤ → Scores → Scores
eaten i j h k s = record { foods = set s.foods i (pos 0); players = set s.players j (k +ℤ h) }

abbrev pub beaten : ℕ → ℕ → ℤ → ℤ → Scores → Scores
beaten i j h k s = record s { players = set (set s.players i (h +ℤ k)) j (pos 0) }

-- A food is lost at the edge of the map, a living player eats a living food, or a living player takes
-- all hitpoints of another that is alive and has fewer.
pub data Move (s t : Scores) : Type 0 where
  lose :
      (i : ℕ) (h : ℤ)
      → get_elem? s.foods i ≡ some h
      → t ≡ record s { foods = set s.foods i (pos 0) }
      → Move s t
  eat :
      (i j : ℕ) (h k : ℤ)
      → get_elem? s.foods i ≡ some h
      → get_elem? s.players j ≡ some k
      → IsPositive h
      → IsPositive k
      → t ≡ eaten i j h k s
      → Move s t
  beat :
      (i j : ℕ) (h k : ℤ)
      → get_elem? s.players i ≡ some h
      → get_elem? s.players j ≡ some k
      → i ≢ j
      → IsPositive k
      → ltb_ℤ k h ≡ true
      → t ≡ beaten i j h k s
      → Move s t

-- At most `n` moves.
pub data Moves : ℕ → Scores → Scores → Type 0 where
  done : {n : ℕ} {s t : Scores} → t ≡ s → Moves n s t
  next : {n : ℕ} {s t u : Scores} → Move s t → Moves n t u → Moves (suc n) s u
