-- ===== src/Engine/Bounds.antt =====
-- The bounds of the hitpoints in the worlds that the program can bring about.
use mniam_headless.Base.{
  ℕ, zero, suc, ◌+◌, ◌*◌, ◌^◌, ◌<◌, ◌≡◌, ◌∙◌, List, [], ◌∷◌, some, get_elem?, set, length, arith,
  All, All-set, All-get_elem?, ◌⊎◌, inl, inr, ◌≢◌, ◌-◌, get_elem?-set_ne,
}
use mniam_headless.Base.Int.{pos, ◌+ℤ◌, ◌≤ℤ◌, int_laws, parts_of_eq, -ℤ_self}
use mniam_headless.Engine.Objects.{Float, FloatOps, Mortal, World, kill, heal}
use mniam_headless.Engine.Effects.{HasPlayer, HasFood}
use mniam_headless.Engine.Hitpoints.{sum_hp, sum_hp-set, total_hp, IsNonneg, IsSound, kill-IsNonneg}
use mniam_headless.Engine.Reachable.{Reach}
use mniam_headless.Engine.Budget.{Reach-Bounded}

sum_hp-nonneg : (ms : List Mortal) → All IsNonneg ms → pos 0 ≤ℤ sum_hp ms
sum_hp-nonneg [] h = omega arith
sum_hp-nonneg (m ∷ ms) h = omega (int_laws, h.0, sum_hp-nonneg ms h.1)

hitpoints-le-sum_hp :
    (ms : List Mortal) (i : ℕ) (m : Mortal)
    → get_elem? ms i ≡ some m
    → All IsNonneg ms
    → m.hitpoints ≤ℤ sum_hp ms
hitpoints-le-sum_hp [] i m e h = cc
hitpoints-le-sum_hp (x ∷ ms) zero m e h =
    let here : x ≡ m = ground arith in rw (← here) (omega (int_laws, sum_hp-nonneg ms h.1))
hitpoints-le-sum_hp (x ∷ ms) (suc i) m e h = omega (int_laws, h.0, hitpoints-le-sum_hp ms i m e h.1)

-- In every world that the program can bring about, no hitpoints are negative, and all hitpoints
-- together are at most two for each player and one for each food that was ever added.
pub Reach-total_hp :
    {f : FloatOps} {size : Float} {w : World}
    → Reach f size w
    → IsSound w × (total_hp w ≤ℤ pos (2 * length w.players + length w.food))
Reach-total_hp r = ((Reach-Bounded r).sound, (Reach-Bounded r).under)

-- A player's hitpoints are part of the total.
pub player-le-total_hp :
    (w : World) (i : ℕ) (m : Mortal)
    → IsSound w
    → HasPlayer w i m
    → (pos 0 ≤ℤ m.hitpoints) × (m.hitpoints ≤ℤ total_hp w)
unfolding total_hp
player-le-total_hp w i m s h = (
  All-get_elem? IsNonneg w.players i m h s.players_nonneg,
  omega (
    int_laws,
    hitpoints-le-sum_hp w.players i m h s.players_nonneg,
    sum_hp-nonneg w.food s.food_nonneg,
  ),
)

two-le-sum_hp :
    (ms : List Mortal) (i j : ℕ) (m n : Mortal)
    → get_elem? ms i ≡ some m
    → get_elem? ms j ≡ some n
    → i ≢ j
    → All IsNonneg ms
    → m.hitpoints +ℤ n.hitpoints ≤ℤ sum_hp ms
unfolding kill
two-le-sum_hp ms i j m n hm hn apart h = omega (
  int_laws,
  parts_of_eq (sum_hp-set ms i m (kill m) hm),
  parts_of_eq (-ℤ_self m.hitpoints),
  hitpoints-le-sum_hp (set ms i (kill m)) j n (get_elem?-set_ne ms i j (kill m) apart ∙ hn)
      (All-set IsNonneg ms i (kill m) (kill-IsNonneg m) h),
)

-- The two sides of an exchange hold at most the total together.
exchange-le-total_hp :
    (w : World) (i j : ℕ) (m n : Mortal)
    → IsSound w
    → HasPlayer w i m
    → HasFood w j n ⊎ (HasPlayer w j n × (i ≢ j))
    → m.hitpoints +ℤ n.hitpoints ≤ℤ total_hp w
unfolding total_hp
exchange-le-total_hp w i j m n s h (inl k) = omega (
  int_laws,
  hitpoints-le-sum_hp w.players i m h s.players_nonneg,
  hitpoints-le-sum_hp w.food j n k s.food_nonneg,
)
exchange-le-total_hp w i j m n s h (inr (k, apart)) = omega (
  int_laws,
  two-le-sum_hp w.players i j m n h k apart s.players_nonneg,
  sum_hp-nonneg w.food s.food_nonneg,
)

giver-IsNonneg :
    (w : World) (i j : ℕ) (n : Mortal)
    → IsSound w
    → HasFood w j n ⊎ (HasPlayer w j n × (i ≢ j))
    → IsNonneg n
giver-IsNonneg w i j n s (inl k) = All-get_elem? IsNonneg w.food j n k s.food_nonneg
giver-IsNonneg w i j n s (inr k) = All-get_elem? IsNonneg w.players j n k.0 s.players_nonneg

-- In every world that the program can bring about, the sum that `heal` computes when a player takes
-- the hitpoints of a food or of another player is not negative and lies within an `int`, if twice
-- the number of players and the number of foods together do.
pub heal_fits :
    {f : FloatOps} {size : Float} {w : World} (i j : ℕ) (m n : Mortal)
    → Reach f size w
    → 2 * length w.players + length w.food < 2 ^ 31
    → HasPlayer w i m
    → HasFood w j n ⊎ (HasPlayer w j n × (i ≢ j))
    → (pos 0 ≤ℤ (heal n.hitpoints m).hitpoints)
      × ((heal n.hitpoints m).hitpoints ≤ℤ pos (2 ^ 31 - 1))
unfolding heal
heal_fits {w = w} i j m n r small h k =
    let s = (Reach-total_hp r).0 in
    let mine : IsNonneg m = All-get_elem? IsNonneg w.players i m h s.players_nonneg in
    let yours : IsNonneg n = giver-IsNonneg w i j n s k in
    let both : m.hitpoints +ℤ n.hitpoints ≤ℤ total_hp w = exchange-le-total_hp w i j m n s h k in
    let all : total_hp w ≤ℤ pos (2 * length w.players + length w.food) = (Reach-total_hp r).1 in
    (omega int_laws, omega (int_laws, small))
