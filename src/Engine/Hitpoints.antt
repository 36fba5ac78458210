-- ===== src/Engine/Hitpoints.antt =====
-- The sum of all hitpoints, and what one contact does to it.
use mniam_headless.Base.{
  ℕ, zero, suc, ◌≡◌, ◌∙◌, List, [], ◌∷◌, some, get_elem?, set, All, All-set, All-get_elem?,
  get_elem?-set_ne, arith,
}
use mniam_headless.Base.Int.{ℤ, pos, ◌+ℤ◌, ◌≤ℤ◌, int_laws, -ℤ_self, parts_of_eq}
use mniam_headless.Engine.Objects.{Mortal, World, kill, heal}
use mniam_headless.Engine.Contacts.{set_food, set_player}
use mniam_headless.Engine.Effects.{Effect, keeps, crushes, eats, beats, Eats, Beats, HasFood}

abbrev pub sum_hp : List Mortal → ℤ
sum_hp [] = pos 0
sum_hp (m ∷ ms) = m.hitpoints +ℤ sum_hp ms

unfoldable pub total_hp : World → ℤ
total_hp w = sum_hp w.food +ℤ sum_hp w.players

abbrev pub IsNonneg : Mortal → Type 0
IsNonneg m = pos 0 ≤ℤ m.hitpoints

-- No object has fewer than no hitpoints.
pub record IsSound (w : World) : Type 0 where
  pub food_nonneg : All IsNonneg w.food
  pub players_nonneg : All IsNonneg w.players

pub sum_hp-set :
    (ms : List Mortal) (i : ℕ) (m n : Mortal)
    → get_elem? ms i ≡ some m
    → sum_hp (set ms i n) +ℤ m.hitpoints ≡ sum_hp ms +ℤ n.hitpoints
sum_hp-set [] i m n e = cc
sum_hp-set (x ∷ ms) zero m n e = let here : x ≡ m = ground arith in rw here (omega int_laws)
sum_hp-set (x ∷ ms) (suc i) m n e = omega (int_laws, parts_of_eq (sum_hp-set ms i m n e))

crush-total :
    (w : World) (i : ℕ) (m : Mortal)
    → HasFood w i m
    → total_hp (set_food i (kill m) w) +ℤ m.hitpoints ≡ total_hp w
unfolding total_hp set_food kill
crush-total w i m h =
    omega
      (int_laws, parts_of_eq (sum_hp-set w.food i m (kill m) h), parts_of_eq (-ℤ_self m.hitpoints))

eat-total :
    (w : World) (i : ℕ) (m : Mortal) (j : ℕ) (n : Mortal)
    → Eats w i m j n
    → total_hp (set_food i (kill m) (set_player j (heal m.hitpoints n) w)) ≡ total_hp w
unfolding total_hp set_food set_player kill heal
eat-total w i m j n h = omega (
  int_laws,
  parts_of_eq (sum_hp-set w.food i m (kill m) h.eaten),
  parts_of_eq (sum_hp-set w.players j n (heal m.hitpoints n) h.eater),
  parts_of_eq (-ℤ_self m.hitpoints),
)

beat-total :
    (w : World) (i : ℕ) (m : Mortal) (j : ℕ) (n : Mortal)
    → Beats w i m j n
    → total_hp (set_player j (kill n) (set_player i (heal n.hitpoints m) w)) ≡ total_hp w
unfolding total_hp set_player kill heal
beat-total w i m j n h = omega (
  int_laws,
  parts_of_eq (sum_hp-set w.players i m (heal n.hitpoints m) h.winner),
  parts_of_eq (
      sum_hp-set (set w.players i (heal n.hitpoints m)) j n (kill n)
        (get_elem?-set_ne w.players i j (heal n.hitpoints m) h.apart ∙ h.loser)),
  parts_of_eq (-ℤ_self n.hitpoints),
)

-- Away from the edge nothing is lost.
pub Effect-total : {P : Type 0} {w u : World} → Effect P w u → ¬ P → total_hp u ≡ total_hp w
Effect-total (keeps e) no_edge = rw e
Effect-total (crushes p i m h e) no_edge = absurd (no_edge p)
Effect-total {w = w} (eats i m j n h e) no_edge = rw e (eat-total w i m j n h)
Effect-total {w = w} (beats i m j n h e) no_edge = rw e (beat-total w i m j n h)

pub Effect-total-le :
    {P : Type 0} {w u : World} → Effect P w u → IsSound w → total_hp u ≤ℤ total_hp w
Effect-total-le (keeps e) s = rw e (omega arith)
Effect-total-le {w = w} (crushes p i m h e) s = rw e (
    omega (
      int_laws,
      parts_of_eq (crush-total w i m h),
      All-get_elem? IsNonneg w.food i m h s.food_nonneg,
    ))
Effect-total-le {w = w} (eats i m j n h e) s =
    rw e (omega (arith, parts_of_eq (eat-total w i m j n h)))
Effect-total-le {w = w} (beats i m j n h e) s =
    rw e (omega (arith, parts_of_eq (beat-total w i m j n h)))

pub kill-IsNonneg : (m : Mortal) → IsNonneg (kill m)
unfolding kill
kill-IsNonneg m = omega (int_laws, parts_of_eq (-ℤ_self m.hitpoints))

heal-IsNonneg : (m n : Mortal) → IsNonneg m → IsNonneg n → IsNonneg (heal m.hitpoints n)
unfolding heal
heal-IsNonneg m n hm hn = omega int_laws

pub Effect-IsSound : {P : Type 0} {w u : World} → Effect P w u → IsSound w → IsSound u
unfolding set_food set_player
Effect-IsSound (keeps e) s = rw e s
Effect-IsSound {w = w} (crushes p i m h e) s = rw e (record {
  food_nonneg = All-set IsNonneg w.food i (kill m) (kill-IsNonneg m) s.food_nonneg;
  players_nonneg = s.players_nonneg;
})
Effect-IsSound {w = w} (eats i m j n h e) s = rw e (record {
  food_nonneg = All-set IsNonneg w.food i (kill m) (kill-IsNonneg m) s.food_nonneg;
  players_nonneg =
      All-set IsNonneg w.players j _
        (heal-IsNonneg m n (All-get_elem? IsNonneg w.food i m h.eaten s.food_nonneg)
          (All-get_elem? IsNonneg w.players j n h.eater s.players_nonneg))
        s.players_nonneg;
})
Effect-IsSound {w = w} (beats i m j n h e) s = rw e (record {
  food_nonneg = s.food_nonneg;
  players_nonneg = All-set IsNonneg _ j (kill n) (kill-IsNonneg n) (
      All-set IsNonneg w.players i _
        (heal-IsNonneg n m (All-get_elem? IsNonneg w.players j n h.loser s.players_nonneg)
          (All-get_elem? IsNonneg w.players i m h.winner s.players_nonneg))
        s.players_nonneg);
})
