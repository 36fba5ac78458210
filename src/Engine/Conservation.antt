-- ===== src/Engine/Conservation.antt =====
-- Hitpoints of the whole world in a step: who gains what another loses.
use mniam_headless.Base.{ℕ, suc, ◌≡◌, refl, ap, ◌∙◌, List, [], ◌∷◌, map, All, arith}
use mniam_headless.Base.Int.{ℤ, ◌+ℤ◌, ◌≤ℤ◌}
use mniam_headless.Engine.Objects.{FloatOps, Mortal, World, update}
use mniam_headless.Engine.Contacts.{begin_contact}
use mniam_headless.Engine.Stepping.{
  Contact, Events, Motion, move_all, begin_all, move_world, physics_step, ongoing_contact,
  process_ongoing_contacts, init_world, step,
}
use mniam_headless.Engine.Effects.{
  Effect, begin_contact-Effect, ongoing_contact-Effect, AtEdge, step-keeps,
}
use mniam_headless.Engine.Hitpoints.{
  Effect-IsSound, Effect-total, Effect-total-le, IsNonneg, IsSound, sum_hp, total_hp,
}

-- The physics and the update after a step move no hitpoints.
sum_hp-move_all : (v : ℕ → Motion) (i : ℕ) (ms : List Mortal) → sum_hp (move_all v i ms) ≡ sum_hp ms
unfolding move_all
sum_hp-move_all v i [] = refl
sum_hp-move_all v i (m ∷ ms) = ap (◌+ℤ◌ m.hitpoints) (sum_hp-move_all v (suc i) ms)

move_all-IsNonneg :
    (v : ℕ → Motion) (i : ℕ) (ms : List Mortal) → All IsNonneg ms → All IsNonneg (move_all v i ms)
unfolding move_all
move_all-IsNonneg v i [] h = tt
move_all-IsNonneg v i (m ∷ ms) h = (h.0, move_all-IsNonneg v (suc i) ms h.1)

sum_hp-update : (f : FloatOps) (ms : List Mortal) → sum_hp (map (update f) ms) ≡ sum_hp ms
unfolding update
sum_hp-update f [] = refl
sum_hp-update f (m ∷ ms) = ap (◌+ℤ◌ m.hitpoints) (sum_hp-update f ms)

update-IsNonneg :
    (f : FloatOps) (ms : List Mortal) → All IsNonneg ms → All IsNonneg (map (update f) ms)
unfolding update
update-IsNonneg f [] h = tt
update-IsNonneg f (m ∷ ms) h = (h.0, update-IsNonneg f ms h.1)

-- A contact with the edge of the map, in which a food may be lost.
abbrev pub IsInside : Contact → Type 0
IsInside c = ¬ AtEdge c.fixture_a c.fixture_b

begin_all-total :
    (cs : List Contact) (w : World) → All IsInside cs → total_hp (begin_all cs w) ≡ total_hp w
unfolding begin_all
begin_all-total [] w h = refl
begin_all-total (c ∷ cs) w h =
    begin_all-total cs (begin_contact c.fixture_a c.fixture_b w) h.1
    ∙ Effect-total (begin_contact-Effect c.fixture_a c.fixture_b w) h.0

ongoing-total :
    (cs : List Contact) (w : World) → total_hp (process_ongoing_contacts cs w) ≡ total_hp w
unfolding process_ongoing_contacts
ongoing-total [] w = refl
ongoing-total (c ∷ cs) w =
    ongoing-total cs (ongoing_contact c w) ∙ Effect-total (ongoing_contact-Effect c w) (λ b. b)

init_world-total : (f : FloatOps) (w : World) → total_hp (init_world f w) ≡ total_hp w
unfolding init_world total_hp
init_world-total f w = rw (sum_hp-update f w.food, sum_hp-update f w.players)

pub init_world-IsSound : (f : FloatOps) (w : World) → IsSound w → IsSound (init_world f w)
unfolding init_world
init_world-IsSound f w s = record {
  food_nonneg = update-IsNonneg f w.food s.food_nonneg;
  players_nonneg = update-IsNonneg f w.players s.players_nonneg;
}

move_world-total : (e : Events) (w : World) → total_hp (move_world e w) ≡ total_hp w
unfolding move_world total_hp
move_world-total e w =
    rw (sum_hp-move_all e.food_motion 0 w.food, sum_hp-move_all e.player_motion 0 w.players)

pub move_world-IsSound : (e : Events) (w : World) → IsSound w → IsSound (move_world e w)
unfolding move_world
move_world-IsSound e w s = record {
  food_nonneg = move_all-IsNonneg e.food_motion 0 w.food s.food_nonneg;
  players_nonneg = move_all-IsNonneg e.player_motion 0 w.players s.players_nonneg;
}

-- A world step in which no contact with the edge of the map begins leaves the sum of all hitpoints
-- as it was.
pub step-total_hp :
    (f : FloatOps) (e : Events) (w : World)
    → All IsInside e.begins
    → total_hp (step f e w) ≡ total_hp w
unfolding step physics_step
step-total_hp f e w inside =
    init_world-total f _
    ∙ ongoing-total e.contacts _
    ∙ begin_all-total e.begins (move_world e w) inside
    ∙ move_world-total e w

-- No hitpoints are negative, and their sum is at most `t`.
pub record IsSoundUnder (t : ℤ) (w : World) : Type 0 where
  pub sound : IsSound w
  pub under : total_hp w ≤ℤ t

pub Effect-IsSoundUnder :
    (t : ℤ) (P : Type 0) (w u : World) → Effect P w u → IsSoundUnder t w → IsSoundUnder t u
Effect-IsSoundUnder t P w u e s = record {
  sound = Effect-IsSound e s.sound;
  under = omega (arith, s.under, Effect-total-le e s.sound);
}

pub move_world-IsSoundUnder :
    (t : ℤ) (e : Events) (w : World) → IsSoundUnder t w → IsSoundUnder t (move_world e w)
move_world-IsSoundUnder t e w s = record {
  sound = move_world-IsSound e w s.sound;
  under = rw (move_world-total e w) s.under;
}

pub init_world-IsSoundUnder :
    (t : ℤ) (f : FloatOps) (w : World) → IsSoundUnder t w → IsSoundUnder t (init_world f w)
init_world-IsSoundUnder t f w s = record {
  sound = init_world-IsSound f w s.sound;
  under = rw (init_world-total f w) s.under;
}

-- From a world where no hitpoints are negative a step leads to such a world, and the sum of all
-- hitpoints does not grow, whatever contacts there are.
pub step-IsSound :
    (f : FloatOps) (e : Events) (w : World)
    → IsSound w
    → IsSound (step f e w) × (total_hp (step f e w) ≤ℤ total_hp w)
step-IsSound f e w s =
    let t = total_hp w in
    let after =
      step-keeps (IsSoundUnder t) (Effect-IsSoundUnder t) f e (move_world-IsSoundUnder t e)
        (init_world-IsSoundUnder t f) w (record { sound = s; under = omega arith }) in
    (after.sound, after.under)
