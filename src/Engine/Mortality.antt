-- ===== src/Engine/Mortality.antt =====
-- Death of players and foods in a world step, and what their bodies show.
use mniam_headless.Base.{
  subst, ◌⊎◌, inl, inr, ℕ, zero, suc, ◌≡◌, refl, ◌∙◌, ◌≢◌, true, false, List, [], ◌∷◌, some,
  get_elem?, set, map, arith, get_elem?-set_ne, get_elem?-set_self, ℕ_discrete,
}
use mniam_headless.Base.Int.{pos, -ℤ_self}
use mniam_headless.Engine.Objects.{FloatOps, Mortal, World, alive, kill, update, min_radius}
use mniam_headless.Engine.Contacts.{set_food, set_player}
use mniam_headless.Engine.Stepping.{
  Events, Motion, move_body, move_all, move_world, init_world, step,
}
use mniam_headless.Engine.Effects.{
  Effect, keeps, crushes, eats, beats, HasFood, HasPlayer, step-keeps,
}

abbrev pub IsDead : Mortal → Type 0
IsDead m = m.hitpoints ≡ pos 0

not_alive : (m : Mortal) → IsDead m → alive m ≢ true
unfolding alive
not_alive m d a = ground arith

kill-IsDead : (m : Mortal) → IsDead (kill m)
unfolding kill
kill-IsDead m = -ℤ_self m.hitpoints

-- A dead object at place `i` of a list.
pub record DeadAt (ms : List Mortal) (i : ℕ) : Type 0 where
  pub mortal : Mortal
  pub there : get_elem? ms i ≡ some mortal
  pub dead : IsDead mortal

-- A write at `j` over an object that was alive, or of a dead one, leaves the dead where they are.
set-DeadAt :
    (ms : List Mortal) (i j : ℕ) (m n : Mortal)
    → DeadAt ms i
    → get_elem? ms j ≡ some m
    → (i ≡ j → IsDead n)
    → DeadAt (set ms j n) i
set-DeadAt ms i j m n d e h = elim (ℕ_discrete j i) [
  | yes same ↦ record {
    mortal = n;
    there = rw (← same) (get_elem?-set_self ms j n m e);
    dead = h (ground arith);
  }
  | no apart ↦ record {
    mortal = d.mortal;
    there = get_elem?-set_ne ms j i n apart ∙ d.there;
    dead = d.dead;
  }
]

spared :
    (ms : List Mortal) (i j : ℕ) (m : Mortal)
    → DeadAt ms i
    → get_elem? ms j ≡ some m
    → alive m ≡ true
    → i ≢ j
spared ms i j m d e a same =
    let here : d.mortal ≡ m = ground (arith, d.there) in not_alive d.mortal d.dead (rw here a)

Effect-dead_player :
    {P : Type 0} {w u : World} (i : ℕ) → Effect P w u → DeadAt w.players i → DeadAt u.players i
unfolding set_food set_player
Effect-dead_player i (keeps e) d = rw e d
Effect-dead_player i (crushes p k m h e) d = rw e d
Effect-dead_player {w = w} i (eats k m j n h e) d = rw e (
    set-DeadAt w.players i j n _ d h.eater
      (λ same. absurd (spared w.players i j n d h.eater h.eater_alive same)))
Effect-dead_player {w = w} i (beats k m j n h e) d = rw e (
    set-DeadAt _ i j n (kill n)
      (set-DeadAt w.players i k m _ d h.winner
        (λ same. absurd (spared w.players i k m d h.winner h.winner_alive same)))
      (get_elem?-set_ne w.players k j _ h.apart ∙ h.loser) (λ _. kill-IsDead n))

Effect-dead_food :
    {P : Type 0} {w u : World} (i : ℕ) → Effect P w u → DeadAt w.food i → DeadAt u.food i
unfolding set_food set_player
Effect-dead_food i (keeps e) d = rw e d
Effect-dead_food {w = w} i (crushes p k m h e) d =
    rw e (set-DeadAt w.food i k m (kill m) d h (λ _. kill-IsDead m))
Effect-dead_food {w = w} i (eats k m j n h e) d =
    rw e (set-DeadAt w.food i k m (kill m) d h.eaten (λ _. kill-IsDead m))
Effect-dead_food i (beats k m j n h e) d = rw e d

get_elem?-map :
    (g : Mortal → Mortal) (ms : List Mortal) (i : ℕ) (m : Mortal)
    → get_elem? ms i ≡ some m
    → get_elem? (map g ms) i ≡ some (g m)
get_elem?-map g [] i m e = cc
get_elem?-map g (x ∷ ms) zero m e = ground arith
get_elem?-map g (x ∷ ms) (suc i) m e = get_elem?-map g ms i m e

update-DeadAt :
    (f : FloatOps) (ms : List Mortal) (i : ℕ) → DeadAt ms i → DeadAt (map (update f) ms) i
unfolding update
update-DeadAt f ms i d = record {
  mortal = update f d.mortal;
  there = get_elem?-map (update f) ms i d.mortal d.there;
  dead = d.dead;
}

move_all-DeadAt :
    (v : ℕ → Motion) (k : ℕ) (ms : List Mortal) (i : ℕ) → DeadAt ms i → DeadAt (move_all v k ms) i
unfolding move_all
move_all-DeadAt v k [] i d = d
move_all-DeadAt v k (x ∷ ms) zero d = record {
  mortal = move_body (v k) x;
  there = refl;
  dead = ground (arith, d.there, d.dead);
}
move_all-DeadAt v k (x ∷ ms) (suc i) d =
    let rest =
      move_all-DeadAt v (suc k) ms i
        (record { mortal = d.mortal; there = d.there; dead = d.dead }) in
    record { mortal = rest.mortal; there = rest.there; dead = rest.dead }

-- A body that shows what its object is: its radius is 25 and the hitpoints, and only the living take
-- part in the physics.
pub record IsShown (f : FloatOps) (m : Mortal) : Type 0 where
  pub shown_radius : m.body.radius ≡ f.add min_radius (f.of_int m.hitpoints)
  pub shown_enabled : m.body.enabled ≡ alive m

get_elem?-update :
    (f : FloatOps) (ms : List Mortal) (i : ℕ) (m : Mortal)
    → get_elem? (map (update f) ms) i ≡ some m
    → IsShown f m
unfolding update
get_elem?-update f [] i m e = cc
get_elem?-update f (x ∷ ms) zero m e =
    let here : update f x ≡ m = cc in
    subst (IsShown f) here (record { shown_radius = refl; shown_enabled = refl })
get_elem?-update f (x ∷ ms) (suc i) m e = get_elem?-update f ms i m e

dead_alive : (m : Mortal) → IsDead m → alive m ≡ false
unfolding alive
dead_alive m d = ground arith

-- After a world step each body shows what its object is: its radius is that of 25 plus the
-- hitpoints, and it is enabled exactly if the object is alive.
pub step-IsShown :
    (f : FloatOps) (e : Events) (w : World) (i : ℕ) (m : Mortal)
    → HasPlayer (step f e w) i m ⊎ HasFood (step f e w) i m
    → IsShown f m
unfolding step init_world
step-IsShown f e w i m (inl h) = get_elem?-update f _ i m h
step-IsShown f e w i m (inr h) = get_elem?-update f _ i m h

disabled : (f : FloatOps) (m : Mortal) → IsShown f m → IsDead m → m.body.enabled ≡ false
disabled f m s d = s.shown_enabled ∙ dead_alive m d

-- A player who is dead before a world step is there after it, still dead, with a body that takes no
-- part in the physics.
pub step-IsDead_player :
    (f : FloatOps) (e : Events) (w : World) (i : ℕ)
    → DeadAt w.players i
    → (m : Mortal) × HasPlayer (step f e w) i m × IsDead m × (m.body.enabled ≡ false)
unfolding init_world move_world
step-IsDead_player f e w i d =
    let after : DeadAt (step f e w).players i =
      step-keeps (λ v. DeadAt v.players i) (λ _ _ _ k. Effect-dead_player i k) f e
        (λ v. move_all-DeadAt e.player_motion 0 v.players i) (λ v. update-DeadAt f v.players i) w
        d in
    (
      after.mortal,
      after.there,
      after.dead,
      disabled f after.mortal (step-IsShown f e w i after.mortal (inl after.there)) after.dead,
    )

-- A food that is dead before a world step is there after it, still dead, with a body that takes no
-- part in the physics.
pub step-IsDead_food :
    (f : FloatOps) (e : Events) (w : World) (i : ℕ)
    → DeadAt w.food i
    → (m : Mortal) × HasFood (step f e w) i m × IsDead m × (m.body.enabled ≡ false)
unfolding init_world move_world
step-IsDead_food f e w i d =
    let after : DeadAt (step f e w).food i =
      step-keeps (λ v. DeadAt v.food i) (λ _ _ _ k. Effect-dead_food i k) f e
        (λ v. move_all-DeadAt e.food_motion 0 v.food i) (λ v. update-DeadAt f v.food i) w d in
    (
      after.mortal,
      after.there,
      after.dead,
      disabled f after.mortal (step-IsShown f e w i after.mortal (inr after.there)) after.dead,
    )
