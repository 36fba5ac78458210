-- ===== src/Engine/Refinement.antt =====
-- What the world does, in an abstract game that knows hitpoints only.
use mniam_headless.Base.{
  ℕ, zero, suc, ◌+◌, ◌≤◌, ◌≡◌, refl, ap, sym, subst, ◌∙◌, true, List, [], ◌∷◌, some, get_elem?, set,
  map, length, arith,
}
use mniam_headless.Base.Int.{ℤ, pos, ◌+ℤ◌, ltb_ℤ, -ℤ_self}
use mniam_headless.Engine.Objects.{
  FloatOps, Mortal, World, Ref, boundaries, food_at, player_at, alive, update, kill, heal,
}
use mniam_headless.Engine.Contacts.{set_food, set_player, begin_contact}
use mniam_headless.Engine.Stepping.{
  Contact, Events, Motion, move_all, move_world, begin_all, physics_step, ongoing_contact,
  process_ongoing_contacts, init_world, step,
}
use mniam_headless.Engine.Effects.{
  Effect, keeps, crushes, eats, beats, begin_contact-Effect, ongoing_contact-Effect,
}
use mniam_headless.Engine.Rules.{
  IsPositive, Move, Moves, Scores, beat, beaten, done, eat, eaten, lose, next, points, scores,
}

points-set :
    (ms : List Mortal) (i : ℕ) (m : Mortal) → points (set ms i m) ≡ set (points ms) i m.hitpoints
points-set [] i m = refl
points-set (x ∷ ms) zero m = refl
points-set (x ∷ ms) (suc i) m = rw (points-set ms i m)

get_elem?-points :
    (ms : List Mortal) (i : ℕ) (m : Mortal)
    → get_elem? ms i ≡ some m
    → get_elem? (points ms) i ≡ some m.hitpoints
get_elem?-points [] i m e = cc
get_elem?-points (x ∷ ms) zero m e = cc e
get_elem?-points (x ∷ ms) (suc i) m e = get_elem?-points ms i m e

lose-scores :
    (i : ℕ) (m : Mortal) (w : World)
    → scores (set_food i (kill m) w) ≡ record (scores w) { foods = set (points w.food) i (pos 0) }
unfolding set_food kill
lose-scores i m w = rw (points-set w.food i (kill m), -ℤ_self m.hitpoints)

eat-scores :
    (i j : ℕ) (m n : Mortal) (w : World)
    → scores (set_food i (kill m) (set_player j (heal m.hitpoints n) w)) ≡ record {
      foods = set (points w.food) i (pos 0);
      players = set (points w.players) j (n.hitpoints +ℤ m.hitpoints);
    }
unfolding set_food set_player kill heal
eat-scores i j m n w =
    rw (
      points-set w.food i (kill m),
      -ℤ_self m.hitpoints,
      points-set w.players j (heal m.hitpoints n),
    )

beat-scores :
    (i j : ℕ) (m n : Mortal) (w : World)
    → scores (set_player j (kill n) (set_player i (heal n.hitpoints m) w)) ≡ record (scores w) {
      players = set (set (points w.players) i (m.hitpoints +ℤ n.hitpoints)) j (pos 0);
    }
unfolding set_player kill heal
beat-scores i j m n w = rw (
  points-set (set w.players i (heal n.hitpoints m)) j (kill n),
  -ℤ_self n.hitpoints,
  points-set w.players i (heal n.hitpoints m),
)

Effect-Moves : {P : Type 0} {w u : World} → Effect P w u → Moves 1 (scores w) (scores u)
unfolding alive
Effect-Moves (keeps e) = done (ap scores e)
Effect-Moves {w = w} (crushes p i m h e) =
    next (lose i m.hitpoints (get_elem?-points w.food i m h) (ap scores e ∙ lose-scores i m w))
      (done refl)
Effect-Moves {w = w} (eats i m j n h e) =
    next
      (eat i j m.hitpoints n.hitpoints (get_elem?-points w.food i m h.eaten)
        (get_elem?-points w.players j n h.eater) h.eaten_alive h.eater_alive
        (ap scores e ∙ eat-scores i j m n w))
      (done refl)
Effect-Moves {w = w} (beats i m j n h e) =
    next
      (beat i j m.hitpoints n.hitpoints (get_elem?-points w.players i m h.winner)
        (get_elem?-points w.players j n h.loser) h.apart h.loser_alive h.stronger
        (ap scores e ∙ beat-scores i j m n w))
      (done refl)

Moves-mono : {n : ℕ} {s t : Scores} (k : ℕ) → n ≤ k → Moves n s t → Moves k s t
Moves-mono k h (done e) = done e
Moves-mono zero h (next v r) = absurd (omega arith)
Moves-mono (suc k) h (next v r) = next v (Moves-mono k (omega arith) r)

Moves-trans : {m n : ℕ} {s t u : Scores} → Moves m s t → Moves n t u → Moves (m + n) s u
Moves-trans {m} {n} {s} {t} {u} (done e) r =
    subst (λ v. Moves (m + n) v u) e (Moves-mono (m + n) (omega arith) r)
Moves-trans {m = suc m} {n} (next v r) q =
    Moves-mono (suc m + n) (omega arith) (next v (Moves-trans r q))

begin_all-Moves :
    (cs : List Contact) (w : World) → Moves (length cs) (scores w) (scores (begin_all cs w))
unfolding begin_all
begin_all-Moves [] w = done refl
begin_all-Moves (c ∷ cs) w = Moves-mono (suc (length cs)) (omega arith) (
    Moves-trans (Effect-Moves (begin_contact-Effect c.fixture_a c.fixture_b w))
      (begin_all-Moves cs (begin_contact c.fixture_a c.fixture_b w)))

ongoing-Moves :
    (cs : List Contact) (w : World)
    → Moves (length cs) (scores w) (scores (process_ongoing_contacts cs w))
unfolding process_ongoing_contacts
ongoing-Moves [] w = done refl
ongoing-Moves (c ∷ cs) w = Moves-mono (suc (length cs)) (omega arith) (
    Moves-trans (Effect-Moves (ongoing_contact-Effect c w))
      (ongoing-Moves cs (ongoing_contact c w)))

points-move_all : (v : ℕ → Motion) (i : ℕ) (ms : List Mortal) → points (move_all v i ms) ≡ points ms
unfolding move_all
points-move_all v i [] = refl
points-move_all v i (m ∷ ms) = rw (points-move_all v (suc i) ms)

points-update : (f : FloatOps) (ms : List Mortal) → points (map (update f) ms) ≡ points ms
unfolding update
points-update f [] = refl
points-update f (m ∷ ms) = rw (points-update f ms)

scores-move_world : (e : Events) (w : World) → scores (move_world e w) ≡ scores w
unfolding move_world
scores-move_world e w =
    rw (points-move_all e.food_motion 0 w.food, points-move_all e.player_motion 0 w.players)

scores-init_world : (f : FloatOps) (w : World) → scores (init_world f w) ≡ scores w
unfolding init_world
scores-init_world f w = rw (points-update f w.food, points-update f w.players)

-- A step of the world is a sequence of moves of the abstract game, at most one for each contact that
-- begins and one for each contact in the list afterwards.
pub step-Moves :
    (f : FloatOps) (e : Events) (w : World)
    → Moves (length e.begins + length e.contacts) (scores w) (scores (step f e w))
unfolding step physics_step
step-Moves f e w =
    let moved = move_world e w in
    let begun = begin_all e.begins moved in
    let after = process_ongoing_contacts e.contacts begun in
    let all : Moves (length e.begins + length e.contacts) (scores moved) (scores after) =
      Moves-trans (begin_all-Moves e.begins moved) (ongoing-Moves e.contacts begun) in
    rw (scores-init_world f after, ← scores-move_world e w) all

get_elem?-of_points :
    (ms : List Mortal) (i : ℕ) (h : ℤ)
    → get_elem? (points ms) i ≡ some h
    → (m : Mortal) × (get_elem? ms i ≡ some m) × (m.hitpoints ≡ h)
get_elem?-of_points [] i h e = cc
get_elem?-of_points (x ∷ ms) zero h e = (x, refl, cc e)
get_elem?-of_points (x ∷ ms) (suc i) h e = get_elem?-of_points ms i h e

food_player_contact :
    (w : World) (i j : ℕ) (m n : Mortal)
    → get_elem? w.food i ≡ some m
    → get_elem? w.players j ≡ some n
    → IsPositive m.hitpoints
    → IsPositive n.hitpoints
    → begin_contact (food_at i) (player_at j) w
      ≡ set_food i (kill m) (set_player j (heal m.hitpoints n) w)
unfolding begin_contact kill heal set_food set_player
food_player_contact w i j m n a b p q = rw (a, b, p, q)

fight_contact :
    (w : World) (i j : ℕ) (m n : Mortal)
    → get_elem? w.players i ≡ some m
    → get_elem? w.players j ≡ some n
    → IsPositive n.hitpoints
    → ltb_ℤ n.hitpoints m.hitpoints ≡ true
    → begin_contact (player_at i) (player_at j) w
      ≡ set_player j (kill n) (set_player i (heal n.hitpoints m) w)
unfolding begin_contact kill heal set_player
fight_contact w i j m n a b q lt =
    let p : IsPositive m.hitpoints = ground arith in rw (a, b, p, q, lt)

-- Every move of the abstract game is what some contact does: its rules allow nothing that the program
-- cannot do.
pub Move-begin_contact :
    (w : World) (t : Scores)
    → Move (scores w) t
    → (a : Ref) × (b : Ref) × (scores (begin_contact a b w) ≡ t)
unfolding begin_contact alive
Move-begin_contact w t (lose i h e q) =
    let (m, found, same) = get_elem?-of_points w.food i h e in
    (boundaries, food_at i, rw found (lose-scores i m w ∙ sym q))
Move-begin_contact w t (eat i j h k e e' p p' q) =
    let (m, found, same) = get_elem?-of_points w.food i h e in
    let (n, found', same') = get_elem?-of_points w.players j k e' in
    (
      food_at i,
      player_at j,
      ap scores (
            food_player_contact w i j m n found found' (subst IsPositive (sym same) p)
              (subst IsPositive (sym same') p'))
          ∙ eat-scores i j m n w
          ∙ ap (λ x. eaten i j x (n.hitpoints) (scores w)) same
          ∙ ap (λ y. eaten i j h y (scores w)) same'
          ∙ sym q,
    )
Move-begin_contact w t (beat i j h k e e' apart p lt q) =
    let (m, found, same) = get_elem?-of_points w.players i h e in
    let (n, found', same') = get_elem?-of_points w.players j k e' in
    (
      player_at i,
      player_at j,
      ap scores (
            fight_contact w i j m n found found' (subst IsPositive (sym same') p)
              (ap (λ y. ltb_ℤ y m.hitpoints) same' ∙ ap (λ x. ltb_ℤ k x) same ∙ lt))
          ∙ beat-scores i j m n w
          ∙ ap (λ x. beaten i j x n.hitpoints (scores w)) same
          ∙ ap (λ y. beaten i j h y (scores w)) same'
          ∙ sym q,
    )
