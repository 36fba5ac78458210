-- ===== src/Engine/Effects.antt =====
-- What one contact may do to the world: a specification of the contact listener that knows nothing
-- of types, overloads or the order of the two objects.
use mniam_headless.Base.{
  ℕ, ◌≡◌, refl, List, [], ◌∷◌, ◌≢◌, ◌⊎◌, inl, inr, true, Option, none, some, get_elem?, arith,
  Bool-cases,
}
use mniam_headless.Base.Int.{ltb_ℤ}
use mniam_headless.Engine.Objects.{
  FloatOps, Mortal, World, Ref, null, boundaries, food_at, player_at, alive, hp, kill, heal,
}
use mniam_headless.Engine.Contacts.{
  set_food, set_player, map_food, food_player, fight, player_player, Object, the_map, a_food,
  a_player, resolve, dispatch, begin_contact, food_object, player_object,
}
use mniam_headless.Engine.Stepping.{
  Contact, Events, begin_all, move_world, physics_step, ongoing_objects, ongoing_contact,
  process_ongoing_contacts, init_world, step,
}

abbrev pub HasFood : World → ℕ → Mortal → Type 0
HasFood w i m = get_elem? w.food i ≡ some m

abbrev pub HasPlayer : World → ℕ → Mortal → Type 0
HasPlayer w i m = get_elem? w.players i ≡ some m

-- The winner `i` takes the hitpoints of the loser `j`, who dies.
pub record Beats (w : World) (i : ℕ) (m : Mortal) (j : ℕ) (n : Mortal) : Type 0 where
  pub winner : HasPlayer w i m
  pub loser : HasPlayer w j n
  pub apart : i ≢ j
  pub winner_alive : alive m ≡ true
  pub loser_alive : alive n ≡ true
  pub stronger : ltb_ℤ n.hitpoints m.hitpoints ≡ true

pub record Eats (w : World) (i : ℕ) (m : Mortal) (j : ℕ) (n : Mortal) : Type 0 where
  pub eaten : HasFood w i m
  pub eater : HasPlayer w j n
  pub eaten_alive : alive m ≡ true
  pub eater_alive : alive n ≡ true

-- `P` is what has to hold for a food to be killed at the edge of the map.
pub data Effect (P : Type 0) (w u : World) : Type 0 where
  keeps : u ≡ w → Effect P w u
  crushes : P → (i : ℕ) (m : Mortal) → HasFood w i m → u ≡ set_food i (kill m) w → Effect P w u
  eats :
      (i : ℕ) (m : Mortal) (j : ℕ) (n : Mortal)
      → Eats w i m j n
      → u ≡ set_food i (kill m) (set_player j (heal m.hitpoints n) w)
      → Effect P w u
  beats :
      (i : ℕ) (m : Mortal) (j : ℕ) (n : Mortal)
      → Beats w i m j n
      → u ≡ set_player j (kill n) (set_player i (heal n.hitpoints m) w)
      → Effect P w u

-- A reference is resolved to an object of the world.
abbrev pub Stands : World → Object → Type 0
Stands w (a_food i m) = HasFood w i m
Stands w (a_player i m) = HasPlayer w i m
Stands w _ = Unit {0}

found_food :
    (w : World) (i : ℕ) (o : Option Mortal) → get_elem? w.food i ≡ o → Stands w (food_object i o)
found_food w i none e = tt
found_food w i (some m) e = e

found_player :
    (w : World) (i : ℕ) (o : Option Mortal)
    → get_elem? w.players i ≡ o
    → Stands w (player_object i o)
found_player w i none e = tt
found_player w i (some m) e = e

pub resolve-Stands : (w : World) (r : Ref) → Stands w (resolve w r)
unfolding resolve
resolve-Stands w null = tt
resolve-Stands w boundaries = tt
resolve-Stands w (food_at i) = found_food w i (get_elem? w.food i) refl
resolve-Stands w (player_at i) = found_player w i (get_elem? w.players i) refl

food_player-Effect :
    (P : Type 0) (w : World) (i : ℕ) (m : Mortal) (j : ℕ) (n : Mortal)
    → HasFood w i m
    → HasPlayer w j n
    → Effect P w (food_player i m j n w)
unfolding food_player hp
food_player-Effect P w i m j n hm hn = elim (Bool-cases (alive m)) [
  | inl a ↦ elim (Bool-cases (alive n)) [
    | inl b ↦
        rw (a, b)
          (eats i m j n (record { eaten = hm; eater = hn; eaten_alive = a; eater_alive = b }) refl)
    | inr b ↦ rw (a, b) (keeps refl)
  ]
  | inr a ↦ rw a (keeps refl)
]

apart_of_lt :
    (w : World) (i : ℕ) (m : Mortal) (j : ℕ) (n : Mortal)
    → HasPlayer w i m
    → HasPlayer w j n
    → ltb_ℤ n.hitpoints m.hitpoints ≡ true
    → i ≢ j
apart_of_lt w i m j n hm hn h e = ground arith

fight-Effect :
    (P : Type 0) (w : World) (i : ℕ) (m : Mortal) (j : ℕ) (n : Mortal)
    → HasPlayer w i m
    → HasPlayer w j n
    → alive m ≡ true
    → alive n ≡ true
    → Effect P w (fight i m j n w)
unfolding fight hp
fight-Effect P w i m j n hm hn a b = elim (Bool-cases (ltb_ℤ n.hitpoints m.hitpoints)) [
  | inl s ↦ rw s (
      beats i m j n
        (record {
          winner = hm;
          loser = hn;
          apart = apart_of_lt w i m j n hm hn s;
          winner_alive = a;
          loser_alive = b;
          stronger = s;
        })
        refl)
  | inr s ↦ elim (Bool-cases (ltb_ℤ m.hitpoints n.hitpoints)) [
    | inl t ↦
        rw (s, t)
          (beats j n i m
            (record {
              winner = hn;
              loser = hm;
              apart = apart_of_lt w j n i m hn hm t;
              winner_alive = b;
              loser_alive = a;
              stronger = t;
            })
            refl)
    | inr t ↦ rw (s, t) (keeps refl)
  ]
]

player_player-Effect :
    (P : Type 0) (w : World) (i : ℕ) (m : Mortal) (j : ℕ) (n : Mortal)
    → HasPlayer w i m
    → HasPlayer w j n
    → Effect P w (player_player i m j n w)
unfolding player_player
player_player-Effect P w i m j n hm hn = elim (Bool-cases (alive m)) [
  | inl a ↦ elim (Bool-cases (alive n)) [
    | inl b ↦ rw (a, b) (fight-Effect P w i m j n hm hn a b)
    | inr b ↦ rw (a, b) (keeps refl)
  ]
  | inr a ↦ rw a (keeps refl)
]

dispatch-Effect :
    (P : Type 0) (w : World) (a b : Object)
    → Stands w a
    → Stands w b
    → ((a ≡ the_map) ⊎ (b ≡ the_map) → P)
    → Effect P w (dispatch a b w)
unfolding dispatch map_food
dispatch-Effect P w the_map the_map s t e = keeps refl
dispatch-Effect P w the_map (a_food j n) s t e = crushes (e (inl refl)) j n t refl
dispatch-Effect P w the_map (a_player j n) s t e = keeps refl
dispatch-Effect P w (a_food i m) the_map s t e = crushes (e (inr refl)) i m s refl
dispatch-Effect P w (a_food i m) (a_food j n) s t e = keeps refl
dispatch-Effect P w (a_food i m) (a_player j n) s t e = food_player-Effect P w i m j n s t
dispatch-Effect P w (a_player i m) the_map s t e = keeps refl
dispatch-Effect P w (a_player i m) (a_food j n) s t e = food_player-Effect P w j n i m t s
dispatch-Effect P w (a_player i m) (a_player j n) s t e = player_player-Effect P w i m j n s t
dispatch-Effect P w _ _ s t e = keeps refl

food_object-ne : (i : ℕ) (o : Option Mortal) → food_object i o ≢ the_map
food_object-ne i none = λ e. cc
food_object-ne i (some m) = λ e. cc

player_object-ne : (i : ℕ) (o : Option Mortal) → player_object i o ≢ the_map
player_object-ne i none = λ e. cc
player_object-ne i (some m) = λ e. cc

resolve-the_map : (w : World) (r : Ref) → resolve w r ≡ the_map → r ≡ boundaries
unfolding resolve
resolve-the_map w null e = cc
resolve-the_map w boundaries e = refl
resolve-the_map w (food_at i) e = absurd (food_object-ne i (get_elem? w.food i) e)
resolve-the_map w (player_at i) e = absurd (player_object-ne i (get_elem? w.players i) e)

abbrev pub AtEdge : Ref → Ref → Type 0
AtEdge a b = (a ≡ boundaries) ⊎ (b ≡ boundaries)

at_edge : (w : World) (a b : Ref) → (resolve w a ≡ the_map) ⊎ (resolve w b ≡ the_map) → AtEdge a b
at_edge w a b (inl e) = inl (resolve-the_map w a e)
at_edge w a b (inr e) = inr (resolve-the_map w b e)

-- A contact that begins does nothing, kills one food if it is with the map's edge, feeds one living
-- food to one living player, or gives the hitpoints of a living player to a living player who has
-- strictly more.
pub begin_contact-Effect : (a b : Ref) (w : World) → Effect (AtEdge a b) w (begin_contact a b w)
unfolding begin_contact
begin_contact-Effect a b w =
    dispatch-Effect (AtEdge a b) w (resolve w a) (resolve w b) (resolve-Stands w a)
      (resolve-Stands w b) (at_edge w a b)

ongoing_objects-Effect :
    (w : World) (a b : Object) → Stands w a → Stands w b → Effect ⊥ w (ongoing_objects a b w)
unfolding ongoing_objects
ongoing_objects-Effect w (a_player i m) (a_player j n) s t = player_player-Effect ⊥ w i m j n s t
ongoing_objects-Effect w _ _ s t = keeps refl

pub ongoing_contact-Effect : (c : Contact) (w : World) → Effect ⊥ w (ongoing_contact c w)
unfolding ongoing_contact
ongoing_contact-Effect c w = elim (Bool-cases c.is_touching) [
  | inl t ↦ rw t (
      ongoing_objects-Effect w (resolve w c.fixture_a) (resolve w c.fixture_b)
        (resolve-Stands w c.fixture_a) (resolve-Stands w c.fixture_b))
  | inr t ↦ rw t (keeps refl)
]

-- What every contact keeps, the contacts of a whole step keep.
module _ {ℓ} (Q : World → Type ℓ)
    (keep : (P : Type 0) (w u : World) → Effect P w u → Q w → Q u) where
  pub begin_all-keeps : (cs : List Contact) (w : World) → Q w → Q (begin_all cs w)
  unfolding begin_all
  begin_all-keeps [] w q = q
  begin_all-keeps (c ∷ cs) w q =
      begin_all-keeps cs (begin_contact c.fixture_a c.fixture_b w)
        (keep _ w _ (begin_contact-Effect c.fixture_a c.fixture_b w) q)

  pub ongoing-keeps : (cs : List Contact) (w : World) → Q w → Q (process_ongoing_contacts cs w)
  unfolding process_ongoing_contacts
  ongoing-keeps [] w q = q
  ongoing-keeps (c ∷ cs) w q =
      ongoing-keeps cs (ongoing_contact c w) (keep ⊥ w _ (ongoing_contact-Effect c w) q)

  -- With the motion of the bodies before and their update behind, so does the step.
  pub step-keeps :
      (f : FloatOps) (e : Events)
      → ((w : World) → Q w → Q (move_world e w))
      → ((w : World) → Q w → Q (init_world f w))
      → (w : World) → Q w
      → Q (step f e w)
  unfolding step physics_step
  step-keeps f e move finish w q =
      finish _ (ongoing-keeps e.contacts _ (begin_all-keeps e.begins (move_world e w) (move w q)))
