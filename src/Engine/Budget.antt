-- ===== src/Engine/Budget.antt =====
-- What is added to the world bounds all hitpoints together.
use mniam_headless.Base.{
  ℕ, suc, ◌+◌, ◌*◌, ◌≡◌, refl, ap, List, [], ◌∷◌, ◌++◌, set, length, length-append, length-set,
  length-map, arith, All-append, All-set, All-get_elem?,
}
use mniam_headless.Base.Int.{pos, ◌+ℤ◌, int_laws, parts_of_eq}
use mniam_headless.Engine.Objects.{
  Float, FloatOps, Vector2D, Mortal, World, new_world, add_food, add_player, new_food, new_player,
  kill, heal, update,
}
use mniam_headless.Engine.Contacts.{set_food, set_player}
use mniam_headless.Engine.Stepping.{Events, Motion, move_all, move_world, init_world}
use mniam_headless.Engine.Effects.{
  Effect, keeps, crushes, eats, beats, begin_contact-Effect, ongoing_contact-Effect, HasPlayer,
}
use mniam_headless.Engine.Conservation.{
  IsSoundUnder, Effect-IsSoundUnder, move_world-IsSoundUnder, init_world-IsSoundUnder,
}
use mniam_headless.Engine.Hitpoints.{sum_hp, sum_hp-set, total_hp, IsNonneg}
use mniam_headless.Engine.Reachable.{
  Reach, began, drifted, fed, joined, pressed, rebodied, refreshed, start,
}

-- Two for each player and one for each food that was ever added.
abbrev pub budget : World → ℕ
budget w = 2 * length w.players + length w.food

abbrev Bounded : World → Type 0
Bounded w = IsSoundUnder (pos (budget w)) w

-- No operation but the two that add objects changes how many there are.
length-move_all : (v : ℕ → Motion) (i : ℕ) (ms : List Mortal) → length (move_all v i ms) ≡ length ms
unfolding move_all
length-move_all v i [] = refl
length-move_all v i (m ∷ ms) = ap suc (length-move_all v (suc i) ms)

Effect-budget : {P : Type 0} {w u : World} → Effect P w u → budget u ≡ budget w
unfolding set_food set_player
Effect-budget (keeps e) = rw e
Effect-budget {w = w} (crushes p i m h e) = rw (e, length-set w.food i (kill m))
Effect-budget {w = w} (eats i m j n h e) =
    rw (e, length-set w.food i (kill m), length-set w.players j (heal m.hitpoints n))
Effect-budget {w = w} (beats i m j n h e) = rw (
  e,
  length-set (set w.players i (heal n.hitpoints m)) j (kill n),
  length-set w.players i (heal n.hitpoints m),
)

Effect-Bounded : {P : Type 0} {w u : World} → Effect P w u → Bounded w → Bounded u
Effect-Bounded {P} {w} {u} k b =
    rw (Effect-budget k) (Effect-IsSoundUnder (pos (budget w)) P w u k b)

sum_hp-append : (xs : List Mortal) (m : Mortal) → sum_hp (xs ++ m ∷ []) ≡ sum_hp xs +ℤ m.hitpoints
sum_hp-append [] m = omega int_laws
sum_hp-append (x ∷ xs) m = omega (int_laws, parts_of_eq (sum_hp-append xs m))

add_food-Bounded :
    (f : FloatOps) (p : Vector2D) (w : World) → Bounded w → Bounded (add_food f p w).0
unfolding add_food total_hp
add_food-Bounded f p w b = record {
  sound = record {
    food_nonneg = All-append IsNonneg w.food _ b.sound.food_nonneg (omega arith, tt);
    players_nonneg = b.sound.players_nonneg;
  };
  under = omega (
    int_laws,
    b.under,
    parts_of_eq (sum_hp-append w.food (new_food f p)),
    length-append w.food (new_food f p ∷ []),
  );
}

add_player-Bounded :
    (f : FloatOps) (p : Vector2D) (w : World) → Bounded w → Bounded (add_player f p w).0
unfolding add_player total_hp
add_player-Bounded f p w b = record {
  sound = record {
    food_nonneg = b.sound.food_nonneg;
    players_nonneg = All-append IsNonneg w.players _ b.sound.players_nonneg (omega arith, tt);
  };
  under = omega (
    int_laws,
    b.under,
    parts_of_eq (sum_hp-append w.players (new_player f p)),
    length-append w.players (new_player f p ∷ []),
  );
}

-- A write that changes only the body of a player.
body-Bounded :
    (w : World) (i : ℕ) (m n : Mortal)
    → HasPlayer w i m
    → n.hitpoints ≡ m.hitpoints
    → Bounded w
    → Bounded (set_player i n w)
unfolding set_player total_hp
body-Bounded w i m n h same b = record {
  sound = record {
    food_nonneg = b.sound.food_nonneg;
    players_nonneg =
        All-set IsNonneg w.players i n
          (omega (
            arith,
            parts_of_eq same,
            All-get_elem? IsNonneg w.players i m h b.sound.players_nonneg,
          ))
          b.sound.players_nonneg;
  };
  under = omega (
    int_laws,
    b.under,
    parts_of_eq (sum_hp-set w.players i m n h),
    parts_of_eq same,
    length-set w.players i n,
  );
}

drifted-budget : (e : Events) (w : World) → budget (move_world e w) ≡ budget w
unfolding move_world
drifted-budget e w =
    rw (length-move_all e.food_motion 0 w.food, length-move_all e.player_motion 0 w.players)

refreshed-budget : (f : FloatOps) (w : World) → budget (init_world f w) ≡ budget w
unfolding init_world
refreshed-budget f w = rw (length-map (update f) w.food, length-map (update f) w.players)

pub Reach-Bounded : {f : FloatOps} {size : Float} {w : World} → Reach f size w → Bounded w
unfolding new_world total_hp
Reach-Bounded start = record {
  sound = record { food_nonneg = tt; players_nonneg = tt };
  under = omega int_laws;
}
Reach-Bounded {f} (fed {w = w} p r) = add_food-Bounded f p w (Reach-Bounded r)
Reach-Bounded {f} (joined {w = w} p r) = add_player-Bounded f p w (Reach-Bounded r)
Reach-Bounded (rebodied {w = w} i m b h r) =
    body-Bounded w i m (record m { body = b }) h refl (Reach-Bounded r)
Reach-Bounded (drifted {w = w} e r) =
    rw (drifted-budget e w) (move_world-IsSoundUnder (pos (budget w)) e w (Reach-Bounded r))
Reach-Bounded (began {w = w} a b r) = Effect-Bounded (begin_contact-Effect a b w) (Reach-Bounded r)
Reach-Bounded (pressed {w = w} c r) = Effect-Bounded (ongoing_contact-Effect c w) (Reach-Bounded r)
Reach-Bounded {f} (refreshed {w = w} r) =
    rw (refreshed-budget f w) (init_world-IsSoundUnder (pos (budget w)) f w (Reach-Bounded r))
