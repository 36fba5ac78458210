-- ===== src/Engine/Positions.antt =====
-- Where the bodies of a world stand (src/engine): places come from the creation of an object, from
-- `setPosition` and from the motion of Box2D alone.
use mniam_headless.Base.{
  ℕ, suc, ◌<◌, ◌^◌, List, [], ◌∷◌, map, All, All-set, All-append, All-get_elem?,
}
use mniam_headless.Engine.Objects.{
  FloatOps, Vector2D, Mortal, World, kill, heal, update, add_food, add_player,
}
use mniam_headless.Engine.Contacts.{set_food, set_player}
use mniam_headless.Engine.Stepping.{Events, Motion, move_all, move_world, init_world, step}
use mniam_headless.Engine.Effects.{Effect, keeps, crushes, eats, beats, step-keeps}

-- The coordinates are bit patterns of floats.
abbrev pub Fits : Vector2D → Type 0
Fits v = (v.x < 2 ^ 32) × (v.y < 2 ^ 32)

abbrev pub PositionFits : Mortal → Type 0
PositionFits m = Fits m.body.position

abbrev pub WorldFits : World → Type 0
WorldFits w = All PositionFits w.food × All PositionFits w.players

abbrev pub EventsFit : Events → Type 0
EventsFit e =
    ((i : ℕ) → Fits (e.food_motion i).position) × ((i : ℕ) → Fits (e.player_motion i).position)

Effect-WorldFits : (P : Type 0) (w u : World) → Effect P w u → WorldFits w → WorldFits u
unfolding set_food set_player kill heal
Effect-WorldFits P w u (keeps e) h = rw e h
Effect-WorldFits P w u (crushes p i m found e) h =
    rw e
      (All-set PositionFits w.food i _ (All-get_elem? PositionFits w.food i m found h.0) h.0, h.1)
Effect-WorldFits P w u (eats i m j n found e) h = rw e (
  All-set PositionFits w.food i _ (All-get_elem? PositionFits w.food i m found.eaten h.0) h.0,
  All-set PositionFits w.players j _ (All-get_elem? PositionFits w.players j n found.eater h.1) h.1,
)
Effect-WorldFits P w u (beats i m j n found e) h = rw e (
  h.0,
  All-set PositionFits _ j _ (All-get_elem? PositionFits w.players j n found.loser h.1) (
      All-set PositionFits w.players i _ (All-get_elem? PositionFits w.players i m found.winner h.1)
        h.1),
)

move_all-Fits :
    (v : ℕ → Motion) (i : ℕ) (ms : List Mortal)
    → ((j : ℕ) → Fits (v j).position)
    → All PositionFits (move_all v i ms)
unfolding move_all
move_all-Fits v i [] h = tt
move_all-Fits v i (m ∷ ms) h = (h i, move_all-Fits v (suc i) ms h)

update-Fits :
    (f : FloatOps) (ms : List Mortal) → All PositionFits ms → All PositionFits (map (update f) ms)
unfolding update
update-Fits f [] h = tt
update-Fits f (m ∷ ms) h = (h.0, update-Fits f ms h.1)

pub init_world-WorldFits : (f : FloatOps) (w : World) → WorldFits w → WorldFits (init_world f w)
unfolding init_world
init_world-WorldFits f w h = (update-Fits f w.food h.0, update-Fits f w.players h.1)

move_world-WorldFits : (e : Events) (w : World) → EventsFit e → WorldFits (move_world e w)
unfolding move_world
move_world-WorldFits e w h =
    (move_all-Fits e.food_motion 0 w.food h.0, move_all-Fits e.player_motion 0 w.players h.1)

pub step-WorldFits :
    (f : FloatOps) (e : Events) (w : World) → EventsFit e → WorldFits w → WorldFits (step f e w)
step-WorldFits f e w fits h =
    step-keeps WorldFits Effect-WorldFits f e (λ v q. move_world-WorldFits e v fits)
      (init_world-WorldFits f) w h

pub add_food-WorldFits :
    (f : FloatOps) (p : Vector2D) (w : World) → Fits p → WorldFits w → WorldFits (add_food f p w).0
unfolding add_food
add_food-WorldFits f p w fits h = (All-append PositionFits w.food _ h.0 (fits, tt), h.1)

pub add_player-WorldFits :
    (f : FloatOps) (p : Vector2D) (w : World)
    → Fits p
    → WorldFits w
    → WorldFits (add_player f p w).0
unfolding add_player
add_player-WorldFits f p w fits h = (h.0, All-append PositionFits w.players _ h.1 (fits, tt))
