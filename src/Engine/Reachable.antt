-- ===== src/Engine/Reachable.antt =====
-- The worlds that the program can bring about, step by step.
use mniam_headless.Base.{ℕ, List, [], ◌∷◌}
use mniam_headless.Engine.Objects.{
  Float, FloatOps, Vector2D, Body, Mortal, World, Ref, new_world, add_food, add_player,
}
use mniam_headless.Engine.Contacts.{set_player, begin_contact}
use mniam_headless.Engine.Stepping.{
  Contact, Events, begin_all, process_ongoing_contacts, move_world, physics_step, ongoing_contact,
  init_world, step,
}
use mniam_headless.Engine.Effects.{HasPlayer}

-- The worlds that the program can bring about, those inside a step included.
pub data Reach (f : FloatOps) (size : Float) : World → Type 0 where
  start : Reach f size (new_world size)
  fed : {w : World} (p : Vector2D) → Reach f size w → Reach f size (add_food f p w).0
  joined : {w : World} (p : Vector2D) → Reach f size w → Reach f size (add_player f p w).0
  rebodied :
      {w : World} (i : ℕ) (m : Mortal) (b : Body)
      → HasPlayer w i m
      → Reach f size w
      → Reach f size (set_player i (record m { body = b }) w)
  drifted : {w : World} (e : Events) → Reach f size w → Reach f size (move_world e w)
  began : {w : World} (a b : Ref) → Reach f size w → Reach f size (begin_contact a b w)
  pressed : {w : World} (c : Contact) → Reach f size w → Reach f size (ongoing_contact c w)
  refreshed : {w : World} → Reach f size w → Reach f size (init_world f w)

begin_all-Reach :
    (f : FloatOps) (size : Float) (cs : List Contact) {w : World}
    → Reach f size w
    → Reach f size (begin_all cs w)
unfolding begin_all
begin_all-Reach f size [] r = r
begin_all-Reach f size (c ∷ cs) r = begin_all-Reach f size cs (began c.fixture_a c.fixture_b r)

ongoing-Reach :
    (f : FloatOps) (size : Float) (cs : List Contact) {w : World}
    → Reach f size w
    → Reach f size (process_ongoing_contacts cs w)
unfolding process_ongoing_contacts
ongoing-Reach f size [] r = r
ongoing-Reach f size (c ∷ cs) r = ongoing-Reach f size cs (pressed c r)

-- A step leads from a reachable world to one.
pub step-Reach :
    (f : FloatOps) (size : Float) (e : Events) {w : World}
    → Reach f size w
    → Reach f size (step f e w)
unfolding step physics_step
step-Reach f size e r =
    refreshed (ongoing-Reach f size e.contacts (begin_all-Reach f size e.begins (drifted e r)))
