-- ===== src/Engine/Symmetry.antt =====
-- The two objects of a contact, in either order.
use mniam_headless.Base.{◌≡◌, refl, arith}
use mniam_headless.Engine.Objects.{World, Ref}
use mniam_headless.Engine.Contacts.{
  set_player, fight, player_player, Object, nothing, the_map, a_food, a_player, resolve, dispatch,
  begin_contact,
}
use mniam_headless.Engine.Effects.{Stands, resolve-Stands}

-- The order of the two objects of a contact does not matter.
dispatch_comm :
    (w : World) (a b : Object) → Stands w a → Stands w b → dispatch a b w ≡ dispatch b a w
unfolding dispatch player_player fight set_player
dispatch_comm w (a_player i m) (a_player j n) s t = ground (arith)
dispatch_comm w the_map the_map s t = refl
dispatch_comm w the_map (a_food j n) s t = refl
dispatch_comm w the_map (a_player j n) s t = refl
dispatch_comm w the_map nothing s t = refl
dispatch_comm w (a_food i m) the_map s t = refl
dispatch_comm w (a_food i m) (a_food j n) s t = refl
dispatch_comm w (a_food i m) (a_player j n) s t = refl
dispatch_comm w (a_food i m) nothing s t = refl
dispatch_comm w (a_player i m) the_map s t = refl
dispatch_comm w (a_player i m) (a_food j n) s t = refl
dispatch_comm w (a_player i m) nothing s t = refl
dispatch_comm w nothing the_map s t = refl
dispatch_comm w nothing (a_food j n) s t = refl
dispatch_comm w nothing (a_player j n) s t = refl
dispatch_comm w nothing nothing s t = refl

-- The beginning of a contact has the same effect whichever of the two fixtures comes first.
pub begin_contact_comm : (a b : Ref) (w : World) → begin_contact a b w ≡ begin_contact b a w
unfolding begin_contact
begin_contact_comm a b w =
    dispatch_comm w (resolve w a) (resolve w b) (resolve-Stands w a) (resolve-Stands w b)
