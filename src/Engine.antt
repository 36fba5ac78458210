-- ===== src/Engine.antt =====
-- src/engine: the objects of the physical world, the contact listener and the world itself.
-- Box2D and the float hardware are parameters: `FloatOps` and the motion and contacts of a `Step`.
mod Objects
mod Contacts
mod Stepping
pub mod Effects
pub mod Symmetry
pub mod Hitpoints
pub mod Conservation
pub mod Mortality
pub mod Positions
pub mod Reachable
pub mod Budget
pub mod Bounds
pub mod Rules
pub mod Refinement
unfoldable pub use Objects.*
unfoldable pub use Contacts.*
unfoldable pub use Stepping.*
