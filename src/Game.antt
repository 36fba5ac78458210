-- ===== src/Game.antt =====
-- src/amgame.*, src/player.*, src/food.* and src/main.cpp: the game, which runs transactions with the
-- server's clients and steps the world.
mod State
mod Setup
mod Updates
mod Phases
pub mod Served
pub mod Batches
pub mod Eaten
pub mod Cycle
pub mod Joining
pub mod Inviting
pub mod Entering
pub mod Heeding
pub mod Serving
pub mod Resting
pub mod Reception
pub mod Answering
pub mod Ending
pub mod Moving
pub mod Starting
pub mod Playing
pub mod Understanding
pub mod Whole
pub mod Placing
pub mod Reading
pub mod Fitting
pub mod Reports
pub mod Steering
pub mod Broadcast
pub mod Times
unfoldable pub use State.*
unfoldable pub use Setup.*
unfoldable pub use Updates.*
unfoldable pub use Phases.*
