-- ===== src/Game/Whole.antt =====
-- The program from its start (src/main.cpp).
use mniam_headless.Base.{
  ℕ, ◌+◌, ◌*◌, ◌≡◌, sym, subst, not, List, [], ◌∷◌, length, some, Bool-cases, inl, inr, All, Bool,
}
use mniam_headless.Base.Int.{pos, ◌≤ℤ◌}
use mniam_headless.Base.OrderedMap.{erase_if, erase_if-Ascends}
use mniam_headless.Connection.{
  Bytes, Client, Incoming, Server, new_server, remove_all_inactive_clients,
}
use mniam_headless.Connection.Membership.{erase_if-Named}
use mniam_headless.Connection.Rounds.{IsReady}
use mniam_headless.Engine.{FloatOps}
use mniam_headless.Engine.Hitpoints.{IsSound, total_hp}
use mniam_headless.Amcom.{Amcom, IsAmcom}
use mniam_headless.Game.State.{Game, new_game}
use mniam_headless.Game.Setup.{new_match}
use mniam_headless.Game.Cycle.{play-total_hp}
use mniam_headless.Game.Resting.{IsAtRest, IsOrderly, arrive-IsAtRest}
use mniam_headless.Game.Serving.{Circumstances, Program, arrive, match_begun, main_program}
use mniam_headless.Game.Answering.{heard_along}
use mniam_headless.Game.Playing.{play_served-plays}

erase_if-IsReady :
    (p : Client → Bool) (m : List (ℕ × Client))
    → All (λ e. IsReady e.1) m
    → All (λ e. IsReady e.1) (erase_if p m)
unfolding erase_if
erase_if-IsReady p [] h = tt
erase_if-IsReady p ((k, c) ∷ m) h = elim (Bool-cases (p c)) [
  | inl out ↦ simp out (erase_if-IsReady p m h.1)
  | inr stays ↦ simp stays (h.0, erase_if-IsReady p m h.1)
]

new_match-IsAtRest :
    (v : Server) (g : Game) → IsAtRest v.clients → IsAtRest (new_match v g).0.clients
unfolding new_match remove_all_inactive_clients
new_match-IsAtRest v g h = record {
  is_ordered = erase_if-Ascends (λ c. not c.active) 0 v.clients h.is_ordered;
  named = erase_if-Named (λ c. not c.active) v.clients h.named;
  are_ready = erase_if-IsReady (λ c. not c.active) v.clients h.are_ready;
}

module _ {R : Type 0} (a : Amcom R) (buffer : Bytes) (f : FloatOps) (h : IsAmcom a) where
  -- With a packet library as documented: whoever connects before the match and in it, whatever the
  -- sockets answer and whatever the physics do, the program has a result after any number of updates, each
  -- thread making a round before a wait ends. No hitpoints are negative then, and all hitpoints together are
  -- at most two for each player and one for each food.
  pub main_program-total_hp :
      (arrivals : List (ℕ × Incoming)) (cs : List Circumstances)
      → (after : Program) × (main_program a buffer f arrivals cs ≡ some after)
        × IsSound after.game.world
        × (total_hp after.game.world
            ≤ℤ pos (2 * length after.game.world.players + length after.game.world.food))
  unfolding main_program new_server
  main_program-total_hp arrivals cs =
      let v = arrive arrivals (new_server 8) in
      let p = match_begun a buffer f (new_match v new_game) in
      let orderly : IsOrderly p = record {
        at_rest = new_match-IsAtRest v new_game (
            arrive-IsAtRest arrivals (new_server 8)
              (record { is_ordered = tt; named = tt; are_ready = tt }));
        is_store = record { cells_ascend = tt; cells_below = tt };
      } in
      let (after, result, game) = play_served-plays a buffer f h cs p orderly in
      let os = heard_along a buffer f cs p in
      let (sound, total) = play-total_hp f os v in
      (
        after,
        result,
        subst (λ (g : Game). IsSound g.world) (sym game) sound,
        subst
            (λ (g : Game).
              total_hp g.world ≤ℤ pos (2 * length g.world.players + length g.world.food))
            (sym game) total,
      )
