-- ===== src/Game/Reports.antt =====
-- The hitpoints that the updates report.
use mniam_headless.Base.{ℕ, ◌+◌, ◌*◌, ◌%◌, ◌^◌, ◌<◌, ◌≡◌, ap, ◌∙◌, length, arith}
use mniam_headless.Base.Int.{ℤ, pos, negsuc, ◌≤ℤ◌, int_laws}
use mniam_headless.Engine.{Float, FloatOps, Mortal, World}
use mniam_headless.Engine.Effects.{HasPlayer}
use mniam_headless.Engine.Reachable.{Reach}
use mniam_headless.Engine.Bounds.{Reach-total_hp, player-le-total_hp}
use mniam_headless.Game.State.{Player, wrap, hp_or_zero}
use mniam_headless.Game.Updates.{player_state}

wrap_exact : (h : ℤ) (n : ℕ) → pos 0 ≤ℤ h → h ≤ℤ pos n → n < 2 ^ 16 → pos (wrap (2 ^ 16) h) ≡ h
wrap_exact (pos k) n low high small = let same : k % 2 ^ 16 ≡ k = omega arith in ap pos same
wrap_exact (negsuc k) n low high small = ground arith

-- In every world that the program can bring about, an update reports a player's hitpoints as they are,
-- if twice the number of players and the number of foods together fit 16 bits.
pub player_state-hp :
    {f : FloatOps} {size : Float} {w : World} (player_no : ℕ) (p : Player) (m : Mortal)
    → Reach f size w
    → 2 * length w.players + length w.food < 2 ^ 16
    → HasPlayer w p.engine_player m
    → pos (player_state w player_no p).hp ≡ m.hitpoints
unfolding player_state
player_state-hp {w = w} player_no p m r small h =
    let total = Reach-total_hp r in
    let share = player-le-total_hp w p.engine_player m total.0 h in
    let under : m.hitpoints ≤ℤ pos (2 * length w.players + length w.food) =
      omega (int_laws, share.1, total.1) in
    ap (λ o. pos (wrap (2 ^ 16) (hp_or_zero o))) h
    ∙ wrap_exact m.hitpoints (2 * length w.players + length w.food) share.0 under small
