-- ===== src/Game/Understanding.antt =====
-- What a client of the whole program (src/main.cpp) reads, from the start of its socket to the end of any
-- number of updates.
use mniam_headless.Base.{
  ℕ, ◌≡◌, refl, ap, ◌∙◌, true, List, [], ◌∷◌, ◌++◌, map, Option, none, some, All,
}
use mniam_headless.Base.OrderedMap.{find}
use mniam_headless.Engine.{FloatOps}
use mniam_headless.Engine.Positions.{Fits, WorldFits, EventsFit}
use mniam_headless.Connection.{Bytes}
use mniam_headless.Connection.Postbox.{to_client, hears}
use mniam_headless.Amcom.{Amcom, IsAmcom}
use mniam_headless.Game.Phases.{Outside, play}
use mniam_headless.Game.Broadcast.{request_of, foods_read, players_read}
use mniam_headless.Game.Eaten.{reported}
use mniam_headless.Game.Serving.{Circumstances, Program, update_served, play_served}
use mniam_headless.Game.Answering.{heard_along, heard_from, then_heard}
use mniam_headless.Game.Heeding.{sents_for}
use mniam_headless.Game.Resting.{IsOrderly}
use mniam_headless.Game.Placing.{ProductsFit, OutsideFits}
use mniam_headless.Game.Reading.{
  players_reported, sent_read, sents_for-reported, sents_for-SentFits,
}
use mniam_headless.Game.Fitting.{play-SentFits}
use mniam_headless.Game.Playing.{HeedsAlong, play_served-serves}

-- The places that the random numbers and the physics give are bit patterns of floats.
abbrev pub CircumstancesFit : Circumstances → Type 0
CircumstancesFit c =
    (((i : ℕ) → Fits (c.player_position i)) × ((i : ℕ) → Fits (c.food_position i)))
    × ((i : ℕ) → EventsFit (c.events i))

module _ {R : Type 0} (a : Amcom R) (buffer : Bytes) (f : FloatOps) where
  then_heard-Fits :
      (o : Option Program) (next : Program → List Outside)
      → ((p : Program) → All OutsideFits (next p))
      → All OutsideFits (then_heard o next)
  then_heard-Fits none next each = tt
  then_heard-Fits (some p) next each = each p

  heard_along-Fits :
      (cs : List Circumstances) (p : Program)
      → All CircumstancesFit cs
      → All OutsideFits (heard_along a buffer f cs p)
  unfolding heard_along heard_from
  heard_along-Fits [] p fits = tt
  heard_along-Fits (c ∷ cs) p fits = (
    fits.0,
    then_heard-Fits (update_served a buffer f c p) (λ q. heard_along a buffer f cs q)
        (λ q. heard_along-Fits cs q fits.1),
  )

  module _ (h : IsAmcom a) where
    -- With a packet library as documented, clients under their own ids in ascending order, empty queues at
    -- those whose threads go on, the cells of memory below the next address, and no socket handed anything
    -- yet; and where the places in the world at first, those from the random numbers and the physics, and all
    -- products of floats are bit patterns: a client whose thread goes on, and whose socket in every update
    -- takes whole each request that is for the client and sends no bytes of a response's size but the
    -- response, reads from all that its socket is handed in any number of updates, each thread making a round
    -- before a wait ends and whatever the other clients do, the states of exactly those foods and players that
    -- the game puts into the FOOD and PLAYER updates of these updates, in order.
    pub play_served-reads :
        (cs : List Circumstances) (p : Program) (k : ℕ)
        → IsOrderly p
        → p.writes ≡ []
        → hears (find k p.server.clients) ≡ true
        → HeedsAlong a buffer f h k cs p
        → ProductsFit f
        → WorldFits p.game.world
        → All CircumstancesFit cs
        → let sent = (play f (heard_along a buffer f cs p) p.game).1 in
          (after : Program) × (play_served a buffer f cs p ≡ some after)
          × (foods_read a (to_client k after.writes) ≡ reported sent)
          × (players_read a (to_client k after.writes) ≡ players_reported sent)
    play_served-reads cs p k orderly unused on well product placed fits =
        let sent = (play f (heard_along a buffer f cs p) p.game).1 in
        let (after, result, _, trace) = play_served-serves a buffer f h cs p k orderly on well in
        let fit = sents_for-SentFits k sent (
          play-SentFits f (heard_along a buffer f cs p) p.game product (heard_along-Fits cs p fits)
            placed) in
        let read = sent_read a h buffer (sents_for k sent) fit in
        let same = sents_for-reported k sent in
        let handed : to_client k after.writes ≡ map (request_of a buffer) (sents_for k sent) =
          trace
          ∙ ap (λ ws. to_client k ws ++ map (request_of a buffer) (sents_for k sent)) unused
          ∙ (unfold to_client in refl) in
        (
          after,
          result,
          ap (foods_read a) handed ∙ read.0 ∙ same.0,
          ap (players_read a) handed ∙ read.1 ∙ same.1,
        )
