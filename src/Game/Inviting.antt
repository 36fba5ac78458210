-- ===== src/Game/Inviting.antt =====
-- One client of those that the phase NEW_GAME_REQUEST (src/amgame.cpp) asks, and what its socket is handed.
use mniam_headless.Base.{
  ℕ, ◌≡◌, refl, ap, sym, subst, ◌∙◌, Bool, true, false, not, List, [], ◌∷◌, ◌++◌, Bool-cases, inl,
  inr, Option, map, ◌==◌, if◌then◌else◌, All,
}
use mniam_headless.Base.OrderedMap.{find}
use mniam_headless.Connection.{Bytes, Client, Exchange, Server}
use mniam_headless.Connection.Rounds.{is_listening}
use mniam_headless.Connection.Asking.{Asked, Answered}
use mniam_headless.Connection.Listening.{Cooperative}
use mniam_headless.Amcom.{Amcom, IsAmcom, Responses, new_game_kind, new_game_transaction, validate}
use mniam_headless.Amcom.Requests.{transactions-IsWhole}
use mniam_headless.Game.State.{Sent, new_game_to}
use mniam_headless.Connection.Postbox.{
  to_client, hears, to_client-append, to_client-own, to_client-other,
}
use mniam_headless.Game.Broadcast.{request_of}
use mniam_headless.Game.Heeding.{heeds, heeds-answer, sents_for}

module _ {R : Type 0} (a : Amcom R) (exchanges : ℕ → Exchange) (buffer : Bytes) where
  -- The requests for the client `j` are heeded.
  abbrev pub Heeded : ℕ → List Sent → Type 0
  Heeded j sent = All (λ s. heeds a buffer s (exchanges j) ≡ true) (sents_for j sent)

  -- The client `j` through the asking of the client `k` and what comes after it.
  pub asked_first :
      (j k p n : ℕ) (ws : List Bytes) (sent : List Sent) (later : List (ℕ × Bytes))
      (before between after : Bool)
      → ((k == j) ≡ true
          → heeds a buffer (new_game_to k p n) (exchanges j) ≡ true
          → before ≡ true
          → (ws ≡ request_of a buffer (new_game_to k p n) ∷ []) × (between ≡ true))
      → ((k == j) ≡ false → between ≡ before)
      → (Heeded j sent
          → between ≡ true
          → (to_client j later ≡ map (request_of a buffer) (sents_for j sent)) × (after ≡ true))
      → Heeded j (new_game_to k p n ∷ sent)
      → before ≡ true
      → (to_client j (map (λ w. (k, w)) ws ++ later)
          ≡ map (request_of a buffer) (sents_for j (new_game_to k p n ∷ sent)))
        × (after ≡ true)
  unfolding sents_for
  asked_first j k p n ws sent later before between after own other next well on =
      let split = to_client-append j (map (λ w. (k, w)) ws) later in
      let keep =
        λ (q : Bool). if q then new_game_to k p n ∷ sents_for j sent else sents_for j sent in
      elim (Bool-cases (k == j)) [
        | inl hit ↦
            let both =
              subst (λ q. All (λ s. heeds a buffer s (exchanges j) ≡ true) (keep q)) hit well in
            let now = own hit both.0 on in
            let rest = next both.1 now.1 in
            (
              split
                  ∙ ap (λ l. l ++ to_client j later) (to_client-own j k ws hit ∙ now.0)
                  ∙ ap (◌∷◌ (request_of a buffer (new_game_to k p n))) rest.0
                  ∙ ap (λ q. map (request_of a buffer) (keep q)) (sym hit),
              rest.1,
            )
        | inr miss ↦
            let rest =
              next
                (subst (λ q. All (λ s. heeds a buffer s (exchanges j) ≡ true) (keep q)) miss well)
                (other miss ∙ on) in
            (
              split
                  ∙ ap (λ l. l ++ to_client j later) (to_client-other j k ws miss)
                  ∙ rest.0
                  ∙ ap (λ q. map (request_of a buffer) (keep q)) (sym miss),
              rest.1,
            )
      ]

  pub asked_heeds :
      (h : IsAmcom a) (k p n : ℕ) (v : Server) (c : Client) (q : Option (Asked Responses))
      → (asked : Answered
          (validate a new_game_kind)
          (exchanges k)
          k
          v
          c
          (new_game_transaction a buffer p n)
          []
          q)
      → heeds a buffer (new_game_to k p n) (exchanges k) ≡ true
      → is_listening c ≡ true
      → (asked.after.writes ≡ request_of a buffer (new_game_to k p n) ∷ [])
        × (hears (find k asked.after.server.clients) ≡ true)
  unfolding request_of
  asked_heeds h k p n v c q asked well on =
      let t = new_game_transaction a buffer p n in
      let (_, (_, _, response), _) = transactions-IsWhole a h buffer p n 0 in
      let stays : Cooperative (validate a new_game_kind) t.response_size (exchanges k) t.request =
        subst (λ size. Cooperative (validate a new_game_kind) size (exchanges k) t.request)
          (sym response)
          (heeds-answer a buffer (new_game_to k p n) (exchanges k) new_game_kind 132 refl well) in
      (
        asked.writes_right ∙ rw on refl,
        ap hears asked.listens.1 ∙ asked.listens.2 ∙ rw on (ap not (stays c [])),
      )
