-- ===== src/Connection/Postbox.antt =====
-- What one client's socket is handed, and whether the client listens.
use mniam_headless.Base.{
  ℕ, suc, ◌<◌, ◌≡◌, refl, ap, Bool, true, false, List, [], ◌∷◌, ◌++◌, map, Option, none, some, ◌==◌,
  if◌then◌else◌, arith,
}
use mniam_headless.Base.OrderedMap.{find, Ascends}
use mniam_headless.Connection.Requests.{Bytes}
use mniam_headless.Connection.Clients.{Client}
use mniam_headless.Connection.Rounds.{is_listening}

-- The clients with what counts of them here: whether they listen.
abbrev pub listeners : List (ℕ × Client) → List (ℕ × Bool)
listeners = map (λ e. (e.0, is_listening e.1))

-- A request goes to all who listen.
unfoldable pub told_to : Bytes → List (ℕ × Bool) → List (ℕ × Bytes)
told_to request [] = []
told_to request ((k, b) ∷ ls) =
    let rest = told_to request ls in if b then (k, request) ∷ rest else rest

-- What the socket of a client is handed.
unfoldable pub to_client : ℕ → List (ℕ × Bytes) → List Bytes
to_client k [] = []
to_client k ((j, b) ∷ ws) = let rest = to_client k ws in if j == k then b ∷ rest else rest

-- Whether the client with an id is there and listens.
unfoldable pub listens : ℕ → List (ℕ × Bool) → Bool
listens k [] = false
listens k ((j, b) ∷ ls) = let rest = listens k ls in if j == k then b else rest

-- The same by the client itself.
abbrev pub hears : Option Client → Bool
hears none = false
hears (some c) = is_listening c

pub listens-hears : (k : ℕ) (m : List (ℕ × Client)) → listens k (listeners m) ≡ hears (find k m)
unfolding listens find
listens-hears k [] = refl
listens-hears k ((j, c) ∷ m) = ground (arith, listens-hears k m)

pub to_client-own :
    (k j : ℕ) (ws : List Bytes) → (j == k) ≡ true → to_client k (map (λ w. (j, w)) ws) ≡ ws
unfolding to_client
to_client-own k j [] hit = refl
to_client-own k j (w ∷ ws) hit = rw hit (ap (◌∷◌ w) (to_client-own k j ws hit))

pub to_client-other :
    (k j : ℕ) (ws : List Bytes) → (j == k) ≡ false → to_client k (map (λ w. (j, w)) ws) ≡ []
unfolding to_client
to_client-other k j [] ne = refl
to_client-other k j (w ∷ ws) ne = rw ne (to_client-other k j ws ne)

pub to_client-append :
    (k : ℕ) (xs ys : List (ℕ × Bytes)) → to_client k (xs ++ ys) ≡ to_client k xs ++ to_client k ys
unfolding to_client
to_client-append k [] ys = refl
to_client-append k ((j, b) ∷ xs) ys = ground (arith, to_client-append k xs ys)

not_told :
    (k b : ℕ) (request : Bytes) (ls : List (ℕ × Bool))
    → Ascends b ls
    → k < b
    → to_client k (told_to request ls) ≡ []
unfolding to_client told_to
not_told k b request [] order lt = refl
not_told k b request ((j, l) ∷ ls) order lt = ground (arith, not_told k (suc j) request ls order.1)

pub to_client-told_to :
    (k b : ℕ) (request : Bytes) (ls : List (ℕ × Bool))
    → Ascends b ls
    → to_client k (told_to request ls) ≡ (if listens k ls then request ∷ [] else [])
unfolding to_client told_to listens
to_client-told_to k b request [] order = refl
to_client-told_to k b request ((j, l) ∷ ls) order =
    ground
      (arith, not_told k (suc j) request ls order.1, to_client-told_to k (suc j) request ls order.1)
