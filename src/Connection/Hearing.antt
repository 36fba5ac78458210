-- ===== src/Connection/Hearing.antt =====
-- What one client is told while a transaction is run with one request after another.
use mniam_headless.Base.{
  ℕ, suc, ◌≡◌, refl, ap, ◌∙◌, Bool, true, false, ◌&&◌, Bool-cases, inl, inr, List, [], ◌∷◌, ◌++◌,
  length, some, ◌==◌, if◌then◌else◌, arith, All,
}
use mniam_headless.Base.OrderedMap.{Ascends}
use mniam_headless.Connection.Requests.{Bytes}
use mniam_headless.Connection.Clients.{Client, Exchange, to_size_t}
use mniam_headless.Connection.Transactions.{Store, Transaction}
use mniam_headless.Connection.Servers.{Server}
use mniam_headless.Connection.Runs.{IsStore}
use mniam_headless.Connection.Rounds.{is_listening, IsReady}
use mniam_headless.Connection.Talking.{Told, tell}
use mniam_headless.Connection.Postbox.{
  listeners, told_to, to_client, listens, to_client-append, to_client-told_to,
}
use mniam_headless.Connection.Listening.{going_on}
use mniam_headless.Connection.Telling.{map-Ascends, told_all, left_after, tell-Phased}

-- Requests up to the first that the socket does not take whole, that one included.
pub up_to_failure : (ℕ → Exchange) → ℕ → List Bytes → Bool → List Bytes
up_to_failure x i [] b = []
up_to_failure x i (request ∷ requests) b =
    let rest = up_to_failure x (suc i) requests (length request == to_size_t (x i).written) in
    if b then request ∷ rest else []

-- The socket takes all requests whole.
abbrev pub TakesAll : (ℕ → Exchange) → ℕ → List Bytes → Type 0
TakesAll x i [] = Unit {0}
TakesAll x i (request ∷ requests) =
    (length request ≡ to_size_t (x i).written) × TakesAll x (suc i) requests

listens-going_on :
    (k : ℕ) (x : ℕ → Exchange) (request : Bytes) (ls : List (ℕ × Bool))
    → listens k (going_on x request ls)
      ≡ (listens k ls && (length request == to_size_t (x k).written))
unfolding listens
listens-going_on k x request [] = refl
listens-going_on k x request ((j, l) ∷ ls) = elim (Bool-cases (j == k)) [
  | inl hit ↦ let same : j ≡ k = ground arith in rw same (ground arith)
  | inr miss ↦ ground (arith, listens-going_on k x request ls)
]

up_to_failure-false :
    (x : ℕ → Exchange) (i : ℕ) (requests : List Bytes) → up_to_failure x i requests false ≡ []
unfolding up_to_failure
up_to_failure-false x i [] = refl
up_to_failure-false x i (request ∷ requests) = refl

pub to_client-told_all :
    (k i : ℕ) (exchanges : ℕ → ℕ → Exchange) (requests : List Bytes) (ls : List (ℕ × Bool))
    → Ascends 0 ls
    → to_client k (told_all exchanges i requests ls)
      ≡ up_to_failure (λ j. exchanges j k) i requests (listens k ls)
unfolding told_all up_to_failure
to_client-told_all k i exchanges [] ls order = (unfold to_client in refl)
to_client-told_all k i exchanges (request ∷ requests) ls order =
    let next = going_on (exchanges i) request ls in
    let took = length request == to_size_t (exchanges i k).written in
    let now = to_client-told_to k 0 request ls order in
    let later =
      to_client-told_all k (suc i) exchanges requests next (
        map-Ascends (λ e. e.1 && (length request == to_size_t (exchanges i e.0).written)) 0 ls
          order)
      ∙ ap (up_to_failure (λ j. exchanges j k) (suc i) requests)
          (listens-going_on k (exchanges i) request ls) in
    to_client-append k (told_to request ls) (told_all exchanges (suc i) requests next)
    ∙ ap (λ l. l ++ to_client k (told_all exchanges (suc i) requests next)) now
    ∙ elim (Bool-cases (listens k ls)) [
      | inl on ↦ ap (◌++◌ (if listens k ls then request ∷ [] else [])) later ∙ rw on refl
      | inr off ↦
          ap (◌++◌ (if listens k ls then request ∷ [] else [])) later
          ∙ rw off (up_to_failure-false (λ j. exchanges j k) (suc i) requests)
    ]

pub up_to_failure-TakesAll :
    (x : ℕ → Exchange) (i : ℕ) (requests : List Bytes)
    → TakesAll x i requests
    → up_to_failure x i requests true ≡ requests
unfolding up_to_failure
up_to_failure-TakesAll x i [] h = refl
up_to_failure-TakesAll x i (request ∷ requests) h =
    let whole : (length request == to_size_t (x i).written) ≡ true = ground arith in
    ap (λ b. request ∷ up_to_failure x (suc i) requests b) whole
    ∙ ap (◌∷◌ request) (up_to_failure-TakesAll x (suc i) requests h.1)

pub listens-left_after :
    (k i : ℕ) (exchanges : ℕ → ℕ → Exchange) (requests : List Bytes) (ls : List (ℕ × Bool))
    → listens k ls ≡ true
    → TakesAll (λ j. exchanges j k) i requests
    → listens k (left_after exchanges i requests ls) ≡ true
unfolding left_after
listens-left_after k i exchanges [] ls on h = on
listens-left_after k i exchanges (request ∷ requests) ls on h =
    listens-left_after k (suc i) exchanges requests (going_on (exchanges i) request ls)
      (listens-going_on k (exchanges i) request ls ∙ ground arith) h.1

-- A transaction without response, with the clients in ascending order of their ids, the cells of memory
-- below the next address, and an empty queue at every client whose thread goes on: running it with one
-- request after another, each thread making a round before the wait ends, has a result, whatever the
-- sockets answer. A client whose thread goes on is handed the requests in order, up to the first that its
-- socket does not take whole, and every other client none.
pub tell-up_to_failure :
    {V : Type 0} (validator : ℕ → Bytes → V → V × Bool) (exchanges : ℕ → ℕ → Exchange)
    (requests : List Bytes) (v : Server) (t : Transaction) (s : Store) (kept : V) (k : ℕ)
    → t.response_size ≡ 0
    → Ascends 0 v.clients
    → IsStore s
    → All (λ (e : ℕ × Client). IsReady e.1) v.clients
    → (after : Told V) × (tell validator exchanges 0 requests v t s kept ≡ some after)
      × (to_client k after.writes
          ≡ up_to_failure (λ j. exchanges j k) 0 requests (listens k (listeners v.clients)))
tell-up_to_failure validator exchanges requests v t s kept k silent order h ready =
    let phase = tell-Phased validator exchanges 0 requests v t s kept order h ready in
    (
      phase.after,
      phase.result,
      ap (to_client k) (phase.heard silent).0
          ∙ to_client-told_all k 0 exchanges requests (listeners v.clients)
              (map-Ascends (λ e. is_listening e.1) 0 v.clients order),
    )
