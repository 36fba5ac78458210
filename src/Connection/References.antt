-- ===== src/Connection/References.antt =====
-- References from the clients' queues to client transactions that a transaction owns.
use mniam_headless.Base.{
  ℕ, ◌<◌, ◌≡◌, refl, ◌∙◌, ◌≢◌, Bool-cases, inl, inr, List, [], ◌∷◌, none, some, ◌==◌, arith, All,
}
use mniam_headless.Base.OrderedMap.{find, erase, Ascends, Below, find-erase, erase-Ascends}
use mniam_headless.Connection.Requests.{ClientTransaction}
use mniam_headless.Connection.Clients.{Client}
use mniam_headless.Connection.Transactions.{Store, free_all}
use mniam_headless.Connection.Servers.{Run}
use mniam_headless.Connection.Runs.{IsStore, IsRun, Looped, run_after, find-run_after}

-- There is a cell at the address.
abbrev pub IsLive : List (ℕ × ClientTransaction) → ℕ → Type 0
IsLive cells a = (t : ClientTransaction) × (find a cells ≡ some t)

abbrev pub QueuesLive : List (ℕ × ClientTransaction) → List (ℕ × Client) → Type 0
QueuesLive cells [] = Unit {0}
QueuesLive cells ((k, c) ∷ m) = All (IsLive cells) c.transactions × QueuesLive cells m

-- The transaction owns no cell at the address.
abbrev pub NotOwned : List (ℕ × ℕ) → ℕ → Type 0
NotOwned owned a = All (λ (e : ℕ × ℕ). e.1 ≢ a) owned

abbrev pub QueuesApart : List (ℕ × ℕ) → List (ℕ × Client) → Type 0
QueuesApart owned [] = Unit {0}
QueuesApart owned ((k, c) ∷ m) = All (NotOwned owned) c.transactions × QueuesApart owned m

find-lt :
    (a n : ℕ) (cells : List (ℕ × ClientTransaction)) (t : ClientTransaction)
    → Below n cells
    → find a cells ≡ some t
    → a < n
unfolding find
find-lt a n [] t b e = cc
find-lt a n ((j, w) ∷ m) t b e = ground (arith, find-lt a n m t b.1)

find-free_all :
    (a : ℕ) (owned : List (ℕ × ℕ)) (cells : List (ℕ × ClientTransaction))
    → Ascends 0 cells
    → NotOwned owned a
    → find a (free_all owned cells) ≡ find a cells
unfolding free_all
find-free_all a [] cells s h = refl
find-free_all a ((k, o) ∷ owned) cells s h =
    find-free_all a owned (erase o cells) (erase-Ascends o 0 cells s) h.1
    ∙ ground (arith, find-erase a o 0 cells s)

-- What is freed stays freed.
find-free_all-none :
    (a : ℕ) (owned : List (ℕ × ℕ)) (cells : List (ℕ × ClientTransaction))
    → Ascends 0 cells
    → find a cells ≡ none
    → find a (free_all owned cells) ≡ none
unfolding free_all
find-free_all-none a [] cells s h = h
find-free_all-none a ((k, o) ∷ owned) cells s h =
    find-free_all-none a owned (erase o cells) (erase-Ascends o 0 cells s)
      (ground (arith, find-erase a o 0 cells s))

pub find-free_all_owned :
    (k a : ℕ) (owned : List (ℕ × ℕ)) (cells : List (ℕ × ClientTransaction))
    → Ascends 0 cells
    → find k owned ≡ some a
    → find a (free_all owned cells) ≡ none
unfolding free_all find
find-free_all_owned k a [] cells s h = cc
find-free_all_owned k a ((j, o) ∷ owned) cells s h = elim (Bool-cases (j == k)) [
  | inl hit ↦
      let same : o ≡ a = ground arith in
      find-free_all-none a owned (erase o cells) (erase-Ascends o 0 cells s)
        (ground (arith, find-erase a o 0 cells s))
  | inr miss ↦
      find-free_all_owned k a owned (erase o cells) (erase-Ascends o 0 cells s) (ground arith)
]

pub All-imp {ℓ κ} :
    {P : ℕ → Type ℓ} {Q : ℕ → Type κ} (xs : List ℕ) → ((a : ℕ) → P a → Q a) → All P xs → All Q xs
All-imp [] f h = tt
All-imp (x ∷ xs) f h = (f x h.0, All-imp xs f h.1)

pub QueuesLive-imp :
    (cells cells' : List (ℕ × ClientTransaction)) (m : List (ℕ × Client))
    → ((a : ℕ) → IsLive cells a → IsLive cells' a)
    → QueuesLive cells m
    → QueuesLive cells' m
QueuesLive-imp cells cells' [] f h = tt
QueuesLive-imp cells cells' ((k, c) ∷ m) f h =
    (All-imp c.transactions f h.0, QueuesLive-imp cells cells' m f h.1)

freed-IsLive :
    (s : Store) (owned : List (ℕ × ℕ)) (xs : List ℕ)
    → IsStore s
    → All (NotOwned owned) xs
    → All (IsLive s.cells) xs
    → All (IsLive (free_all owned s.cells)) xs
freed-IsLive s owned [] h apart live = tt
freed-IsLive s owned (x ∷ xs) h apart live = (
  (live.0.0, find-free_all x owned s.cells h.cells_ascend apart.0 ∙ live.0.1),
  freed-IsLive s owned xs h apart.1 live.1,
)

pub freed-QueuesLive :
    (s : Store) (owned : List (ℕ × ℕ)) (m : List (ℕ × Client))
    → IsStore s
    → QueuesApart owned m
    → QueuesLive s.cells m
    → QueuesLive (free_all owned s.cells) m
freed-QueuesLive s owned [] h apart live = tt
freed-QueuesLive s owned ((k, c) ∷ m) h apart live = (
  freed-IsLive s owned c.transactions h apart.0 live.0,
  freed-QueuesLive s owned m h apart.1 live.1,
)

-- The loop keeps what is live.
pub Looped-IsLive :
    (b : ℕ) (r r' : Run)
    → IsRun b r
    → Looped b r r'
    → (a : ℕ) → IsLive r.store.cells a
    → IsLive r'.store.cells a
Looped-IsLive b r r' h l a (t, e) =
    (t, l.old_cells a (find-lt a r.store.fresh r.store.cells t h.is_store.cells_below e) ∙ e)

pub run_after-IsLive :
    (k b : ℕ) (r : Run)
    → IsRun b r
    → (a : ℕ) → IsLive r.store.cells a
    → IsLive (run_after k r).store.cells a
run_after-IsLive k b r h a (t, e) =
    let lt = find-lt a r.store.fresh r.store.cells t h.is_store.cells_below e in
    (t, ground (arith, find-run_after a k b r h))
