-- ===== src/Connection/Waiting.antt =====
-- How many clients `Transaction::waitForFinish` counts.
use mniam_headless.Base.{
  ℕ, ◌+◌, ◌≡◌, refl, ◌∙◌, ◌≢◌, ◌&&◌, Bool-cases, inl, inr, List, [], ◌∷◌, Option, none, some,
  if◌then◌else◌, arith,
}
use mniam_headless.Base.OrderedMap.{find, find-assign}
use mniam_headless.Connection.Requests.{ClientTransaction, is_done, wait_until}
use mniam_headless.Connection.Transactions.{
  Store, Transaction, wait_cell, wait_all, wait_for_finish,
}
use mniam_headless.Connection.References.{NotOwned}

-- The client transaction is signalled as ended, and done.
abbrev pub answered : Option ClientTransaction → ℕ
answered none = 0
answered (some c) = if c.signal && is_done c.state then 1 else 0

-- How many of the client transactions are.
unfoldable pub answers : List (ℕ × ℕ) → List (ℕ × ClientTransaction) → ℕ
answers [] cells = 0
answers ((k, a) ∷ m) cells = answered (find a cells) + answers m cells

-- No two clients share a client transaction.
abbrev pub Distinct : List (ℕ × ℕ) → Type 0
Distinct [] = Unit {0}
Distinct ((k, a) ∷ m) = NotOwned m a × Distinct m

wait_cell-answered :
    (o : Option ClientTransaction) (a : ℕ) (s : Store) → (wait_cell o a s).1 ≡ answered o
unfolding wait_cell wait_until
wait_cell-answered none a s = refl
wait_cell-answered (some c) a s = elim (Bool-cases c.signal) [ inl on ↦ rw on | inr off ↦ rw off ]

find-wait_cell :
    (o : Option ClientTransaction) (a b : ℕ) (s : Store)
    → find a s.cells ≡ o
    → b ≢ a
    → find b (wait_cell o a s).0.cells ≡ find b s.cells
unfolding wait_cell
find-wait_cell none a b s e ne = refl
find-wait_cell (some c) a b s e ne = find-assign b a (wait_until c).0 c s.cells e ∙ ground arith

answers-wait_cell :
    (m : List (ℕ × ℕ)) (a : ℕ) (s : Store)
    → NotOwned m a
    → answers m (wait_cell (find a s.cells) a s).0.cells ≡ answers m s.cells
unfolding answers
answers-wait_cell [] a s h = refl
answers-wait_cell ((k, b) ∷ m) a s h =
    rw (find-wait_cell (find a s.cells) a b s refl h.0, answers-wait_cell m a s h.1)

wait_all-answers :
    (m : List (ℕ × ℕ)) (s : Store) → Distinct m → (wait_all m s).1 ≡ answers m s.cells
unfolding wait_all answers
wait_all-answers [] s h = refl
wait_all-answers ((k, a) ∷ m) s h =
    let after = (wait_cell (find a s.cells) a s).0 in
    let first = wait_cell-answered (find a s.cells) a s in
    let rest = wait_all-answers m after h.1 ∙ answers-wait_cell m a s h.0 in
    omega (arith, first, rest)

-- If no two clients share a client transaction, the wait counts the client transactions that are
-- signalled as ended and done when it returns.
pub wait_for_finish-answers :
    (t : Transaction) (s : Store)
    → Distinct t.client_transactions
    → (wait_for_finish t s).1 ≡ answers t.client_transactions s.cells
unfolding wait_for_finish
wait_for_finish-answers t s h = wait_all-answers t.client_transactions s h
