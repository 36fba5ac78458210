-- ===== src/Connection/Handing.antt =====
-- Which addresses the loop of `Server::runTransaction` (src/connection_server.cpp) hands to which
-- clients.
use mniam_headless.Base.{
  ℕ, suc, ◌≤◌, ◌≡◌, refl, ap, sym, subst, ◌∙◌, true, false, Bool-cases, inl, inr, List, [], ◌∷◌,
  ◌++◌, some, if◌then◌else◌, arith, All,
}
use mniam_headless.Base.OrderedMap.{find, emplace, Ascends, Below, Below-mono}
use mniam_headless.Connection.Requests.{ClientTransaction}
use mniam_headless.Connection.Clients.{Client}
use mniam_headless.Connection.Servers.{Run, schedule_all}
use mniam_headless.Connection.Runs.{
  Looped, IsRun, scheduled_cell, run_after, run_after-IsRun, skip-IsRun, find-run_after,
  schedule_all-Looped, schedule_all-cons, see_to_active, see_to_inactive,
}

-- The clients and their addresses when the loop of `runTransaction` starts at the address `n`.
unfoldable pub queued : List (ℕ × Client) → ℕ → List (ℕ × Client)
queued [] n = []
queued ((k, c) ∷ m) n =
    let used = queued m (suc n) in
    let unused = queued m n in
    if c.active
    then (k, record c { transactions = c.transactions ++ n ∷ [] }) ∷ used
    else (k, c) ∷ unused

unfoldable pub addressed : List (ℕ × Client) → ℕ → List (ℕ × ℕ)
addressed [] n = []
addressed ((k, c) ∷ m) n =
    let used = addressed m (suc n) in
    let unused = addressed m n in if c.active then (k, n) ∷ used else unused

abbrev pub Hold : ClientTransaction → List (ℕ × ClientTransaction) → List (ℕ × ℕ) → Type 0
Hold t cells owned = All (λ (e : ℕ × ℕ). find e.1 cells ≡ some t) owned

emplace-last : (k b a : ℕ) (m : List (ℕ × ℕ)) → Below k m → emplace k a m ≡ m ++ (k, a) ∷ []
unfolding emplace
emplace-last k b a [] h = refl
emplace-last k b a ((j, w) ∷ m) h = ground (arith, emplace-last k b a m)

append-cons : (xs ys : List (ℕ × ℕ)) (x : ℕ × ℕ) → (xs ++ x ∷ []) ++ ys ≡ xs ++ x ∷ ys
append-cons [] ys x = refl
append-cons (y ∷ xs) ys x = ap (◌∷◌ y) (append-cons xs ys x)

append-nil : (xs : List (ℕ × ℕ)) → xs ++ [] ≡ xs
append-nil [] = refl
append-nil (y ∷ xs) = ap (◌∷◌ y) (append-nil xs)

-- What the loop of `runTransaction` leaves.
pub record Handed (m : List (ℕ × Client)) (r : Run) (m' : List (ℕ × Client)) (r' : Run)
    : Type 0 where
  pub clients : m' ≡ queued m r.store.fresh
  pub owners :
      r'.transaction.client_transactions
      ≡ r.transaction.client_transactions ++ addressed m r.store.fresh
  pub cells : Hold (scheduled_cell r.transaction) r'.store.cells (addressed m r.store.fresh)

pub queued-active :
    (k n : ℕ) (c : Client) (m : List (ℕ × Client))
    → c.active ≡ true
    → queued ((k, c) ∷ m) n
      ≡ (k, record c { transactions = c.transactions ++ n ∷ [] }) ∷ queued m (suc n)
unfolding queued
queued-active k n c m on = ground arith

pub queued-inactive :
    (k n : ℕ) (c : Client) (m : List (ℕ × Client))
    → c.active ≡ false
    → queued ((k, c) ∷ m) n ≡ (k, c) ∷ queued m n
unfolding queued
queued-inactive k n c m off = ground arith

pub addressed-active :
    (k n : ℕ) (c : Client) (m : List (ℕ × Client))
    → c.active ≡ true
    → addressed ((k, c) ∷ m) n ≡ (k, n) ∷ addressed m (suc n)
unfolding addressed
addressed-active k n c m on = ground arith

pub addressed-inactive :
    (k n : ℕ) (c : Client) (m : List (ℕ × Client))
    → c.active ≡ false
    → addressed ((k, c) ∷ m) n ≡ addressed m n
unfolding addressed
addressed-inactive k n c m off = ground arith

active-Handed :
    (k b : ℕ) (c : Client) (m m' : List (ℕ × Client)) (r r' : Run)
    → c.active ≡ true
    → b ≤ k
    → IsRun b r
    → Looped (suc k) (run_after k r) r'
    → Handed m (run_after k r) m' r'
    → Handed
        ((k, c) ∷ m)
        r
        ((k, record c { transactions = c.transactions ++ r.store.fresh ∷ [] }) ∷ m')
        r'
active-Handed k b c m m' r r' on le h loop rest = record {
  clients =
      ap
        (λ (l : List (ℕ × Client)).
          (k, record c { transactions = c.transactions ++ r.store.fresh ∷ [] }) ∷ l)
        rest.clients
      ∙ sym (queued-active k r.store.fresh c m on);
  owners =
      rest.owners
      ∙ ap (λ l. l ++ addressed m (suc r.store.fresh))
          (emplace-last k k r.store.fresh r.transaction.client_transactions
            (Below-mono b k r.transaction.client_transactions le h.owners_below))
      ∙ append-cons r.transaction.client_transactions (addressed m (suc r.store.fresh))
          (k, r.store.fresh)
      ∙ ap (◌++◌ r.transaction.client_transactions) (sym (addressed-active k r.store.fresh c m on));
  cells =
      subst (Hold (scheduled_cell r.transaction) r'.store.cells)
        (sym (addressed-active k r.store.fresh c m on))
        (
          loop.old_cells r.store.fresh (omega arith)
              ∙ ground (arith, find-run_after r.store.fresh k b r h),
          rest.cells,
        );
}

inactive-Handed :
    (k : ℕ) (c : Client) (m m' : List (ℕ × Client)) (r r' : Run)
    → c.active ≡ false
    → Handed m r m' r'
    → Handed ((k, c) ∷ m) r ((k, c) ∷ m') r'
inactive-Handed k c m m' r r' off rest = record {
  clients =
      ap (λ (l : List (ℕ × Client)). (k, c) ∷ l) rest.clients
      ∙ sym (queued-inactive k r.store.fresh c m off);
  owners =
      rest.owners
      ∙ ap (◌++◌ r.transaction.client_transactions)
          (sym (addressed-inactive k r.store.fresh c m off));
  cells =
      subst (Hold (scheduled_cell r.transaction) r'.store.cells)
        (sym (addressed-inactive k r.store.fresh c m off)) rest.cells;
}

pub schedule_all-Handed :
    (b : ℕ) (m : List (ℕ × Client)) (r : Run)
    → Ascends b m
    → IsRun b r
    → Handed m r (schedule_all m r).0 (schedule_all m r).1
unfolding schedule_all queued addressed
schedule_all-Handed b [] r asc h = record {
  clients = refl;
  owners = sym (append-nil r.transaction.client_transactions);
  cells = tt;
}
schedule_all-Handed b ((k, c) ∷ m) r asc h = elim (Bool-cases c.active) [
  | inl on ↦
      let r1 = run_after k r in
      let rest = schedule_all-Handed (suc k) m r1 asc.1 (run_after-IsRun k b r asc.0 h) in
      let loop = schedule_all-Looped (suc k) m r1 asc.1 (run_after-IsRun k b r asc.0 h) in
      subst (λ p. Handed ((k, c) ∷ m) r p.0 p.1)
        (sym (schedule_all-cons k c _ m r r1 (see_to_active k c r on)))
        (active-Handed k b c m _ r _ on asc.0 h loop rest)
  | inr off ↦
      let rest = schedule_all-Handed (suc k) m r asc.1 (skip-IsRun k b r asc.0 h) in
      subst (λ p. Handed ((k, c) ∷ m) r p.0 p.1)
        (sym (schedule_all-cons k c c m r r (see_to_inactive k c r off)))
        (inactive-Handed k c m _ r _ off rest)
]
