-- ===== src/Connection/Turns.antt =====
-- The turn of one client, between those of the clients before it and after it.
use mniam_headless.Base.{
  ℕ, suc, ◌+◌, ◌<◌, ◌≡◌, refl, ap, sym, ◌∙◌, true, false, List, [], ◌∷◌, ◌++◌, Option, some, Bool,
  if◌then◌else◌, arith,
}
use mniam_headless.Base.OrderedMap.{find, assign, find-assign}
use mniam_headless.Connection.Requests.{Bytes, ClientTransaction}
use mniam_headless.Connection.Clients.{Client, Exchange, serve}
use mniam_headless.Connection.Transactions.{Transaction}
use mniam_headless.Connection.Thread.{Session, serve_at, thread_step}
use mniam_headless.Connection.Exchanges.{succeeds, serve_outcome}
use mniam_headless.Connection.Runs.{scheduled_cell}
use mniam_headless.Connection.Completion.{thread_step-one, answered_if}
use mniam_headless.Connection.Waiting.{answered, answers}
use mniam_headless.Connection.Handing.{
  queued, addressed, queued-active, queued-inactive, addressed-active, addressed-inactive,
}
use mniam_headless.Connection.Rounds.{IsFree, Shared, give_back, turns}

-- What the rounds make of the clients' transactions, which stand from the address `n` on.
pub record Turned {V : Type 0} (m : List (ℕ × Client)) (n count : ℕ) (kept : V) (s : Shared V)
    (o : Option (Shared V)) : Type 0 where
  pub after : Shared V
  pub result : o ≡ some after
  pub old_cells : (a : ℕ) → a < n → find a after.store.cells ≡ find a s.store.cells
  pub count_right : answers (addressed m n) after.store.cells ≡ count
  pub kept_right : after.kept ≡ kept

module _ {V : Type 0} (validator : ℕ → Bytes → V → V × Bool) (exchanges : ℕ → Exchange)
    (t : Transaction) where
  -- The turn of the client that was handed the address `n`.
  unfoldable pub served : ℕ → Client → V → Client × ClientTransaction × V
  served k c v = serve validator (exchanges k) c (scheduled_cell t) v

  unfoldable pub after_turn : ℕ → ℕ → Client → Shared V → Shared V
  after_turn k n c s = record {
    store = record s.store { cells = assign n (served k c s.kept).1 s.store.cells };
    kept = (served k c s.kept).2;
  }

  turn :
      (k n : ℕ) (c : Client) (m : List (ℕ × Client)) (s : Shared V)
      → c.active ≡ true
      → IsFree c
      → find n s.store.cells ≡ some (scheduled_cell t)
      → turns validator exchanges ((k, record c { transactions = c.transactions ++ n ∷ [] }) ∷ m) s
        ≡ turns validator exchanges m (after_turn k n c s)
  unfolding turns after_turn served serve_at
  turn k n c m s on free found =
      let c' : Client = record c { transactions = c.transactions ++ n ∷ [] } in
      let session : Session V = record { client = c'; store = s.store; kept = s.kept } in
      let e =
        thread_step-one validator 0 (exchanges k) session n (scheduled_cell t) (free on).0
          (ap (λ l. l ++ n ∷ []) (free on).1) found in
      let next = λ (s' : Shared V). turns validator exchanges m s' in
      ap
        (λ b.
          if b
          then give_back validator exchanges (thread_step validator 0 (exchanges k) session) next
          else turns validator exchanges m s)
        on
      ∙ ap (λ o. give_back validator exchanges o next) e
      ∙ ap
          (λ q.
            give_back validator exchanges
              (serve_at validator (exchanges k) n (some (scheduled_cell t))
                (record { client = record c { transactions = q }; store = s.store; kept = s.kept }))
              next)
          (sym (free on).1)

  served-answered :
      (k : ℕ) (c : Client) (v : V)
      → answered (some (served k c v).1)
        ≡ (if succeeds validator (exchanges k) c (scheduled_cell t) v then 1 else 0)
  unfolding served
  served-answered k c v =
      let outcome = serve_outcome validator (exchanges k) c (scheduled_cell t) v refl in
      answered_if (served k c v).1 (succeeds validator (exchanges k) c (scheduled_cell t) v)
        outcome.0 outcome.1

  turns_past :
      (k : ℕ) (c : Client) (m : List (ℕ × Client)) (s : Shared V)
      → c.active ≡ false
      → turns validator exchanges ((k, c) ∷ m) s ≡ turns validator exchanges m s
  unfolding turns
  turns_past k c m s off = ground arith

  pub skipped :
      (k n count : ℕ) (kept : V) (c : Client) (m : List (ℕ × Client)) (s : Shared V)
      → c.active ≡ false
      → Turned m n count kept s (turns validator exchanges (queued m n) s)
      → Turned ((k, c) ∷ m) n count kept s (turns validator exchanges (queued ((k, c) ∷ m) n) s)
  skipped k n count kept c m s off rest = record {
    after = rest.after;
    result =
        ap (λ l. turns validator exchanges l s) (queued-inactive k n c m off)
        ∙ turns_past k c (queued m n) s off
        ∙ rest.result;
    old_cells = rest.old_cells;
    kept_right = rest.kept_right;
    count_right =
        ap (λ l. answers l rest.after.store.cells) (addressed-inactive k n c m off)
        ∙ rest.count_right;
  }

  pub turned :
      (k n count : ℕ) (kept : V) (c : Client) (m : List (ℕ × Client)) (s : Shared V)
      → c.active ≡ true
      → IsFree c
      → find n s.store.cells ≡ some (scheduled_cell t)
      → Turned m
          (suc n)
          count
          kept
          (after_turn k n c s)
          (turns validator exchanges (queued m (suc n)) (after_turn k n c s))
      → Turned
          ((k, c) ∷ m)
          n
          ((if succeeds validator (exchanges k) c (scheduled_cell t) s.kept then 1 else 0) + count)
          kept
          s
          (turns validator exchanges (queued ((k, c) ∷ m) n) s)
  unfolding after_turn
  turned k n count kept c m s on free found rest =
      let at_once =
        λ (a : ℕ). find-assign a n (served k c s.kept).1 (scheduled_cell t) s.store.cells found in
      let now_served : find n rest.after.store.cells ≡ some (served k c s.kept).1 =
        rest.old_cells n (omega arith) ∙ at_once n ∙ ground arith in
      record {
        after = rest.after;
        result =
            ap (λ l. turns validator exchanges l s) (queued-active k n c m on)
            ∙ turn k n c (queued m (suc n)) s on free found
            ∙ rest.result;
        old_cells = λ a lt. rest.old_cells a (omega arith) ∙ at_once a ∙ ground arith;
        kept_right = rest.kept_right;
        count_right =
            ap (λ l. answers l rest.after.store.cells) (addressed-active k n c m on)
            ∙ (unfold answers in
                omega
                  (arith, ap answered now_served, served-answered k c s.kept, rest.count_right));
      }
