-- ===== src/Connection/Rounds.antt =====
-- A round of every client's thread, one after another.
use mniam_headless.Base.{
  ℕ, suc, ◌+◌, ◌<◌, ◌≡◌, sym, subst, ◌∙◌, true, false, Bool-cases, inl, inr, List, [], ◌∷◌, Option,
  none, some, Bool, not, ◌&&◌, map, if◌then◌else◌, arith,
}
use mniam_headless.Base.OrderedMap.{find, assign, find-assign}
use mniam_headless.Connection.Requests.{Bytes, ClientTransaction}
use mniam_headless.Connection.Clients.{Client, Exchange, serve}
use mniam_headless.Connection.Transactions.{Store}
use mniam_headless.Connection.Thread.{Session, thread_step}
use mniam_headless.Connection.Exchanges.{succeeds}
use mniam_headless.Connection.Waiting.{Distinct}
use mniam_headless.Connection.References.{NotOwned}
use mniam_headless.Connection.Handing.{addressed, Hold, addressed-active, addressed-inactive}

-- The client waits for work, if it is active: its thread goes on and its queue is empty.
abbrev pub IsFree : Client → Type 0
IsFree c = c.active ≡ true → (c.stop_requested ≡ false) × (c.transactions ≡ [])

-- The thread goes on, and it has not been asked to stop.
abbrev pub is_listening : Client → Bool
is_listening c = c.active && not c.stop_requested

-- A client whose thread goes on has an empty queue.
abbrev pub IsReady : Client → Type 0
IsReady c = is_listening c ≡ true → c.transactions ≡ []

-- The clients' places in the map, and their own ids.
abbrev pub names : List (ℕ × Client) → List (ℕ × ℕ)
names = map (λ e. (e.0, e.1.client_id))

-- The clients with those alone as active whose threads serve a transaction.
abbrev pub as_heard : List (ℕ × Client) → List (ℕ × Client)
as_heard = map (λ e. (e.0, record e.1 { active = is_listening e.1 }))

-- What the rounds of several threads work on.
pub record Shared (V : Type 0) : Type 0 where
  pub store : Store
  pub kept : V

module _ {V : Type 0} (validator : ℕ → Bytes → V → V × Bool) (exchanges : ℕ → Exchange) where
  abbrev pub give_back : Option (Session V) → (Shared V → Option (Shared V)) → Option (Shared V)
  give_back none next = none
  give_back (some s) next = next (record { store = s.store; kept = s.kept })

  -- The thread of every active client makes a round, the clients in the order of their ids; `exchanges` is what the socket of each
  -- client answers in it.
  unfoldable pub turns : List (ℕ × Client) → Shared V → Option (Shared V)
  turns [] s = some s
  turns ((k, c) ∷ m) s =
      if c.active
      then give_back
          (thread_step validator 0 (exchanges k)
            (record { client = c; store = s.store; kept = s.kept }))
          (λ s'. turns m s')
      else turns m s

  -- How many of the active clients succeed with a transaction, what one keeps being there for the next.
  unfoldable pub successes : ClientTransaction → List (ℕ × Client) → V → ℕ
  successes t [] v = 0
  successes t ((k, c) ∷ m) v =
      let later = successes t m (serve validator (exchanges k) c t v).2 in
      let others = successes t m v in
      if c.active then (if succeeds validator (exchanges k) c t v then 1 else 0) + later else others

  -- What the validator keeps of the active clients' responses.
  unfoldable pub keeps_all : ClientTransaction → List (ℕ × Client) → V → V
  keeps_all t [] v = v
  keeps_all t ((k, c) ∷ m) v =
      let later = keeps_all t m (serve validator (exchanges k) c t v).2 in
      let others = keeps_all t m v in if c.active then later else others

pub addressed_above : (m : List (ℕ × Client)) (b n : ℕ) → b < n → NotOwned (addressed m n) b
unfolding addressed
addressed_above [] b n h = tt
addressed_above ((k, c) ∷ m) b n h = elim (Bool-cases c.active) [
  | inl on ↦
      subst (λ l. NotOwned l b) (sym (addressed-active k n c m on))
        (λ e. ground arith, addressed_above m b (suc n) (omega arith))
  | inr off ↦
      subst (λ l. NotOwned l b) (sym (addressed-inactive k n c m off)) (addressed_above m b n h)
]

pub addressed-Distinct : (m : List (ℕ × Client)) (n : ℕ) → Distinct (addressed m n)
unfolding addressed
addressed-Distinct [] n = tt
addressed-Distinct ((k, c) ∷ m) n = elim (Bool-cases c.active) [
  | inl on ↦
      subst Distinct (sym (addressed-active k n c m on))
        (addressed_above m n (suc n) (omega arith), addressed-Distinct m (suc n))
  | inr off ↦ subst Distinct (sym (addressed-inactive k n c m off)) (addressed-Distinct m n)
]

pub assign-Hold :
    (t w u : ClientTransaction) (a : ℕ) (cells : List (ℕ × ClientTransaction))
    (owned : List (ℕ × ℕ))
    → find a cells ≡ some w
    → NotOwned owned a
    → Hold t cells owned
    → Hold t (assign a u cells) owned
assign-Hold t w u a cells [] found apart h = tt
assign-Hold t w u a cells ((k, b) ∷ owned) found apart h = (
  find-assign b a u w cells found ∙ ground arith,
  assign-Hold t w u a cells owned found apart.1 h.1,
)
