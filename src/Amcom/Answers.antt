-- ===== src/Amcom/Answers.antt =====
-- The responses that an `AMCOMTransaction` (src/amcom_transactions.h) has kept after the server ran
-- it with all clients.
use mniam_headless.Base.{
  ℕ, suc, ◌<◌, ◌≡◌, refl, ap, sym, ◌∙◌, Bool, true, false, ◌&&◌, Bool-cases, inl, inr, List, [],
  ◌∷◌, Option, none, some, take, ◌==◌, if◌then◌else◌, arith,
}
use mniam_headless.Base.OrderedMap.{find, Ascends, find-Ascends}
use mniam_headless.Connection.{Bytes, Client, Exchange, Transaction, new_client_transaction, serve}
use mniam_headless.Connection.Exchanges.{is_sent, is_read, serve-kept}
use mniam_headless.Connection.Membership.{Named}
use mniam_headless.Connection.Runs.{scheduled_cell}
use mniam_headless.Connection.Group.{keeps_all-active, keeps_all-inactive}
use mniam_headless.Connection.Rounds.{keeps_all}
use mniam_headless.Amcom.Library.{Amcom}
use mniam_headless.Amcom.Transactions.{ResponseKind, Responses, validate}
use mniam_headless.Amcom.Validation.{
  first_response, payload_of, or_else, validate-Responses, validate-Ascends,
}

module _ {R : Type 0} (a : Amcom R) (kind : ResponseKind) (exchanges : ℕ → Exchange)
    (t : Transaction) where
  -- What an active client answers: the first response of the right type in what is read from its socket,
  -- if the request was written whole and as many bytes were read as were asked for.
  abbrev pub answer_in : Exchange → Option Bytes
  answer_in x =
      if is_sent x (scheduled_cell t) && is_read x (scheduled_cell t)
      then payload_of kind
          (first_response kind (a.deserialize a.init_receiver (take t.response_size x.read_data)).1)
      else none

  abbrev pub client_answer : ℕ → Option Client → Option Bytes
  client_answer k none = none
  client_answer k (some c) = if c.active then answer_in (exchanges k) else none

  or_else-none : (o : Option Bytes) → or_else o none ≡ o
  or_else-none none = refl
  or_else-none (some b) = refl

  find-serve :
      (x : Exchange) (c : Client) (i : ℕ) (v : Responses)
      → Ascends 0 v
      → 0 < t.response_size
      → find i (serve (validate a kind) x c (scheduled_cell t) v).2
        ≡ (if c.client_id == i then or_else (find i v) (answer_in x) else find i v)
  unfolding new_client_transaction
  find-serve x c i v asc more =
      let e =
        ap (λ r. find i r) (serve-kept (validate a kind) x c (scheduled_cell t) v refl more) in
      e
      ∙ ground (
        arith,
        (validate-Responses a kind c.client_id i (take t.response_size x.read_data) v asc).1,
      )

  serve-Ascends :
      (x : Exchange) (c : Client) (v : Responses)
      → Ascends 0 v
      → 0 < t.response_size
      → Ascends 0 (serve (validate a kind) x c (scheduled_cell t) v).2
  unfolding new_client_transaction
  serve-Ascends x c v asc more =
      rw (serve-kept (validate a kind) x c (scheduled_cell t) v refl more) (
        ground
          (arith, validate-Ascends a kind c.client_id (take t.response_size x.read_data) v asc))

  client_answer_here :
      (i k : ℕ) (c : Client) (m : List (ℕ × Client))
      → (k == i) ≡ true
      → client_answer i (find i ((k, c) ∷ m)) ≡ (if c.active then answer_in (exchanges k) else none)
  unfolding find
  client_answer_here i k c m hit =
      let same : i ≡ k = ground arith in
      ap (λ b. client_answer i (if b then some c else find i m)) hit
      ∙ ap (λ j. if c.active then answer_in (exchanges j) else none) same

  client_answer_later :
      (i k : ℕ) (c : Client) (m : List (ℕ × Client))
      → (k == i) ≡ false
      → client_answer i (find i ((k, c) ∷ m)) ≡ client_answer i (find i m)
  unfolding find
  client_answer_later i k c m miss = ap (λ b. client_answer i (if b then some c else find i m)) miss

  -- One client and those after it.
  merge_step :
      (i k : ℕ) (c : Client) (m : List (ℕ × Client)) (old : Option Bytes)
      → c.active ≡ true
      → c.client_id ≡ k
      → Ascends (suc k) m
      → or_else
          (if c.client_id == i then or_else old (answer_in (exchanges k)) else old)
          (client_answer i (find i m))
        ≡ or_else old (client_answer i (find i ((k, c) ∷ m)))
  merge_step i k c m old on name order =
      let first = or_else old (answer_in (exchanges k)) in
      let named = λ (b : Bool). λ (e : (k == i) ≡ b).
        ap (λ (q : Bool). or_else (if q then first else old) (client_answer i (find i m)))
          (ap (λ j. j == i) name ∙ e) in
      elim (Bool-cases (k == i)) [
        | inl hit ↦
            named true hit
            ∙ ap (λ o. or_else first (client_answer i o))
                (find-Ascends i (suc k) m (ground arith) order)
            ∙ or_else-none first
            ∙ sym (
                ap (or_else old) (
                  client_answer_here i k c m hit
                  ∙ ap (λ (q : Bool). if q then answer_in (exchanges k) else none) on))
        | inr miss ↦ named false miss ∙ sym (ap (or_else old) (client_answer_later i k c m miss))
      ]

  skip_step :
      (i k : ℕ) (c : Client) (m : List (ℕ × Client)) (old : Option Bytes)
      → c.active ≡ false
      → Ascends (suc k) m
      → or_else old (client_answer i (find i m))
        ≡ or_else old (client_answer i (find i ((k, c) ∷ m)))
  skip_step i k c m old off order = elim (Bool-cases (k == i)) [
    | inl hit ↦
        ap (λ o. or_else old (client_answer i o)) (find-Ascends i (suc k) m (ground arith) order)
        ∙ sym (
            ap (or_else old) (
              client_answer_here i k c m hit
              ∙ ap (λ (q : Bool). if q then answer_in (exchanges k) else none) off))
    | inr miss ↦ sym (ap (or_else old) (client_answer_later i k c m miss))
  ]

  pub find-keeps_all :
      (b i : ℕ) (m : List (ℕ × Client)) (v : Responses)
      → Ascends b m
      → Named m
      → Ascends 0 v
      → 0 < t.response_size
      → find i (keeps_all (validate a kind) exchanges (scheduled_cell t) m v)
        ≡ or_else (find i v) (client_answer i (find i m))
  find-keeps_all b i [] v order named asc more =
      unfold keeps_all find in sym (or_else-none (find i v))
  find-keeps_all b i ((k, c) ∷ m) v order named asc more = elim (Bool-cases c.active) [
    | inl on ↦
        let v' = (serve (validate a kind) (exchanges k) c (scheduled_cell t) v).2 in
        ap (λ r. find i r) (keeps_all-active (validate a kind) exchanges t k c m v on)
        ∙ find-keeps_all (suc k) i m v' order.1 named.1 (serve-Ascends (exchanges k) c v asc more)
            more
        ∙ ap (λ o. or_else o (client_answer i (find i m))) (find-serve (exchanges k) c i v asc more)
        ∙ merge_step i k c m (find i v) on named.0 order.1
    | inr off ↦
        ap (λ r. find i r) (keeps_all-inactive (validate a kind) exchanges t k c m v off)
        ∙ find-keeps_all (suc k) i m v order.1 named.1 asc more
        ∙ skip_step i k c m (find i v) off order.1
  ]
