-- ===== src/Game/Answering.antt =====
-- What the clients answer in one `update` (src/amgame.cpp), read off their sockets: an independent
-- description of what the server, the threads and the validators bring about.
use mniam_headless.Base.{
  ℕ, suc, ◌≡◌, refl, ap, sym, ◌∙◌, Bool, false, ◌&&◌, Bool-cases, inl, inr, List, [], ◌∷◌, map,
  Option, none, some, take, ◌==◌, if◌then◌else◌, arith,
}
use mniam_headless.Base.OrderedMap.{find, Ascends, find-Ascends}
use mniam_headless.Engine.{FloatOps}
use mniam_headless.Connection.{
  Bytes, Client, Exchange, to_size_t, get_clients, new_client_transaction,
}
use mniam_headless.Connection.Membership.{Named}
use mniam_headless.Connection.Rounds.{is_listening, as_heard, keeps_all}
use mniam_headless.Connection.Runs.{scheduled_cell}
use mniam_headless.Connection.Telling.{map-Ascends}
use mniam_headless.Amcom.{
  Amcom, IsAmcom, Responses, move_kind, move_transaction, validate, get_angle, angle_or_zero,
}
use mniam_headless.Amcom.Answers.{answer_in, client_answer, find-keeps_all}
use mniam_headless.Amcom.Requests.{transactions-IsWhole}
use mniam_headless.Amcom.Validation.{first_response, payload_of, or_else}
use mniam_headless.Game.Phases.{Outside}
use mniam_headless.Game.Entering.{takes_part_in}
use mniam_headless.Game.Serving.{Circumstances, Program, arrive, seen, update_served}

module _ {R : Type 0} (a : Amcom R) where
  -- The answer to a MOVE request: the first MOVE.response in what is read, if the whole request is
  -- written and as many bytes are read as a response has.
  abbrev pub move_reply : Exchange → Option Bytes
  move_reply x =
      if (9 == to_size_t x.written) && (9 == to_size_t x.read_count)
      then payload_of move_kind
          (first_response move_kind (a.deserialize a.init_receiver (take 9 x.read_data)).1)
      else none

  abbrev pub reply_of : Exchange → Option Client → Option Bytes
  reply_of x none = none
  reply_of x (some c) = if is_listening c then move_reply x else none

  abbrev pub with_reply : ℕ → Option Bytes → Responses → Responses
  with_reply k none rs = rs
  with_reply k (some b) rs = (k, b) ∷ rs

  -- The answers of the clients whose threads go on.
  unfoldable pub move_replies : (ℕ → Exchange) → List (ℕ × Client) → Responses
  move_replies sockets [] = []
  move_replies sockets ((k, c) ∷ m) =
      with_reply k (reply_of (sockets k) (some c)) (move_replies sockets m)

  or_none : (o : Option Bytes) → or_else o none ≡ o
  or_none none = refl
  or_none (some b) = refl

  find-with_reply :
      (i k : ℕ) (o : Option Bytes) (rs : Responses)
      → find i (with_reply k o rs) ≡ (if k == i then or_else o (find i rs) else find i rs)
  unfolding find
  find-with_reply i k none rs = ground arith
  find-with_reply i k (some b) rs = refl

  find-move_replies :
      (i b : ℕ) (sockets : ℕ → Exchange) (m : List (ℕ × Client))
      → Ascends b m
      → find i (move_replies sockets m) ≡ reply_of (sockets i) (find i m)
  unfolding find move_replies
  find-move_replies i b sockets [] order = refl
  find-move_replies i b sockets ((k, c) ∷ m) order =
      let rest = find-move_replies i (suc k) sockets m order.1 in
      let split = find-with_reply i k (reply_of (sockets k) (some c)) (move_replies sockets m) in
      elim (Bool-cases (k == i)) [
        | inl hit ↦
            let same : k ≡ i = ground arith in
            let absent : find i m ≡ none = find-Ascends i (suc k) m (omega (arith, same)) order.1 in
            let last : find i (move_replies sockets m) ≡ none =
              rest ∙ ap (reply_of (sockets i)) absent in
            split
            ∙ ap
                (λ (q : Bool).
                  if q
                  then or_else (reply_of (sockets k) (some c)) (find i (move_replies sockets m))
                  else find i (move_replies sockets m))
                hit
            ∙ ap (or_else (reply_of (sockets k) (some c))) last
            ∙ or_none (reply_of (sockets k) (some c))
            ∙ ap (λ j. reply_of (sockets j) (some c)) same
            ∙ sym (ap (λ (q : Bool). reply_of (sockets i) (if q then some c else find i m)) hit)
        | inr miss ↦ split ∙ simp miss rest
      ]

  module _ (h : IsAmcom a) (buffer : Bytes) (sockets : ℕ → Exchange) (game_time : ℕ) where
    answer_in-move_reply :
        (x : Exchange)
        → answer_in a move_kind sockets (move_transaction a buffer game_time) x ≡ move_reply x
    unfolding new_client_transaction
    answer_in-move_reply x =
        let (_, _, (_, size, response)) = transactions-IsWhole a h buffer 0 0 game_time in
        simp (size, response) refl

    client_answer-reply_of :
        (k b : ℕ) (m : List (ℕ × Client))
        → client_answer a move_kind sockets
            (move_transaction a buffer game_time)
            k
            (find k (as_heard m))
          ≡ reply_of (sockets k) (find k m)
    unfolding find
    client_answer-reply_of k b [] = refl
    client_answer-reply_of k b ((j, c) ∷ m) = elim (Bool-cases (j == k)) [
      | inl hit ↦
          simp hit (ap (λ o. if is_listening c then o else none) (answer_in-move_reply (sockets k)))
      | inr miss ↦ simp miss (client_answer-reply_of k b m)
    ]

    as_heard-Named : (m : List (ℕ × Client)) → Named m → Named (as_heard m)
    as_heard-Named [] named = tt
    as_heard-Named ((k, c) ∷ m) named = (named.0, as_heard-Named m named.1)

    -- What the validator has kept after the round gives every player the angle of its client's answer.
    pub get_angle-move_replies :
        (k : ℕ) (m : List (ℕ × Client)) (kept : Responses)
        → Ascends 0 m
        → Named m
        → kept
          ≡ keeps_all
              (validate a move_kind)
              sockets
              (scheduled_cell (move_transaction a buffer game_time))
              (as_heard m)
              []
        → get_angle k kept ≡ get_angle k (move_replies sockets m)
    unfolding get_angle find
    get_angle-move_replies k m kept order named e =
        let t = move_transaction a buffer game_time in
        let (_, _, (_, _, response)) = transactions-IsWhole a h buffer 0 0 game_time in
        ap angle_or_zero (
          ap (find k) e
          ∙ find-keeps_all a move_kind sockets t 0 k (as_heard m) []
              (map-Ascends {A = Client} {B = Client} (λ e. record e.1 { active = is_listening e.1 })
                0 m order)
              (as_heard-Named m named) tt (omega (arith, response))
          ∙ client_answer-reply_of k 0 m
          ∙ sym (find-move_replies k 0 sockets m order))

-- The circumstances as the game sees them, when the server's clients are those of `p`.
unfoldable pub heard_from :
    {R : Type 0} → Amcom R → Bytes → FloatOps → Circumstances → Program → Outside
unfolding get_clients
heard_from a buffer f c p =
    let ids = map (λ i. i.client_id) (get_clients 0 p.server) in
    let o = (seen c [] (λ k. false) []).answers in
    seen c ids (takes_part_in a (c.sockets 0) buffer f o p.server)
      (move_replies a (c.sockets 0) p.server.clients)

-- The program when those who connect before an update are there.
abbrev pub with_arrivals : Circumstances → Program → Program
with_arrivals c p = record p { server = arrive c.arrivals p.server }

abbrev pub then_heard : Option Program → (Program → List Outside) → List Outside
then_heard none next = []
then_heard (some p) next = next p

-- What the game hears in one update after another.
unfoldable pub heard_along :
    {R : Type 0} → Amcom R → Bytes → FloatOps → List Circumstances → Program → List Outside
heard_along a buffer f [] p = []
heard_along a buffer f (c ∷ cs) p =
    heard_from a buffer f c (with_arrivals c p)
    ∷ then_heard (update_served a buffer f c p) (λ q. heard_along a buffer f cs q)
