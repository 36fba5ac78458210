-- ===== src/Amcom/Validation.antt =====
-- The validator of the transactions: when a response counts and which response is kept.
use mniam_headless.Base.{
  ℕ, ◌≡◌, refl, ap, Bool, true, false, ◌||◌, Bool-cases, inl, inr, List, [], ◌∷◌, Option, none,
  some, take, ◌==◌, if◌then◌else◌, arith,
}
use mniam_headless.Base.OrderedMap.{find, emplace, Ascends, find-emplace, emplace-Ascends}
use mniam_headless.Connection.{Bytes}
use mniam_headless.Amcom.Library.{Packet, Amcom, stub}
use mniam_headless.Amcom.Packets.{type_code}
use mniam_headless.Amcom.Transactions.{
  ResponseKind, Responses, packet_handler, handle_all, validate,
}

-- The first packet of the response type, if there is one.
unfoldable pub first_response : ResponseKind → List Packet → Option Packet
first_response kind [] = none
first_response kind (p ∷ ps) =
    if p.header.type == type_code kind.response_packet then some p else first_response kind ps

abbrev pub is_some : Option Packet → Bool
is_some none = false
is_some (some p) = true

abbrev pub payload_of : ResponseKind → Option Packet → Option Bytes
payload_of kind none = none
payload_of kind (some p) = some (take kind.payload_size p.payload)

abbrev pub or_else : Option Bytes → Option Bytes → Option Bytes
or_else (some b) o = some b
or_else none o = o

-- What the handler calls leave under an id `i`, when client `k` has answered.
abbrev pub answer_of : ResponseKind → ℕ → List Packet → ℕ → Option Bytes → Option Bytes
answer_of kind k ps i old =
    if k == i then or_else old (payload_of kind (first_response kind ps)) else old

handle_all-cons :
    (kind : ResponseKind) (k : ℕ) (p : Packet) (ps : List Packet) (s s' : Responses) (ok ok' : Bool)
    → packet_handler kind k p (s, ok) ≡ (s', ok')
    → handle_all kind k (p ∷ ps) (s, ok) ≡ handle_all kind k ps (s', ok')
unfolding handle_all
handle_all-cons kind k p ps s s' ok ok' e = ap (handle_all kind k ps) e

first_response-miss :
    (kind : ResponseKind) (p : Packet) (ps : List Packet)
    → (p.header.type == type_code kind.response_packet) ≡ false
    → first_response kind (p ∷ ps) ≡ first_response kind ps
unfolding first_response
first_response-miss kind p ps miss = ground arith

first_response-hit :
    (kind : ResponseKind) (p : Packet) (ps : List Packet)
    → (p.header.type == type_code kind.response_packet) ≡ true
    → first_response kind (p ∷ ps) ≡ some p
unfolding first_response
first_response-hit kind p ps hit = ground arith

handler_hit :
    (kind : ResponseKind) (k : ℕ) (p : Packet) (s : Responses) (ok : Bool)
    → (p.header.type == type_code kind.response_packet) ≡ true
    → packet_handler kind k p (s, ok) ≡ (emplace k (take kind.payload_size p.payload) s, true)
unfolding packet_handler
handler_hit kind k p s ok hit = ground arith

handler_miss :
    (kind : ResponseKind) (k : ℕ) (p : Packet) (s : Responses) (ok : Bool)
    → (p.header.type == type_code kind.response_packet) ≡ false
    → packet_handler kind k p (s, ok) ≡ (s, ok)
unfolding packet_handler
handler_miss kind k p s ok miss = ground arith

handle_all-Responses :
    (kind : ResponseKind) (k i : ℕ) (ps : List Packet) (s : Responses) (ok : Bool)
    → Ascends 0 s
    → ((handle_all kind k ps (s, ok)).1 ≡ (ok || is_some (first_response kind ps)))
      × (find i (handle_all kind k ps (s, ok)).0 ≡ answer_of kind k ps i (find i s))
handle_all-Responses kind k i [] s ok h =
    unfold handle_all first_response in (ground arith, ground arith)
handle_all-Responses kind k i (p ∷ ps) s ok h =
    let kept = take kind.payload_size p.payload in
    elim (Bool-cases (p.header.type == type_code kind.response_packet)) [
      | inl hit ↦
          let rest =
            handle_all-Responses kind k i ps (emplace k kept s) true
              (emplace-Ascends k 0 kept s (omega arith) h) in
          rw
            (
              handle_all-cons kind k p ps s _ ok true (handler_hit kind k p s ok hit),
              first_response-hit kind p ps hit,
            )
            (ground (arith, rest.0), ground (arith, rest.1, find-emplace i k 0 kept s h))
      | inr miss ↦
          rw
            (
              handle_all-cons kind k p ps s s ok ok (handler_miss kind k p s ok miss),
              first_response-miss kind p ps miss,
            )
            (handle_all-Responses kind k i ps s ok h)
    ]

-- With the responses in ascending order of the clients' ids, the verdict on a client's bytes is positive exactly if a packet of the response type is found in
-- them. Then the payload of the first such packet is kept as the client's response, unless there is
-- one from before, which stays. The responses of other clients do not change.
pub validate-Responses :
    {R : Type 0} (a : Amcom R) (kind : ResponseKind) (k i : ℕ) (bytes : Bytes) (s : Responses)
    → Ascends 0 s
    → let found = (a.deserialize a.init_receiver bytes).1 in
      ((validate a kind k bytes s).1 ≡ is_some (first_response kind found))
      × (find i (validate a kind k bytes s).0 ≡ answer_of kind k found i (find i s))
unfolding validate
validate-Responses a kind k i bytes s h = handle_all-Responses kind k i _ s false h

handle_all-verdict :
    (kind : ResponseKind) (k : ℕ) (ps : List Packet) (s : Responses) (ok : Bool)
    → (handle_all kind k ps (s, ok)).1 ≡ (ok || is_some (first_response kind ps))
handle_all-verdict kind k [] s ok = unfold handle_all first_response in ground arith
handle_all-verdict kind k (p ∷ ps) s ok =
    let kept = take kind.payload_size p.payload in
    elim (Bool-cases (p.header.type == type_code kind.response_packet)) [
      | inl hit ↦
          rw
            (
              handle_all-cons kind k p ps s _ ok true (handler_hit kind k p s ok hit),
              first_response-hit kind p ps hit,
            )
            (ground (arith, handle_all-verdict kind k ps (emplace k kept s) true))
      | inr miss ↦
          rw
            (
              handle_all-cons kind k p ps s s ok ok (handler_miss kind k p s ok miss),
              first_response-miss kind p ps miss,
            )
            (handle_all-verdict kind k ps s ok)
    ]

-- The verdict on a client's bytes, whatever was kept before.
pub validate-verdict :
    {R : Type 0} (a : Amcom R) (kind : ResponseKind) (k : ℕ) (bytes : Bytes) (s : Responses)
    → (validate a kind k bytes s).1
      ≡ is_some (first_response kind (a.deserialize a.init_receiver bytes).1)
unfolding validate
validate-verdict a kind k bytes s =
    handle_all-verdict kind k (a.deserialize a.init_receiver bytes).1 s false

-- With the packet library as the repository leaves it, no response is ever valid.
pub stub-validate :
    (kind : ResponseKind) (k : ℕ) (bytes : Bytes) (s : Responses)
    → validate stub kind k bytes s ≡ (s, false)
unfolding validate stub
stub-validate kind k bytes s = refl

handle_all-Ascends :
    (kind : ResponseKind) (k : ℕ) (ps : List Packet) (s : Responses) (ok : Bool)
    → Ascends 0 s
    → Ascends 0 (handle_all kind k ps (s, ok)).0
handle_all-Ascends kind k [] s ok h = unfold handle_all in h
handle_all-Ascends kind k (p ∷ ps) s ok h =
    elim (Bool-cases (p.header.type == type_code kind.response_packet)) [
      | inl hit ↦ rw (handle_all-cons kind k p ps s _ ok true (handler_hit kind k p s ok hit)) (
          handle_all-Ascends kind k ps _ true
            (emplace-Ascends k 0 (take kind.payload_size p.payload) s (omega arith) h))
      | inr miss ↦
          rw (handle_all-cons kind k p ps s s ok ok (handler_miss kind k p s ok miss))
            (handle_all-Ascends kind k ps s ok h)
    ]

pub validate-Ascends :
    {R : Type 0} (a : Amcom R) (kind : ResponseKind) (k : ℕ) (bytes : Bytes) (s : Responses)
    → Ascends 0 s
    → Ascends 0 (validate a kind k bytes s).0
unfolding validate
validate-Ascends a kind k bytes s h =
    handle_all-Ascends kind k (a.deserialize a.init_receiver bytes).1 s false h
