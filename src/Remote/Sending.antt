-- ===== src/Remote/Sending.antt =====
-- What the loop of a remote connection sends for one set-up of a transaction.
use mniam_headless.Base.{
  ℕ, zero, suc, ◌≤◌, ◌≡◌, ◌⊎◌, refl, ap, ◌∙◌, true, false, Bool-cases, inl, inr, List, [], ◌∷◌,
  ◌++◌, some, length, length-append, take, drop, All, ◌==◌, ltb, leb, if◌then◌else◌, arith,
}
use mniam_headless.Connection.{Bytes, to_size_t}
use mniam_headless.Amcom.{
  Amcom, Packet, PacketType, no_packet, identify_request, identify_response, new_game_request,
  new_game_response, player_update_request, food_update_request, move_request, move_response,
  game_over_request, game_over_response, max_player_updates, max_food_updates, max_packet_size,
}
use mniam_headless.Remote.Transaction.{
  RemoteTransaction, is_pending, get_request_to_send, indicate_transmission, indicate_reception,
}
use mniam_headless.Remote.Connection.{
  Remote, Round, drain, keep_response, packet_received, all_received, transmitted, send_packet,
  send_request, deliver, receive_available, run_round, run_rounds, and_later, continue,
}

pub drain-take {ℓ} : {A : Type ℓ} (n : ℕ) (xs : List A) → drain n xs ≡ (take n xs, drop n xs)
unfolding drain
drain-take zero xs = refl
drain-take (suc n) [] = refl
drain-take (suc n) (x ∷ xs) = rw (drain-take n xs)

-- What `recv` returned is a number of bytes that the buffer has room for.
abbrev pub IsReceived : Round → Type 0
IsReceived r = to_size_t r.received ≤ max_packet_size

indicate_reception-pending :
    (now type : ℕ) (t : RemoteTransaction)
    → is_pending t.state ≡ false
    → is_pending (indicate_reception now type t).state ≡ false
unfolding indicate_reception
indicate_reception-pending now type t h = ground arith

transmission-pending :
    (now : ℕ) (t : RemoteTransaction) → is_pending (indicate_transmission now t).state ≡ false
unfolding indicate_transmission
transmission-pending now t = ground arith

module _ {R : Type 0} where
  -- No request is waiting to be sent.
  abbrev IsQuiet : Remote R → Type 0
  IsQuiet c = is_pending c.remote_transaction.state ≡ false

  pub keep_response-transaction :
      (p : Packet) (c : Remote R) → (keep_response p c).remote_transaction ≡ c.remote_transaction
  unfolding keep_response
  keep_response-transaction p c = ground arith

  packet_received-IsQuiet :
      (now : ℕ) (p : Packet) (c : Remote R) → IsQuiet c → IsQuiet (packet_received now p c)
  unfolding packet_received
  packet_received-IsQuiet now p c h =
      rw (keep_response-transaction p c)
        (indicate_reception-pending now p.header.type c.remote_transaction h)

  all_received-IsQuiet :
      (now : ℕ) (ps : List Packet) (c : Remote R) → IsQuiet c → IsQuiet (all_received now ps c)
  unfolding all_received
  all_received-IsQuiet now [] c h = h
  all_received-IsQuiet now (p ∷ ps) c h =
      all_received-IsQuiet now ps (packet_received now p c) (packet_received-IsQuiet now p c h)

  transmitted-IsQuiet : (r : Round) (c : Remote R) → IsQuiet (transmitted r c)
  unfolding transmitted
  transmitted-IsQuiet r c = transmission-pending r.sent_at c.remote_transaction

module _ {R : Type 0} (a : Amcom R) where
  -- Either nothing is sent and nothing changes, or one packet is sent for a request that was waiting
  -- and is not any more.
  record IsSending (c c' : Remote R) (sent : List Bytes) : Type 0 where
    pub at_most_one : length sent ≤ 1
    pub quiet_after : IsQuiet c → IsQuiet c'
    pub quiet_once : (sent ≡ []) ⊎ IsQuiet c'

  one_sent : (r : Round) (c c0 : Remote R) (b : Bytes) → IsSending c (transmitted r c0) (b ∷ [])
  one_sent r c c0 b = record {
    at_most_one = omega arith;
    quiet_after = λ h. transmitted-IsQuiet r c0;
    quiet_once = inr (transmitted-IsQuiet r c0);
  }

  none_sent : (c : Remote R) → IsSending c c []
  none_sent c = record { at_most_one = omega arith; quiet_after = λ h. h; quiet_once = inl refl }

  send_packet-IsSending :
      (r : Round) (q : PacketType) (c : Remote R)
      → IsSending c (send_packet a r q c).0 (send_packet a r q c).1
  send_packet-IsSending r no_packet c = none_sent c
  send_packet-IsSending r identify_request c = one_sent r c c _
  send_packet-IsSending r identify_response c = none_sent c
  send_packet-IsSending r new_game_request c = one_sent r c c _
  send_packet-IsSending r new_game_response c = none_sent c
  send_packet-IsSending r player_update_request c =
      one_sent r c (record c { player_queue = (drain max_player_updates c.player_queue).1 }) _
  send_packet-IsSending r food_update_request c =
      one_sent r c (record c { food_queue = (drain max_food_updates c.food_queue).1 }) _
  send_packet-IsSending r move_request c = one_sent r c c _
  send_packet-IsSending r move_response c = none_sent c
  send_packet-IsSending r game_over_request c = none_sent c
  send_packet-IsSending r game_over_response c = none_sent c

  send_quiet : (r : Round) (c : Remote R) → IsQuiet c → send_request a r c ≡ (c, [])
  unfolding send_request get_request_to_send
  send_quiet r c h = rw h

  receive-IsQuiet :
      (r : Round) (c : Remote R)
      → IsReceived r
      → (c' : Remote R) × (receive_available a r c ≡ some c') × (IsQuiet c → IsQuiet c')
  unfolding receive_available deliver
  receive-IsQuiet r c fits =
      let n = to_size_t r.received in
      let got = a.deserialize c.am_receiver (take n r.read_data) in
      elim (Bool-cases (r.available == 0)) [
        | inl nothing ↦ (c, rw nothing, λ h. h)
        | inr some_bytes ↦ elim (Bool-cases (ltb 0 n)) [
          | inl read ↦
              let room : leb n max_packet_size ≡ true = ground arith in
              (
                all_received r.read_at got.1 (record c { am_receiver = got.0 }),
                rw (some_bytes, read, room),
                λ h. all_received-IsQuiet r.read_at got.1 (record c { am_receiver = got.0 }) h,
              )
          | inr closed ↦ (c, rw (some_bytes, closed), λ h. h)
        ]
      ]

  run_rounds-cons :
      (r : Round) (rs : List Round) (c c2 c3 : Remote R) (sent later : List Bytes)
      → c.alive ≡ true
      → run_round a r c ≡ some (c2, sent)
      → run_rounds a rs c2 ≡ some (c3, later)
      → run_rounds a (r ∷ rs) c ≡ some (c3, sent ++ later)
  unfolding run_rounds
  run_rounds-cons r rs c c2 c3 sent later on round rest =
      ap (λ b. if b then continue a (λ c'. run_rounds a rs c') (run_round a r c) else some (c, []))
        on
      ∙ ap (continue a (λ c'. run_rounds a rs c')) round
      ∙ ap (and_later a sent) rest

  run_rounds-stop :
      (r : Round) (rs : List Round) (c : Remote R)
      → c.alive ≡ false
      → run_rounds a (r ∷ rs) c ≡ some (c, [])
  unfolding run_rounds
  run_rounds-stop r rs c off =
      ap (λ b. if b then continue a (λ c'. run_rounds a rs c') (run_round a r c) else some (c, []))
        off

  -- What the loop comes to.
  record HasRun (rs : List Round) (c : Remote R) : Type 0 where
    pub after : Remote R
    pub sent : List Bytes
    pub ends : run_rounds a rs c ≡ some (after, sent)
    pub once : length sent ≤ 1
    pub quiet : IsQuiet c → sent ≡ []

  run_rounds-HasRun : (rs : List Round) (c : Remote R) → All IsReceived rs → HasRun rs c
  unfolding run_rounds
  run_rounds-HasRun [] c fits = record {
    after = c;
    sent = [];
    ends = refl;
    once = omega arith;
    quiet = λ h. refl;
  }
  run_rounds-HasRun (r ∷ rs) c fits =
      let (c1, sent) = send_request a r c in
      let sending : IsSending c c1 sent =
        unfold send_request in
        send_packet-IsSending r (get_request_to_send c.remote_transaction) c in
      let (c2, got, keeps) = receive-IsQuiet r c1 fits.0 in
      let round : run_round a r c ≡ some (c2, sent) = unfold run_round in rw got in
      let rest = run_rounds-HasRun rs c2 fits.1 in
      let total = length-append sent rest.sent in
      elim (Bool-cases c.alive) [
        | inl on ↦ record {
          after = rest.after;
          sent = sent ++ rest.sent;
          ends = run_rounds-cons r rs c c2 rest.after sent rest.sent on round rest.ends;
          once = elim sending.quiet_once [
            | inl none_now ↦ rw none_now rest.once
            | inr quiet_now ↦
                let none_later = rest.quiet (keeps quiet_now) in
                omega (arith, total, ap length none_later, sending.at_most_one)
          ];
          quiet = λ h.
              let none_now : sent ≡ [] = ap (λ p. p.1) (send_quiet r c h) in
              rw (none_now, rest.quiet (keeps (sending.quiet_after h)));
        }
        | inr off ↦ record {
          after = c;
          sent = [];
          ends = run_rounds-stop r rs c off;
          once = omega arith;
          quiet = λ h. refl;
        }
      ]

  -- However many rounds the loop runs, if `recv` returns no error and no more than the buffer holds, the
  -- loop has a result, and the packets that it sends are at most one for the transaction that was set up.
  pub run_rounds_once :
      (rs : List Round) (c : Remote R)
      → All IsReceived rs
      → (after : Remote R) × (sent : List Bytes) × (run_rounds a rs c ≡ some (after, sent))
        × (length sent ≤ 1)
  run_rounds_once rs c fits =
      let run = run_rounds-HasRun rs c fits in (run.after, run.sent, run.ends, run.once)
