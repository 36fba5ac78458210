-- ===== src/Remote/Confirmation.antt =====
-- When the confirmation of a remote transaction arrives.
use mniam_headless.Base.{
  ℕ, ◌≡◌, refl, ap, ◌∙◌, Bool, true, false, ◌||◌, Bool-cases, inl, inr, List, [], ◌∷◌, ◌==◌, arith,
}
use mniam_headless.Connection.{Bytes}
use mniam_headless.Amcom.{Amcom, Packet, PacketType, type_code}
use mniam_headless.Remote.Transaction.{
  RemoteState, remote_idle, request_to_send, is_finished_state, RemoteTransaction,
  awaiting_confirmation, finished, is_awaiting, is_finished, indicate_reception,
}
use mniam_headless.Remote.Connection.{Remote, packet_received, all_received, deliver}
use mniam_headless.Remote.Sending.{keep_response-transaction}

-- One of the packets has the type.
pub has_type : PacketType → List Packet → Bool
has_type q [] = false
has_type q (p ∷ ps) = (p.header.type == type_code q) || has_type q ps

awaiting_unfinished : (s : RemoteState) → is_awaiting s ≡ true → is_finished_state s ≡ false
awaiting_unfinished remote_idle h = refl
awaiting_unfinished request_to_send h = refl
awaiting_unfinished awaiting_confirmation h = refl
awaiting_unfinished finished h = cc

reception_finished :
    (now type : ℕ) (t : RemoteTransaction)
    → is_finished t ≡ true
    → is_finished (indicate_reception now type t) ≡ true
unfolding indicate_reception is_finished
reception_finished now type t h = ground arith

reception_hit :
    (now type : ℕ) (t : RemoteTransaction)
    → is_awaiting t.state ≡ true
    → (type == type_code t.confirmation) ≡ true
    → is_finished (indicate_reception now type t) ≡ true
unfolding indicate_reception is_finished
reception_hit now type t awaits hit = rw (awaits, hit)

reception_miss :
    (now type : ℕ) (t : RemoteTransaction)
    → (type == type_code t.confirmation) ≡ false
    → indicate_reception now type t ≡ t
unfolding indicate_reception
reception_miss now type t miss = ground arith

module _ {R : Type 0} where
  received-transaction :
      (now : ℕ) (p : Packet) (c : Remote R)
      → (packet_received now p c).remote_transaction
        ≡ indicate_reception now p.header.type c.remote_transaction
  unfolding packet_received
  received-transaction now p c =
      ap (indicate_reception now p.header.type) (keep_response-transaction p c)

  stays_finished :
      (now : ℕ) (ps : List Packet) (c : Remote R)
      → is_finished c.remote_transaction ≡ true
      → is_finished (all_received now ps c).remote_transaction ≡ true
  unfolding all_received
  stays_finished now [] c h = h
  stays_finished now (p ∷ ps) c h = stays_finished now ps (packet_received now p c) (
      rw (received-transaction now p c)
        (reception_finished now p.header.type c.remote_transaction h))

  all_received-is_finished :
      (now : ℕ) (ps : List Packet) (c : Remote R)
      → is_awaiting c.remote_transaction.state ≡ true
      → is_finished (all_received now ps c).remote_transaction
        ≡ has_type c.remote_transaction.confirmation ps
  unfolding all_received
  all_received-is_finished now [] c h =
      unfold is_finished has_type in awaiting_unfinished c.remote_transaction.state h
  all_received-is_finished now (p ∷ ps) c h =
      let t = c.remote_transaction in
      let type = p.header.type in
      let same = received-transaction now p c in
      elim (Bool-cases (type == type_code t.confirmation)) [
        | inl hit ↦
            stays_finished now ps (packet_received now p c)
              (ap is_finished same ∙ reception_hit now type t h hit)
            ∙ (unfold has_type in rw hit)
        | inr miss ↦
            let kept : (packet_received now p c).remote_transaction ≡ t =
              same ∙ reception_miss now type t miss in
            all_received-is_finished now ps (packet_received now p c)
              (ap (λ u. is_awaiting u.state) kept ∙ h)
            ∙ ap (λ u. has_type u.confirmation ps) kept
            ∙ (unfold has_type in rw miss)
      ]

  -- A transaction that awaits its confirmation is finished after bytes were read from the socket exactly
  -- if a packet of that type is found in them.
  pub deliver-is_finished :
      (a : Amcom R) (now : ℕ) (bytes : Bytes) (c : Remote R)
      → is_awaiting c.remote_transaction.state ≡ true
      → is_finished (deliver a now bytes c).remote_transaction
        ≡ has_type c.remote_transaction.confirmation (a.deserialize c.am_receiver bytes).1
  unfolding deliver
  deliver-is_finished a now bytes c h =
      let (receiver, packets) = a.deserialize c.am_receiver bytes in
      all_received-is_finished now packets (record c { am_receiver = receiver }) h
