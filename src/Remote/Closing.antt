-- ===== src/Remote/Closing.antt =====
-- What `connectionThread` of src/remote_connection.cpp leaves behind when it returns.
use mniam_headless.Base.{
  ℕ, ◌≡◌, refl, ap, sym, ◌∙◌, Bool, true, false, Bool-cases, ◌⊎◌, inl, inr, List, [], ◌∷◌, ◌++◌,
  Option, none, some, if◌then◌else◌, arith,
}
use mniam_headless.Base.Int.{ℤ}
use mniam_headless.Connection.{Bytes}
use mniam_headless.Amcom.{Amcom}
use mniam_headless.Remote.Connection.{Remote, connected, run_rounds}
use mniam_headless.Remote.Thread.{
  Link, Address, Event, closed, looked_up, freed, open_socket, is_closed_by, Progress, returned,
  shut_down, leave_loop, ThreadAnswers, use_socket, use_addresses, connection_thread,
}
use mniam_headless.Remote.Holdings.{
  failed_open_socket-none, failed_opening-held, held, held-append, hold, is_some, nothing,
  open_socket-failed, open_socket-reaches, reaches_one, sockets_suffice, whole_opening-held,
  with_socket,
}

-- The thread returns, with the connection not alive, every socket it opened closed and that many lists of addresses
-- not freed; the link has no socket, or one whose shutdown failed.
pub record Returns {R : Type 0} (shutdown_ok : Bool) (lists : ℕ) (p : Progress R) : Type 0 where
  pub code : ℕ
  pub link : Link R
  pub events : List Event
  pub sent : List Bytes
  pub returns : p ≡ returned code link events sent
  pub not_alive : link.remote.alive ≡ false
  pub nothing_open : held events nothing ≡ record { sockets = []; lists = lists }
  pub no_socket : (link.socket ≡ none) ⊎ (shutdown_ok ≡ false)

abbrev pub not_freed : Option (List Address) → ℕ
not_freed none = 0
not_freed (some xs) = if sockets_suffice xs then 0 else 1

shut_down-Returns :
    {R : Type 0} (ok : Bool) (answers : List ℤ) (h : ℕ) (l : Link R) (events : List Event)
    (sent : List Bytes)
    → l.remote.alive ≡ false
    → is_closed_by answers ≡ true
    → held events nothing ≡ record { sockets = h ∷ []; lists = 0 }
    → Returns ok 0 (shut_down ok answers h l events sent)
unfolding shut_down held
shut_down-Returns ok answers h l events sent off ends e =
    let all_closed : held (events ++ closed h ∷ []) nothing ≡ record { sockets = []; lists = 0 } =
      held-append events (closed h ∷ []) nothing ∙ ap (hold (closed h)) e ∙ ground arith in
    elim ok as (λ b. Returns b 0 (shut_down b answers h l events sent)) [
      | false ↦ record {
        code = 0;
        link = l;
        events = events ++ closed h ∷ [];
        sent = sent;
        returns = refl;
        not_alive = off;
        nothing_open = all_closed;
        no_socket = inr refl;
      }
      | true ↦ record {
        code = 0;
        link = record l { socket = none };
        events = events ++ closed h ∷ [];
        sent = sent;
        returns = rw ends;
        not_alive = off;
        nothing_open = all_closed;
        no_socket = inl refl;
      }
    ]

module _ {R : Type 0} (a : Amcom R) where
  -- The loop on the connection ends within the rounds, and the peer closes after it.
  pub record LoopEnds (x : ThreadAnswers) (c : Remote R) : Type 0 where
    pub last : Remote R
    pub sent : List Bytes
    pub runs : run_rounds a x.rounds (connected a c) ≡ some (last, sent)
    pub off : last.alive ≡ false
    pub closes : is_closed_by x.last_reads ≡ true

  use_socket-Returns :
      (x : ThreadAnswers) (o : Option ℕ) (l : Link R) (events : List Event)
      → l.remote.alive ≡ false
      → l.socket ≡ o
      → (is_some o ≡ true → LoopEnds x l.remote)
      → held events nothing ≡ with_socket o nothing
      → Returns x.shutdown_ok 0 (use_socket a x o l events)
  unfolding use_socket leave_loop
  use_socket-Returns x none l events off here loop e = record {
    code = 1;
    link = l;
    events = events;
    sent = [];
    returns = refl;
    not_alive = off;
    nothing_open = e;
    no_socket = inl here;
  }
  use_socket-Returns x (some h) l events off here loop e =
      let ends = loop refl in
      simp (ends.runs, ends.off)
        (shut_down-Returns x.shutdown_ok x.last_reads h (record l { remote = ends.last }) events
          ends.sent ends.off ends.closes e)

  use_addresses-Returns :
      (x : ThreadAnswers) (addresses : Option (List Address)) (l : Link R)
      → l.remote.alive ≡ false
      → l.socket ≡ none
      → (reaches_one addresses ≡ true → LoopEnds x l.remote)
      → Returns x.shutdown_ok (not_freed addresses) (use_addresses a x addresses l)
  unfolding use_addresses
  use_addresses-Returns x none l off free loop = record {
    code = 0;
    link = l;
    events = [];
    sent = [];
    returns = refl;
    not_alive = off;
    nothing_open = (unfold held in refl);
    no_socket = inl free;
  }
  use_addresses-Returns x (some xs) l off free loop = elim (Bool-cases (sockets_suffice xs)) [
    | inl enough ↦
        let o = open_socket xs none in
        simp (free, enough, open_socket-failed xs none)
          (use_socket-Returns x o.socket (record l { socket = o.socket })
            (looked_up ∷ o.events ++ freed ∷ []) off refl
            (λ e. loop (sym (open_socket-reaches xs) ∙ e)) (whole_opening-held xs))
    | inr few ↦
        let o = open_socket xs none in
        simp (free, few, open_socket-failed xs none)
          (record {
            code = 1;
            link = record l { socket = o.socket };
            events = looked_up ∷ o.events;
            sent = [];
            returns = refl;
            not_alive = off;
            nothing_open = failed_opening-held xs few;
            no_socket = inl (failed_open_socket-none xs few);
          })
  ]

  -- If the connection is not alive and has no socket when its thread is started and, in case an
  -- address accepts it, the loop ends within the rounds and the peer closes after it, then the thread
  -- returns, whatever the system answers: the connection is not alive, every socket that was opened
  -- is closed, and none is kept unless its shutdown failed. The list of addresses is freed, unless
  -- `socket` fails before an address accepts.
  pub connection_thread-Returns :
      (x : ThreadAnswers) (l : Link R)
      → l.remote.alive ≡ false
      → l.socket ≡ none
      → (reaches_one x.addresses ≡ true
          → LoopEnds x (record l.remote { am_receiver = a.init_receiver }))
      → Returns x.shutdown_ok (not_freed x.addresses) (connection_thread a x l)
  unfolding connection_thread
  connection_thread-Returns x l off free loop =
      use_addresses-Returns x x.addresses
        (record l { remote = record l.remote { am_receiver = a.init_receiver } }) off free loop
