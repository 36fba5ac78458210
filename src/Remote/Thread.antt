-- ===== src/Remote/Thread.antt =====
-- `connectionThread` of src/remote_connection.cpp from its start to its return, around the loop of
-- Remote/Connection: the address is looked up, a socket connected, and shut down in the end.
-- What `getaddrinfo`, `socket`, `connect`, `shutdown` and `recv` answer is an argument.
use mniam_headless.Base.{
  ℕ, Bool, true, false, List, [], ◌∷◌, ◌++◌, Option, none, some, if◌then◌else◌,
}
use mniam_headless.Base.Int.{ℤ, pos, ltb_ℤ}
use mniam_headless.Connection.{Bytes}
use mniam_headless.Amcom.{Amcom}
use mniam_headless.Remote.Transaction.{new_remote_transaction, is_finished}
use mniam_headless.Remote.Connection.{Remote, Round, connect_player, connected, run_rounds}

-- `socket` is `connectionSocket`, `none` where it is `INVALID_SOCKET`; `thread_handle` is `none` for
-- a null handle.
pub record Link (R : Type 0) : Type 0 where
  pub remote : Remote R
  pub socket : Option ℕ
  pub thread_handle : Option ℕ

-- One address of the list: what `socket` returns for it, and whether `connect` succeeds.
pub record Address : Type 0 where
  pub socket : Option ℕ
  pub accepts : Bool

-- What the thread takes from the system and gives back: sockets, and the list of addresses.
pub data Event : Type 0 where
  opened closed : ℕ → Event
  looked_up freed : Event

-- The loop over the addresses: the socket, the events, and whether `socket` failed, in which case
-- the thread returns from within the loop.
pub record Opening : Type 0 where
  pub socket : Option ℕ
  pub events : List Event
  pub failed : Bool

unfoldable pub try_address : Option ℕ → Bool → Opening → Opening
try_address none accepts rest = record { socket = none; events = []; failed = true }
try_address (some h) true rest = record { socket = some h; events = opened h ∷ []; failed = false }
try_address (some h) false rest = record rest { events = opened h ∷ closed h ∷ rest.events }

unfoldable pub open_socket : List Address → Option ℕ → Opening
unfolding try_address
open_socket [] socket = record { socket = socket; events = []; failed = false }
open_socket (x ∷ xs) socket = try_address x.socket x.accepts (open_socket xs none)

-- `do ... while (socketResult > 0)`: whether these answers of `recv` end it.
unfoldable pub is_closed_by : List ℤ → Bool
is_closed_by [] = false
is_closed_by (n ∷ ns) = if ltb_ℤ (pos 0) n then is_closed_by ns else true

-- The thread has read past its buffer, goes on for lack of answers, or has returned a code.
pub data Progress (R : Type 0) : Type 0 where
  overrun : Progress R
  unfinished : Link R → Progress R
  returned : ℕ → Link R → List Event → List Bytes → Progress R

module _ {R : Type 0} where
  -- The constructor. `junk` is what the members hold that it does not initialise.
  unfoldable pub new_link : Remote R → Link R
  unfolding new_remote_transaction
  new_link junk = record {
    remote = record junk {
      alive = false;
      identified = false;
      remote_transaction = new_remote_transaction;
      player_queue = [];
      food_queue = [];
    };
    socket = none;
    thread_handle = none;
  }

  unfoldable pub is_transaction_finished : Remote R → Bool
  unfolding is_finished
  is_transaction_finished c = is_finished c.remote_transaction

  unfoldable pub get_player_name : Remote R → Option Bytes
  get_player_name c = if c.identified then some c.player_name else none

  -- `connectPlayer`, with what `CreateThread` returns.
  unfoldable pub start_player : Option ℕ → Link R → Link R
  unfolding connect_player
  start_player handle l = record l { remote = connect_player l.remote; thread_handle = handle }

  -- `waitForDisconnection`, with the handle that is waited for.
  unfoldable pub wait_for_disconnection : Link R → Link R × Option ℕ
  wait_for_disconnection l = (record l { thread_handle = none }, l.thread_handle)

  -- The end of the thread, on a socket that was open.
  unfoldable pub shut_down : Bool → List ℤ → ℕ → Link R → List Event → List Bytes → Progress R
  unfolding is_closed_by
  shut_down false answers h l events sent = returned 0 l (events ++ closed h ∷ []) sent
  shut_down true answers h l events sent =
      if is_closed_by answers
      then returned 0 (record l { socket = none }) (events ++ closed h ∷ []) sent
      else unfinished l

  -- After the loop on the connection.
  unfoldable pub leave_loop :
      Bool → List ℤ → ℕ → Link R → List Event → Option (Remote R × List Bytes) → Progress R
  unfolding shut_down
  leave_loop ok answers h l events none = overrun
  leave_loop ok answers h l events (some (c, sent)) =
      if c.alive
      then unfinished (record l { remote = c })
      else shut_down ok answers h (record l { remote = c }) events sent

-- What the system answers to one run of the thread; `addresses` is `none` if `getaddrinfo` fails.
pub record ThreadAnswers : Type 0 where
  pub addresses : Option (List Address)
  pub rounds : List Round
  pub shutdown_ok : Bool
  pub last_reads : List ℤ

module _ {R : Type 0} (a : Amcom R) where
  -- After the list of addresses was freed.
  unfoldable pub use_socket : ThreadAnswers → Option ℕ → Link R → List Event → Progress R
  unfolding leave_loop connected run_rounds
  use_socket x none l events = returned 1 l events []
  use_socket x (some h) l events =
      leave_loop x.shutdown_ok x.last_reads h l events
        (run_rounds a x.rounds (connected a l.remote))

  unfoldable pub use_addresses : ThreadAnswers → Option (List Address) → Link R → Progress R
  unfolding use_socket open_socket
  use_addresses x none l = returned 0 l [] []
  use_addresses x (some addresses) l =
      let o = open_socket addresses l.socket in
      let l' = record l { socket = o.socket } in
      if o.failed
      then returned 1 l' (looked_up ∷ o.events) []
      else use_socket x o.socket l' (looked_up ∷ o.events ++ freed ∷ [])

  unfoldable pub connection_thread : ThreadAnswers → Link R → Progress R
  unfolding use_addresses
  connection_thread x l =
      use_addresses x x.addresses
        (record l { remote = record l.remote { am_receiver = a.init_receiver } })
