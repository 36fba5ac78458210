-- ===== src/Tests/Hubs.antt =====
-- A client that comes, fails and goes, in the steps of the server's and its own thread.
use mniam_headless.Base.{ℕ, ◌+◌, ◌≤◌, ◌≡◌, refl, true, false, [], ◌∷◌, some, none, length, arith}
use mniam_headless.Base.Int.{pos}
use mniam_headless.Base.OrderedMap.{find, erase_if, assign, emplace}
use mniam_headless.Connection.{
  ClientTransaction, new_client_transaction, timeout, Bytes, Client, Exchange, new_server,
  new_client, run_transaction, serve_queue, see_to,
}
use mniam_headless.Connection.Membership.{IsRegistry}
use mniam_headless.Connection.Registry.{operate, run_with_all, remove_inactive}
use mniam_headless.Connection.Lifetime.{
  Life, leave, leaving, timed, ended, round, take_disconnection_time, deactivate, built, looping,
  with_client,
}
use mniam_headless.Connection.Hubs.{
  Hub, HubReach, HubSteps, new_hub, stays, then_step, look, looked, admitted, operated, moved,
  enter, operate_on, life_of, with_life,
}
use mniam_headless.Connection.Accepting.{room_for, HubReach-IsRegistry}
use mniam_headless.Connection.Retiring.{HubSteps-retired}
use mniam_headless.Tests.Servers.{second, validator, reply}

abbrev peer : Bytes
peer = 128 ∷ []

abbrev waiting : Hub
waiting = record (new_hub 8) { pending = some peer }

abbrev entered : Hub
entered = enter 70 peer waiting

abbrev asked : Hub
asked = operate_on (run_with_all second) entered

-- The guest with a transaction in its queue, and after a round in which its request was not sent.
abbrev guest : Client
guest = record (new_client 0 peer 70) { transactions = 0 ∷ [] }

abbrev failing : Exchange
failing = record reply { written = pos 1 }

abbrev lost : ClientTransaction
lost = record (new_client_transaction (1 ∷ 2 ∷ []) 3) {
  state = timeout;
  request_time = 50;
  signal = true;
}

abbrev failed_guest : Life ℕ
failed_guest = record {
  session = record {
    client = record guest { transactions = []; stop_requested = true };
    store = record { cells = (0, lost) ∷ []; fresh = 1 };
    kept = 0;
  };
  building = built;
  running = looping;
}

abbrev failed_hub : Hub
failed_hub = with_life 0 failed_guest asked

abbrev left_hub : Hub
left_hub = with_life 0 (record failed_guest { running = leaving }) failed_hub

abbrev clocked_guest : Life ℕ
clocked_guest =
    record (with_client (record failed_guest.session.client { disconnection_time = 80 })
      failed_guest) { running = timed }

abbrev clocked_hub : Hub
clocked_hub = with_life 0 clocked_guest left_hub

abbrev gone_guest : Life ℕ
gone_guest =
    record (with_client (record clocked_guest.session.client { active = false }) clocked_guest) {
      running = ended;
    }

-- The client is inactive, and still in the server's map.
abbrev gone_hub : Hub
gone_hub = with_life 0 gone_guest clocked_hub

asked_found : find 0 asked.server.clients ≡ some guest
unfolding operate_on find enter emplace new_server operate run_transaction new_client see_to
asked_found = refl

asked_served :
    serve_queue validator failing guest.transactions (life_of 0 0 guest asked).session
    ≡ some failed_guest.session
unfolding serve_queue operate_on find enter emplace new_server operate run_transaction new_client
    assign see_to new_client_transaction
asked_served = refl

gone_hub-HubReach : HubReach ℕ 8 gone_hub
unfolding look enter operate_on with_life find assign emplace new_server serve_queue
gone_hub-HubReach =
    let ready : HubReach ℕ 8 asked =
      then_step
        (then_step (then_step stays (looked peer refl refl)) (admitted 70 peer refl (omega arith)))
        (operated (run_with_all second)) in
    then_step
      (then_step
        (then_step
          (then_step ready (
            moved validator 0 0 guest failed_guest asked_found
              (round failing refl (unfold new_client in refl) asked_served)))
          (moved validator 0 0 _ _ refl (leave refl refl)))
        (moved validator 0 0 _ _ refl (take_disconnection_time 80 refl)))
      (moved validator 0 0 _ _ refl (deactivate refl))

HubReach-IsRegistry_example :
    IsRegistry gone_hub.server × (length gone_hub.server.clients + room_for gone_hub.pending ≤ 8)
HubReach-IsRegistry_example = HubReach-IsRegistry 8 gone_hub gone_hub-HubReach

-- The inactive client is removed, and then another one comes.
abbrev cleared_hub : Hub
cleared_hub = operate_on remove_inactive gone_hub

abbrev next_hub : Hub
next_hub = enter 90 peer (record cleared_hub { pending = some peer })

next_steps : HubSteps ℕ cleared_hub next_hub
unfolding look enter operate_on with_life erase_if assign emplace new_server
next_steps =
    then_step (then_step stays (looked peer refl refl)) (admitted 90 peer refl (omega arith))

cleared : find 0 cleared_hub.server.clients ≡ none
unfolding operate_on with_life find erase_if assign enter emplace new_server
cleared = refl

gone_found : find 0 gone_hub.server.clients ≡ some gone_guest.session.client
unfolding operate_on with_life find assign enter emplace new_server
gone_found = refl

HubSteps-retired_example : find 0 next_hub.server.clients ≡ none
HubSteps-retired_example =
    HubSteps-retired 8 0 gone_guest.session.client gone_hub-HubReach gone_found
      (then_step stays (operated remove_inactive)) cleared next_steps
