-- ===== src/Connection/Retiring.antt =====
-- The ids that the server gives (src/connection_server.cpp), over all steps of all threads.
use mniam_headless.Base.{
  ℕ, ◌≤◌, ◌<◌, ◌≡◌, refl, Bool, not, Bool-cases, inl, inr, List, [], ◌∷◌, Option, none, some, ◌==◌,
  arith,
}
use mniam_headless.Base.OrderedMap.{find, assign, emplace, erase, erase_if, Below}
use mniam_headless.Connection.Clients.{Client}
use mniam_headless.Connection.Transactions.{Store, reset}
use mniam_headless.Connection.Servers.{Server, Run, see_to, schedule_all, run_with_client, admit}
use mniam_headless.Connection.Registry.{
  Operation, run_with_all, run_with_one, wait, end_transaction, remove, remove_inactive, reject,
  accept, operate,
}
use mniam_headless.Connection.Hubs.{
  Hub, HubStep, HubSteps, HubReach, stays, then_step, looked, failed, admitted, operated, moved,
  enter, operate_on, with_life,
}
use mniam_headless.Connection.Accepting.{HubReach-IsRegistry}

schedule_all-absent :
    (i : ℕ) (m : List (ℕ × Client)) (r : Run) → find i m ≡ none → find i (schedule_all m r).0 ≡ none
unfolding find schedule_all
schedule_all-absent i [] r e = refl
schedule_all-absent i ((k, c) ∷ m) r e =
    let rest : find i m ≡ none → find i (schedule_all m (see_to k c r).1).0 ≡ none =
      schedule_all-absent i m (see_to k c r).1 in
    ground (arith, rest)

assign-absent :
    (i k : ℕ) (c : Client) (m : List (ℕ × Client)) → find i m ≡ none → find i (assign k c m) ≡ none
unfolding find assign
assign-absent i k c [] e = refl
assign-absent i k c ((j, d) ∷ m) e = ground (arith, assign-absent i k c m)

erase-absent : (i k : ℕ) (m : List (ℕ × Client)) → find i m ≡ none → find i (erase k m) ≡ none
unfolding find erase
erase-absent i k [] e = refl
erase-absent i k ((j, d) ∷ m) e = ground (arith, erase-absent i k m)

erase_if-absent :
    (p : Client → Bool) (i : ℕ) (m : List (ℕ × Client))
    → find i m ≡ none
    → find i (erase_if p m) ≡ none
unfolding find erase_if
erase_if-absent p i [] e = refl
erase_if-absent p i ((j, d) ∷ m) e = ground (arith, erase_if-absent p i m)

emplace-absent :
    (i k : ℕ) (c : Client) (m : List (ℕ × Client))
    → i < k
    → find i m ≡ none
    → find i (emplace k c m) ≡ none
unfolding find emplace
emplace-absent i k c [] lt e = ground arith
emplace-absent i k c ((j, d) ∷ m) lt e = ground (arith, emplace-absent i k c m)

-- An id that was given, and whose client is gone.
record IsRetired (i : ℕ) (v : Server) : Type 0 where
  given : i < v.next_client_id
  gone : find i v.clients ≡ none

run_with_client-IsRetired :
    (o : Option Client) (i k : ℕ) (v : Server) (r : Run)
    → IsRetired i v
    → IsRetired i (run_with_client o k v r).0
unfolding run_with_client
run_with_client-IsRetired none i k v r h = h
run_with_client-IsRetired (some c) i k v r h = record {
  given = h.given;
  gone = assign-absent i k _ v.clients h.gone;
}

operate-IsRetired :
    (o : Operation) (i : ℕ) (v : Server) (s : Store)
    → IsRetired i v
    → IsRetired i (operate o (v, s)).0
unfolding operate
operate-IsRetired (run_with_all t) i v s h = record {
  given = h.given;
  gone = schedule_all-absent i v.clients _ h.gone;
}
operate-IsRetired (run_with_one k t) i v s h =
    let (t', s') = reset t s in
    run_with_client-IsRetired (find k v.clients) i k v (record { transaction = t'; store = s' }) h
operate-IsRetired (wait t) i v s h = h
operate-IsRetired (end_transaction t) i v s h = h
operate-IsRetired (remove k) i v s h = record {
  given = h.given;
  gone = erase-absent i k v.clients h.gone;
}
operate-IsRetired remove_inactive i v s h = record {
  given = h.given;
  gone = erase_if-absent (λ (c : Client). not c.active) i v.clients h.gone;
}
operate-IsRetired reject i v s h = record { given = h.given; gone = h.gone }
operate-IsRetired accept i v s h = record { given = h.given; gone = h.gone }

step-IsRetired :
    {V : Type 0} (i : ℕ) {h h' : Hub}
    → HubStep V h h'
    → IsRetired i h.server
    → IsRetired i h'.server
unfolding enter admit operate_on with_life
step-IsRetired i (looked peer e listening) r = r
step-IsRetired i (failed e) r = record { given = r.given; gone = r.gone }
step-IsRetired i (admitted {h} now peer e small) r = record {
  given = omega (arith, r.given, small);
  gone = emplace-absent i h.server.next_client_id _ h.server.clients r.given r.gone;
}
step-IsRetired i (operated {h} o) r = operate-IsRetired o i h.server h.store r
step-IsRetired i (moved {h} validator kept k c l found step) r = record {
  given = r.given;
  gone = assign-absent i k _ h.server.clients r.gone;
}

HubSteps-IsRetired :
    {V : Type 0} (i : ℕ) {h h' : Hub}
    → HubSteps V h h'
    → IsRetired i h.server
    → IsRetired i h'.server
HubSteps-IsRetired i stays r = r
HubSteps-IsRetired i (then_step before s) r = step-IsRetired i s (HubSteps-IsRetired i before r)

run_with_client-next :
    (o : Option Client) (k : ℕ) (v : Server) (r : Run)
    → (run_with_client o k v r).0.next_client_id ≡ v.next_client_id
unfolding run_with_client
run_with_client-next none k v r = refl
run_with_client-next (some c) k v r = refl

operate-next :
    (o : Operation) (v : Server) (s : Store)
    → (operate o (v, s)).0.next_client_id ≡ v.next_client_id
unfolding operate
operate-next (run_with_all t) v s = refl
operate-next (run_with_one k t) v s =
    let (t', s') = reset t s in
    run_with_client-next (find k v.clients) k v (record { transaction = t'; store = s' })
operate-next (wait t) v s = refl
operate-next (end_transaction t) v s = refl
operate-next (remove k) v s = refl
operate-next remove_inactive v s = refl
operate-next reject v s = refl
operate-next accept v s = refl

step-next :
    {V : Type 0} {h h' : Hub} → HubStep V h h' → h.server.next_client_id ≤ h'.server.next_client_id
unfolding enter admit operate_on with_life
step-next (looked peer e listening) = omega arith
step-next (failed e) = omega arith
step-next (admitted {h} now peer e small) = omega (arith, small)
step-next (operated {h} o) = omega (arith, operate-next o h.server h.store)
step-next (moved validator kept k c l found step) = omega arith

HubSteps-next :
    {V : Type 0} {h h' : Hub} → HubSteps V h h' → h.server.next_client_id ≤ h'.server.next_client_id
HubSteps-next stays = omega arith
HubSteps-next (then_step before s) = omega (arith, HubSteps-next before, step-next s)

found-Below : (i n : ℕ) (c : Client) (m : List (ℕ × Client)) → Below n m → find i m ≡ some c → i < n
unfolding find
found-Below i n c [] below e = cc
found-Below i n c ((j, d) ∷ m) below e = elim (Bool-cases (j == i)) [
  | inl hit ↦ ground (arith, below.0)
  | inr miss ↦ found-Below i n c m below.1 (ground arith)
]

-- A client that was there at one moment, in any order of the steps of all threads from a new server on, and is
-- not at a later one: at every moment after that, until the counter of ids wraps, no client has its id.
pub HubSteps-retired :
    {V : Type 0} (limit : ℕ) {h u w : Hub} (k : ℕ) (c : Client)
    → HubReach V limit h
    → find k h.server.clients ≡ some c
    → HubSteps V h u
    → find k u.server.clients ≡ none
    → HubSteps V u w
    → find k w.server.clients ≡ none
HubSteps-retired limit {h} {u} k c reached there steps gone later =
    let was : k < h.server.next_client_id =
      found-Below k h.server.next_client_id c h.server.clients
        (HubReach-IsRegistry limit h reached).0.below there in
    let given : k < u.server.next_client_id = omega (arith, was, HubSteps-next steps) in
    (HubSteps-IsRetired k later (record { given = given; gone = gone })).gone
