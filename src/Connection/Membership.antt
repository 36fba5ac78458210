-- ===== src/Connection/Membership.antt =====
-- The invariant of the server's map of clients, and what single operations do to it.
use mniam_headless.Base.{
  Bool-cases, ap, sym, ◌∙◌, ℕ, suc, ◌+◌, ◌%◌, ◌^◌, ◌≤◌, ◌<◌, ◌≡◌, refl, Bool, not, List, [], ◌∷◌,
  Option, none, some, length, ◌==◌, arith, inl, inr,
}
use mniam_headless.Base.OrderedMap.{
  find, emplace, erase, erase_if, assign, Ascends, Below, Below-mono, find-Below, emplace-Ascends,
  emplace-Below, length-emplace, erase-Ascends, erase-Below, length-erase, erase_if-Ascends,
  erase_if-Below, length-erase_if,
}
use mniam_headless.Connection.Requests.{Bytes}
use mniam_headless.Connection.Clients.{Client, new_client}
use mniam_headless.Connection.Transactions.{Store, Transaction, reset}
use mniam_headless.Connection.Servers.{
  Server, Run, see_to, schedule_all, run_transaction, run_with_client,
  run_transaction_with_single_client, remove_client, remove_all_inactive_clients, admit,
}

-- Every client is kept under its own id.
abbrev pub Named : List (ℕ × Client) → Type 0
Named [] = Unit {0}
Named ((k, c) ∷ m) = (c.client_id ≡ k) × Named m

pub record IsRegistry (v : Server) : Type 0 where
  pub ascends : Ascends 0 v.clients
  pub below : Below v.next_client_id v.clients
  pub named : Named v.clients
  pub limited : length v.clients ≤ v.client_limit

pub emplace-Named :
    (k : ℕ) (c : Client) (m : List (ℕ × Client)) → c.client_id ≡ k → Named m → Named (emplace k c m)
unfolding emplace
emplace-Named k c [] h s = (h, tt)
emplace-Named k c ((j, w) ∷ m) h s = ground (arith, emplace-Named k c m)

erase-Named : (k : ℕ) (m : List (ℕ × Client)) → Named m → Named (erase k m)
unfolding erase
erase-Named k [] s = s
erase-Named k ((j, w) ∷ m) s = ground (arith, erase-Named k m)

pub erase_if-Named : (p : Client → Bool) (m : List (ℕ × Client)) → Named m → Named (erase_if p m)
unfolding erase_if
erase_if-Named p [] s = s
erase_if-Named p ((j, w) ∷ m) s = ground (arith, erase_if-Named p m)

-- What may happen to a client that stays: its id is the same.
pub record IsKept (n b : ℕ) (m m' : List (ℕ × Client)) : Type 0 where
  pub ascends : Ascends b m → Ascends b m'
  pub below : Below n m → Below n m'
  pub named : Named m → Named m'
  pub size : length m' ≡ length m

see_to-client_id : (k : ℕ) (c : Client) (r : Run) → (see_to k c r).0.client_id ≡ c.client_id
unfolding see_to
see_to-client_id k c r = ground arith

schedule_all-IsKept :
    (n b : ℕ) (m : List (ℕ × Client)) (r : Run) → IsKept n b m (schedule_all m r).0
unfolding schedule_all
schedule_all-IsKept n b [] r = record {
  ascends = λ h. h;
  below = λ h. h;
  named = λ h. h;
  size = refl;
}
schedule_all-IsKept n b ((k, c) ∷ m) r =
    let next = see_to k c r in
    let rest = schedule_all-IsKept n (suc k) m next.1 in
    record {
      ascends = λ h. (h.0, rest.ascends h.1);
      below = λ h. (h.0, rest.below h.1);
      named = λ h. (see_to-client_id k c r ∙ h.0, rest.named h.1);
      size = omega (arith, rest.size);
    }

-- Running a transaction with all clients keeps the registry.
pub run_transaction-IsRegistry :
    (v : Server) (t : Transaction) (s : Store) → IsRegistry v → IsRegistry (run_transaction v t s).0
unfolding run_transaction
run_transaction-IsRegistry v t s h =
    let (t', s') = reset t s in
    let kept =
      schedule_all-IsKept v.next_client_id 0 v.clients (record { transaction = t'; store = s' }) in
    record {
      ascends = kept.ascends h.ascends;
      below = kept.below h.below;
      named = kept.named h.named;
      limited = omega (arith, kept.size, h.limited);
    }

pub assign-IsKept :
    (n b k : ℕ) (c w : Client) (m : List (ℕ × Client))
    → find k m ≡ some w
    → c.client_id ≡ w.client_id
    → IsKept n b m (assign k c m)
unfolding find assign
assign-IsKept n b k c w [] e i = cc
assign-IsKept n b k c w ((j, u) ∷ m) e i = elim (Bool-cases (j == k)) [
  | inl hit ↦
      let here : u ≡ w = ground arith in
      rw hit (record {
        ascends = λ h. h;
        below = λ h. h;
        named = λ h. (i ∙ ap (λ (x : Client). x.client_id) (sym here) ∙ h.0, h.1);
        size = refl;
      })
  | inr miss ↦
      let rest = assign-IsKept n (suc j) k c w m (ground arith) i in
      rw miss (record {
        ascends = λ h. (h.0, rest.ascends h.1);
        below = λ h. (h.0, rest.below h.1);
        named = λ h. (h.0, rest.named h.1);
        size = omega (arith, rest.size);
      })
]

run_with_client-IsRegistry :
    (o : Option Client) (k : ℕ) (v : Server) (r : Run)
    → find k v.clients ≡ o
    → IsRegistry v
    → IsRegistry (run_with_client o k v r).0
unfolding run_with_client
run_with_client-IsRegistry none k v r e h = h
run_with_client-IsRegistry (some c) k v r e h =
    let kept =
      assign-IsKept v.next_client_id 0 k (see_to c.client_id c r).0 c v.clients e
        (see_to-client_id c.client_id c r) in
    record {
      ascends = kept.ascends h.ascends;
      below = kept.below h.below;
      named = kept.named h.named;
      limited = omega (arith, kept.size, h.limited);
    }

pub run_single-IsRegistry :
    (k : ℕ) (v : Server) (t : Transaction) (s : Store)
    → IsRegistry v
    → IsRegistry (run_transaction_with_single_client k v t s).0
unfolding run_transaction_with_single_client
run_single-IsRegistry k v t s h =
    let (t', s') = reset t s in
    run_with_client-IsRegistry (find k v.clients) k v (record { transaction = t'; store = s' }) refl
      h

pub remove_client-IsRegistry : (k : ℕ) (v : Server) → IsRegistry v → IsRegistry (remove_client k v)
unfolding remove_client
remove_client-IsRegistry k v h = record {
  ascends = erase-Ascends k 0 v.clients h.ascends;
  below = erase-Below k v.next_client_id v.clients h.below;
  named = erase-Named k v.clients h.named;
  limited = omega (arith, length-erase k v.clients, h.limited);
}

pub remove_all-IsRegistry : (v : Server) → IsRegistry v → IsRegistry (remove_all_inactive_clients v)
unfolding remove_all_inactive_clients
remove_all-IsRegistry v h = record {
  ascends = erase_if-Ascends _ 0 v.clients h.ascends;
  below = erase_if-Below _ v.next_client_id v.clients h.below;
  named = erase_if-Named _ v.clients h.named;
  limited = omega (arith, length-erase_if (λ (c : Client). not c.active) v.clients, h.limited);
}

pub admit-IsRegistry :
    (now : ℕ) (peer : Bytes) (v : Server)
    → v.next_client_id + 1 < 2 ^ 32
    → length v.clients < v.client_limit
    → IsRegistry v
    → IsRegistry (admit now peer v)
unfolding admit new_client
admit-IsRegistry now peer v small room h =
    let n = v.next_client_id in
    let next : (n + 1) % 2 ^ 32 ≡ suc n = omega arith in
    let c = new_client n peer now in
    record {
      ascends = emplace-Ascends n 0 c v.clients (omega arith) h.ascends;
      below = rw next (
          emplace-Below n (suc n) c v.clients (omega arith)
            (Below-mono n (suc n) v.clients (omega arith) h.below));
      named = emplace-Named n c v.clients refl h.named;
      limited = omega (arith, length-emplace n c v.clients (find-Below n v.clients h.below), room);
    }
