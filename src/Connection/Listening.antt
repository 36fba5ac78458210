-- ===== src/Connection/Listening.antt =====
-- One round of all clients' threads after the run of a transaction: who is handed the request, and who
-- goes on.
use mniam_headless.Base.{
  ℕ, suc, ◌≡◌, ◌≢◌, refl, ap, sym, subst, ◌∙◌, Bool, true, false, not, ◌&&◌, Bool-cases, inl, inr,
  List, [], ◌∷◌, ◌++◌, map, length, Option, some, ◌==◌, if◌then◌else◌, arith, All,
}
use mniam_headless.Base.OrderedMap.{find}
use mniam_headless.Connection.Requests.{Bytes, ClientTransaction, scheduled, new_client_transaction}
use mniam_headless.Connection.Exchanges.{hangs_up}
use mniam_headless.Connection.Clients.{Client, Exchange, to_size_t, serve}
use mniam_headless.Connection.Transactions.{Store, Transaction}
use mniam_headless.Connection.Thread.{Session}
use mniam_headless.Connection.Runs.{IsStore, scheduled_cell}
use mniam_headless.Connection.References.{NotOwned}
use mniam_headless.Connection.Handing.{
  queued, addressed, Hold, queued-active, queued-inactive, addressed-active, addressed-inactive,
}
use mniam_headless.Connection.Rounds.{
  is_listening, IsReady, names, as_heard, keeps_all, addressed_above,
}
use mniam_headless.Connection.Sitting.{Sat, inactive-Sat, active-Sat, serve-kept_same}
use mniam_headless.Connection.Postbox.{listeners, told_to, listens}
use mniam_headless.Connection.Talking.{Talked, thread_writes, sat_down, seat, rounds}

-- Those go on whose sockets take all of it.
abbrev pub going_on : (ℕ → Exchange) → Bytes → List (ℕ × Bool) → List (ℕ × Bool)
going_on exchanges request =
    map (λ e. (e.0, e.1 && (length request == to_size_t (exchanges e.0).written)))

-- A socket that takes the request, and answers well or not at all where a response of the size is
-- expected: the client does not hang up.
abbrev pub Cooperative : {V : Type 0} → (ℕ → Bytes → V → V × Bool) → ℕ → Exchange → Bytes → Type 0
Cooperative {V = V} validator size x request =
    (c : Client) (v : V)
    → hangs_up validator x c (record (new_client_transaction request size) { state = scheduled }) v
      ≡ false

module _ {V : Type 0} (validator : ℕ → Bytes → V → V × Bool) (t : Transaction) where
  -- What a round of all threads comes to, when the clients were `m` before the run.
  pub record Rounded (m : List (ℕ × Client)) (exchanges : ℕ → Exchange) (kept : V)
      (o : Option (Talked V)) : Type 0 where
    pub after : Talked V
    pub result : o ≡ some after
    pub writes_right : after.writes ≡ told_to t.request (listeners m)
    pub same_names : names after.clients ≡ names m
    pub keeps : after.kept ≡ keeps_all validator exchanges (scheduled_cell t) (as_heard m) kept
    pub listening :
        t.response_size ≡ 0 → listeners after.clients ≡ going_on exchanges t.request (listeners m)
    pub cooperative :
        (j : ℕ)
        → Cooperative validator t.response_size (exchanges j) t.request
        → listens j (listeners m) ≡ true
        → listens j (listeners after.clients) ≡ true
    pub are_ready : All (λ e. IsReady e.1) after.clients
    pub is_store : IsStore after.store

  told_first :
      (k : ℕ) (b : Bool) (ls : List (ℕ × Bool))
      → map (λ r. (k, r)) (if b then t.request ∷ [] else []) ++ told_to t.request ls
        ≡ told_to t.request ((k, b) ∷ ls)
  unfolding told_to
  told_first k true ls = refl
  told_first k false ls = refl

  heard_first :
      (k : ℕ) (c : Client) (m : List (ℕ × Client)) (exchanges : ℕ → Exchange) (v : V)
      → keeps_all validator exchanges (scheduled_cell t) (as_heard ((k, c) ∷ m)) v
        ≡ keeps_all validator exchanges
            (scheduled_cell t)
            (as_heard m)
            (if is_listening c then (serve validator (exchanges k) c (scheduled_cell t) v).2 else v)
  unfolding keeps_all
  heard_first k c m exchanges v =
      let same = serve-kept_same validator t (exchanges k) c (is_listening c) c.transactions v in
      elim (Bool-cases (is_listening c)) [
        | inl on ↦
            ap
              (λ w.
                if is_listening c
                then keeps_all validator exchanges (scheduled_cell t) (as_heard m) w
                else keeps_all validator exchanges (scheduled_cell t) (as_heard m) v)
              same
            ∙ simp on refl
        | inr off ↦ simp off refl
      ]

  silent_hang_up :
      (c : Client) (x : Exchange) (v : V)
      → t.response_size ≡ 0
      → not (hangs_up validator x c (scheduled_cell t) v)
        ≡ (length t.request == to_size_t x.written)
  unfolding new_client_transaction
  silent_hang_up c x v silent = ground arith

  still_listens :
      (k j : ℕ) (c c' : Client) (ls ls' : List (ℕ × Bool))
      → (k ≡ j → is_listening c ≡ true → is_listening c' ≡ true)
      → (listens j ls ≡ true → listens j ls' ≡ true)
      → listens j ((k, is_listening c) ∷ ls) ≡ true
      → listens j ((k, is_listening c') ∷ ls') ≡ true
  unfolding listens
  still_listens k j c c' ls ls' here there on = elim (Bool-cases (k == j)) [
    | inl hit ↦ simp hit (here (ground arith) (ground arith))
    | inr miss ↦ simp miss (there (ground arith))
  ]

  seated :
      (k a : ℕ) (c : Client) (m m' : List (ℕ × Client)) (exchanges : ℕ → Exchange) (s : Session V)
      → (sat : Sat validator t c (exchanges k) a s)
      → Rounded m exchanges sat.after.kept
          (rounds validator exchanges m' sat.after.store sat.after.kept)
      → Rounded
          ((k, c) ∷ m)
          exchanges
          s.kept
          (rounds validator exchanges ((k, s.client) ∷ m') s.store s.kept)
  unfolding rounds
  seated k a c m m' exchanges s sat rest =
      let next = λ (s' : Session V). rounds validator exchanges m' s'.store s'.kept in
      record {
        after = record rest.after {
          clients = (k, sat.after.client) ∷ rest.after.clients;
          writes = map (λ r. (k, r)) (thread_writes s) ++ rest.after.writes;
        };
        result =
            ap (λ o. seat k (thread_writes s) o next) sat.result
            ∙ ap (sat_down k (thread_writes s) sat.after) rest.result;
        writes_right =
            ap (λ l. map (λ r. (k, r)) l ++ rest.after.writes) sat.writes
            ∙ ap (◌++◌ (map (λ r. (k, r)) (if is_listening c then t.request ∷ [] else [])))
                rest.writes_right
            ∙ told_first k (is_listening c) (listeners m);
        same_names =
            ap (λ i. (k, i) ∷ names rest.after.clients) sat.same_id
            ∙ ap (◌∷◌ (k, c.client_id)) rest.same_names;
        keeps =
            rest.keeps
            ∙ ap (keeps_all validator exchanges (scheduled_cell t) (as_heard m)) sat.keeps
            ∙ sym (heard_first k c m exchanges s.kept);
        listening = λ silent.
            ap (λ b. (k, b) ∷ listeners rest.after.clients)
              (sat.listens ∙ ap (is_listening c &&◌) (silent_hang_up c (exchanges k) s.kept silent))
            ∙ ap (◌∷◌ (k, is_listening c && (length t.request == to_size_t (exchanges k).written)))
                (rest.listening silent);
        cooperative = λ j well on.
            still_listens k j c sat.after.client (listeners m) (listeners rest.after.clients)
              (λ same going.
                sat.listens
                ∙ rw going (
                    ap not (
                      subst (λ i. Cooperative validator t.response_size (exchanges i) t.request)
                        (sym same) well c s.kept)))
              (rest.cooperative j well) on;
        are_ready = (sat.is_ready, rest.are_ready);
        is_store = rest.is_store;
      }

  Hold-agree :
      (cells cells' : List (ℕ × ClientTransaction)) (a : ℕ) (owned : List (ℕ × ℕ))
      → ((b : ℕ) → b ≢ a → find b cells' ≡ find b cells)
      → NotOwned owned a
      → Hold (scheduled_cell t) cells owned
      → Hold (scheduled_cell t) cells' owned
  Hold-agree cells cells' a [] same apart held = tt
  Hold-agree cells cells' a ((k, b) ∷ owned) same apart held =
      (same b apart.0 ∙ held.0, Hold-agree cells cells' a owned same apart.1 held.1)

  -- The rounds after a run that handed out the addresses from `n` on.
  pub rounds-Rounded :
      (m : List (ℕ × Client)) (n : ℕ) (exchanges : ℕ → Exchange) (s : Store) (kept : V)
      → IsStore s
      → All (λ e. IsReady e.1) m
      → Hold (scheduled_cell t) s.cells (addressed m n)
      → Rounded m exchanges kept (rounds validator exchanges (queued m n) s kept)
  unfolding inactive-Sat
  rounds-Rounded [] n exchanges s kept h ready held = record {
    after = record { clients = []; store = s; kept = kept; writes = [] };
    result = (unfold rounds queued in refl);
    writes_right = (unfold told_to in refl);
    same_names = refl;
    keeps = (unfold keeps_all in refl);
    listening = λ silent. refl;
    cooperative = λ j well on. on;
    are_ready = tt;
    is_store = h;
  }
  rounds-Rounded ((k, c) ∷ m) n exchanges s kept h ready held = elim (Bool-cases c.active) [
    | inl on ↦
        let (found, rest) : Hold (scheduled_cell t) s.cells ((k, n) ∷ addressed m (suc n)) =
          subst (Hold (scheduled_cell t) s.cells) (addressed-active k n c m on) held in
        let sat = active-Sat validator t c (exchanges k) n s kept h ready.0 on found in
        let still =
          Hold-agree s.cells sat.after.store.cells n (addressed m (suc n)) sat.others
            (addressed_above m n (suc n) (omega arith)) rest in
        subst (λ l. Rounded ((k, c) ∷ m) exchanges kept (rounds validator exchanges l s kept))
          (sym (queued-active k n c m on))
          (seated k n c m (queued m (suc n)) exchanges _ sat (
            rounds-Rounded m (suc n) exchanges sat.after.store sat.after.kept sat.is_store ready.1
              still))
    | inr off ↦
        let rest = subst (Hold (scheduled_cell t) s.cells) (addressed-inactive k n c m off) held in
        subst (λ l. Rounded ((k, c) ∷ m) exchanges kept (rounds validator exchanges l s kept))
          (sym (queued-inactive k n c m off))
          (seated k n c m (queued m n) exchanges (record { client = c; store = s; kept = kept })
            (inactive-Sat validator t c (exchanges k) n s kept h off)
            (rounds-Rounded m n exchanges s kept h ready.1 rest))
  ]
