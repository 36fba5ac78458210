-- ===== src/Game/Entering.antt =====
-- Which clients get a player in the phase NEW_GAME_REQUEST of `Game::update` (src/amgame.cpp), by what
-- their sockets answer.
use mniam_headless.Base.{
  ℕ, suc, ◌+◌, ◌%◌, ◌≤◌, ◌≡◌, refl, ap, sym, subst, ◌∙◌, Bool, true, false, ◌&&◌, List, [], ◌∷◌,
  ◌++◌, Option, none, some, take, length, map, ◌==◌, if◌then◌else◌, arith, All,
}
use mniam_headless.Base.OrderedMap.{find, keys, Ascends}
use mniam_headless.Engine.{FloatOps}
use mniam_headless.Connection.{
  Bytes, Client, Exchange, Server, Store, to_size_t, new_client_transaction, get_clients,
}
use mniam_headless.Connection.Exchanges.{succeeds}
use mniam_headless.Connection.Runs.{IsStore, scheduled_cell}
use mniam_headless.Connection.Membership.{IsRegistry}
use mniam_headless.Connection.Rounds.{is_listening, IsReady, names}
use mniam_headless.Connection.Asking.{ask-Answered}
use mniam_headless.Amcom.{Amcom, IsAmcom, new_game_kind, new_game_transaction, validate}
use mniam_headless.Amcom.Requests.{transactions-IsWhole}
use mniam_headless.Amcom.Validation.{first_response, is_some, validate-Responses}
use mniam_headless.Game.State.{Game, new_game_to}
use mniam_headless.Connection.Postbox.{to_client, hears}
use mniam_headless.Game.Broadcast.{request_of}
use mniam_headless.Game.Heeding.{heeds, sents_for}
use mniam_headless.Game.Served.{Joined, sent_before, with_answer, join_served}
use mniam_headless.Game.Setup.{Answers, join, join_all, set_out, new_game_request}
use mniam_headless.Game.Inviting.{Heeded, asked_first, asked_heeds}

-- The clients are found under their ids.
abbrev Found : (ℕ → Option Client) → List (ℕ × Client) → Type 0
Found look m = All (λ e. look e.0 ≡ some e.1) m

Found-agree :
    (look look' : ℕ → Option Client) (b : ℕ) (m : List (ℕ × Client))
    → Ascends b m
    → ((j : ℕ) → b ≤ j → look' j ≡ look j)
    → Found look m
    → Found look' m
Found-agree look look' b [] order same found = tt
Found-agree look look' b ((k, c) ∷ m) order same found = (
  same k order.0 ∙ found.0,
  Found-agree look look' (suc k) m order.1 (λ j le. same j (omega (arith, order.0))) found.1,
)

find-Found : (b : ℕ) (m : List (ℕ × Client)) → Ascends b m → Found (λ k. find k m) m
unfolding find
find-Found b [] order = tt
find-Found b ((k, c) ∷ m) order = (
  ground arith,
  Found-agree (λ j. find j m) (λ j. find j ((k, c) ∷ m)) (suc k) m order.1 (λ j le. ground arith)
      (find-Found (suc k) m order.1),
)

one-if :
    (b : Bool) (n : ℕ) (x y : Game)
    → n ≡ (if b then 1 else 0)
    → (if n == 1 then x else y) ≡ (if b then x else y)
one-if true n x y e = rw e
one-if false n x y e = rw e

snapshot-ids :
    (now : ℕ) (v : Server) (m : List (ℕ × Client))
    → map (λ i. i.client_id) (get_clients now (record v { clients = m })) ≡ keys m
unfolding get_clients
snapshot-ids now v [] = refl
snapshot-ids now v ((k, c) ∷ m) = ap (◌∷◌ k) (snapshot-ids now v m)

module _ {R : Type 0} (a : Amcom R) (exchanges : ℕ → Exchange) (buffer : Bytes) (f : FloatOps)
    (o : Answers) where
  -- A client takes part if its thread goes on, the whole request is written to its socket, and what is read
  -- from it has the size of a response and holds a NEW_GAME.response.
  abbrev pub takes_part : Exchange → Option Client → Bool
  takes_part x none = false
  takes_part x (some c) =
      is_listening c
      && ((15 == to_size_t x.written)
          && ((132 == to_size_t x.read_count)
              && is_some (
                  first_response new_game_kind
                    (a.deserialize a.init_receiver (take 132 x.read_data)).1)))

  abbrev pub takes_part_in : Server → ℕ → Bool
  takes_part_in v k = takes_part (exchanges k) (find k v.clients)

  -- The snapshot `ids`, of whose clients those join that take part.
  abbrev pub served_answers : List ℕ → Server → Answers
  served_answers ids v = record o { client_ids = ids; joins = takes_part_in v }

  module _ (h : IsAmcom a) where
    succeeds-takes_part :
        (x : Exchange) (c : Client) (number n : ℕ)
        → (is_listening c
            && succeeds
                (validate a new_game_kind)
                x
                c
                (scheduled_cell (new_game_transaction a buffer number n))
                [])
          ≡ takes_part x (some c)
    unfolding new_client_transaction
    succeeds-takes_part x c number n =
        let (_, (_, size, response), _) = transactions-IsWhole a h buffer number n 0 in
        let (valid, _) =
          validate-Responses a new_game_kind c.client_id 0 (take 132 x.read_data) [] tt in
        simp (size, response, valid) refl

    -- What the loop over the clients `ks` comes to, when `v₀` was the server before it.
    pub record Entered (v₀ v : Server) (ids : List ℕ) (n number : ℕ) (ks : List ℕ) (g : Game)
        (q : Option Joined) : Type 0 where
      pub after : Joined
      pub result : q ≡ some after
      pub game_right : after.game ≡ (join_all f (served_answers ids v₀) n number ks g).0
      pub sent_right : after.sent ≡ (join_all f (served_answers ids v₀) n number ks g).1
      -- A client that heeds its request is handed just this, and goes on.
      pub cooperative :
          (j : ℕ)
          → Heeded a exchanges buffer j after.sent
          → hears (find j v.clients) ≡ true
          → (to_client j after.writes ≡ map (request_of a buffer) (sents_for j after.sent))
            × (hears (find j after.server.clients) ≡ true)
      pub same_names : names after.server.clients ≡ names v₀.clients
      pub are_ready : All (λ (e : ℕ × Client). IsReady e.1) after.server.clients
      pub is_store : IsStore after.store

    join_served-Entered :
        (v₀ : Server) (ids : List ℕ) (b n number : ℕ) (m : List (ℕ × Client)) (v : Server)
        (s : Store) (g : Game)
        → Ascends b m
        → IsStore s
        → Found (λ k. find k v₀.clients) m
        → Found (λ k. find k v.clients) m
        → All (λ e. IsReady e.1) m
        → names v.clients ≡ names v₀.clients
        → All (λ (e : ℕ × Client). IsReady e.1) v.clients
        → Entered v₀ v ids n number
            (keys m)
            g
            (join_served a exchanges buffer f o n number (keys m) v s g)
    unfolding join_served join_all join
    join_served-Entered v₀ ids b n number [] v s g order is_store before found first whole ready =
        record {
          after = record { server = v; store = s; game = g; sent = []; writes = [] };
          result = refl;
          game_right = refl;
          sent_right = refl;
          cooperative = λ j well on. ((unfold to_client sents_for in refl), on);
          same_names = whole;
          are_ready = ready;
          is_store = is_store;
        }
    join_served-Entered v₀ ids b n number ((k, c) ∷ m) v s g order is_store before found first whole
          ready =
        let t = new_game_transaction a buffer number (n % 256) in
        let asked =
          ask-Answered (validate a new_game_kind) (exchanges k) k v c t s [] found.0 first.0
            is_store in
        let verdict : asked.after.count ≡ (if takes_part_in v₀ k then 1 else 0) =
          asked.counted
          ∙ ap (λ q. if q then 1 else 0)
              (succeeds-takes_part (exchanges k) c number (n % 256)
                ∙ ap (takes_part (exchanges k)) (sym before.0)) in
        let writes : List (ℕ × Bytes) = map (λ w. (k, w)) asked.after.writes in
        let told = new_game_to k number (n % 256) in
        let next = if takes_part_in v₀ k then join f (served_answers ids v₀) k g else g in
        let taken : (if asked.after.count == 1 then join f o k g else g) ≡ next =
          one-if (takes_part_in v₀ k) asked.after.count (join f o k g) g verdict in
        let rest =
          join_served-Entered v₀ ids (suc k) n ((number + 1) % 256) m asked.after.server
            asked.after.store next order.1 asked.is_store before.1
            (Found-agree (λ j. find j v.clients) (λ j. find j asked.after.server.clients) (suc k) m
              order.1 (λ j le. asked.others j (omega arith)) found.1)
            first.1 (asked.same_names ∙ whole) (asked.are_ready ready) in
        record {
          after = record rest.after {
            sent = told ∷ rest.after.sent;
            writes = writes ++ rest.after.writes;
          };
          result =
              ap
                (λ q. with_answer q (λ b. sent_before told (map (λ w. (k, w)) b.writes) (
                  join_served a exchanges buffer f o n ((number + 1) % 256) (keys m) b.server
                    b.store (if b.count == 1 then join f o k g else g))))
                asked.result
              ∙ ap
                  (λ g'. sent_before told writes (
                    join_served a exchanges buffer f o n ((number + 1) % 256) (keys m)
                      asked.after.server asked.after.store g'))
                  taken
              ∙ ap (sent_before told writes) rest.result;
          cooperative = λ j.
              asked_first a exchanges buffer j k number (n % 256) asked.after.writes rest.after.sent
                rest.after.writes (hears (find j v.clients))
                (hears (find j asked.after.server.clients))
                (hears (find j rest.after.server.clients))
                (λ hit well on.
                  let same : k ≡ j = ground arith in
                  let r =
                    asked_heeds a exchanges buffer h k number (n % 256) v c _ asked
                      (subst (λ i. heeds a buffer told (exchanges i) ≡ true) (sym same) well)
                      (sym (ap hears found.0) ∙ ap (λ i. hears (find i v.clients)) same ∙ on) in
                  (r.0, ap (λ i. hears (find i asked.after.server.clients)) (sym same) ∙ r.1))
                (λ miss. ap hears (asked.others j (ground arith))) (rest.cooperative j);
          game_right = rest.game_right;
          sent_right = ap (◌∷◌ told) rest.sent_right;
          same_names = rest.same_names;
          are_ready = rest.are_ready;
          is_store = rest.is_store;
        }

    pub snapshot-Entered :
        (now : ℕ) (v : Server) (s : Store) (g : Game)
        → Ascends 0 v.clients
        → IsStore s
        → All (λ (e : ℕ × Client). IsReady e.1) v.clients
        → let ids = map (λ i. i.client_id) (get_clients now v) in
          Entered v v ids
            (length ids)
            0
            ids
            g
            (join_served a exchanges buffer f o (length ids) 0 ids v s g)
    snapshot-Entered now v s g order is_store ready =
        let ids = map (λ i. i.client_id) (get_clients now v) in
        let known = find-Found 0 v.clients order in
        subst
          (λ ks.
            Entered v v ids (length ids) 0 ks g
              (join_served a exchanges buffer f o (length ids) 0 ks v s g))
          (sym (snapshot-ids now v v.clients))
          (join_served-Entered v ids 0 (length ids) 0 v.clients v s g order is_store known known
            ready refl ready)

    -- With a packet library as documented, registered clients, the cells of memory below the next
    -- address, and an empty queue at every client whose thread goes on: the loop of the phase
    -- NEW_GAME_REQUEST, which asks the clients of a snapshot one after another, each client's thread making
    -- its round before the wait for it ends, has a result, and with it the phase comes to what it does when
    -- exactly those join whose thread goes on, who get the whole request, and who send back as many bytes as
    -- a response has with a NEW_GAME.response in them.
    pub new_game_request-asks :
        (now : ℕ) (v : Server) (s : Store) (g : Game)
        → IsRegistry v
        → IsStore s
        → All (λ (e : ℕ × Client). IsReady e.1) v.clients
        → let ids = map (λ i. i.client_id) (get_clients now v) in
          (after : Joined) × (join_served a exchanges buffer f o (length ids) 0 ids v s g
            ≡ some after)
          × (new_game_request f (served_answers ids v) g
              ≡ (set_out f (served_answers ids v) after.game, after.sent))
    unfolding new_game_request
    new_game_request-asks now v s g r is_store ready =
        let ids = map (λ i. i.client_id) (get_clients now v) in
        let answers = served_answers ids v in
        let joined = join_all f answers (length ids) 0 ids g in
        let entered = snapshot-Entered now v s g r.ascends is_store ready in
        (
          entered.after,
          entered.result,
          ap (λ h. (set_out f answers h, joined.1)) (sym entered.game_right)
              ∙ ap (λ l. (set_out f answers entered.after.game, l)) (sym entered.sent_right),
        )
