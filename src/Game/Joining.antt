-- ===== src/Game/Joining.antt =====
-- The numbers of the players at the beginning of a match.
use mathlib.Core.List.{append-nil}
use mniam_headless.Base.{
  ℕ, zero, suc, ◌+◌, ◌%◌, ◌^◌, ◌≤◌, ◌<◌, ◌≡◌, refl, ap, sym, ◌∙◌, Bool, true, false, Bool-cases,
  inl, inr, List, [], ◌∷◌, ◌++◌, some, get_elem?, length, take, map, arith, if◌then◌else◌,
}
use mniam_headless.Engine.{FloatOps, World}
use mniam_headless.Game.State.{Player, Game, new_game_to, player_update_sent}
use mniam_headless.Amcom.{PlayerState}
use mniam_headless.Game.Setup.{Answers, join, join_all}
use mniam_headless.Game.Updates.{player_state, send_players}
use mniam_headless.Game.Batches.{player_states, flatten, send_players-Batches}

-- Those that join.
pub joiners : (ℕ → Bool) → List ℕ → List ℕ
joiners joins [] = []
joiners joins (k ∷ ks) = if joins k then k ∷ joiners joins ks else joiners joins ks

abbrev pub ids : Game → List ℕ
ids g = map (λ p. p.client_id) g.players

map-snoc :
    (ps : List Player) (p : Player)
    → map (λ q. q.client_id) (ps ++ p ∷ []) ≡ map (λ q. q.client_id) ps ++ p.client_id ∷ []
map-snoc [] p = refl
map-snoc (q ∷ ps) p = rw (map-snoc ps p)

snoc-append : (xs : List ℕ) (x : ℕ) (ys : List ℕ) → (xs ++ x ∷ []) ++ ys ≡ xs ++ x ∷ ys
snoc-append [] x ys = refl
snoc-append (z ∷ xs) x ys = rw (snoc-append xs x ys)

join-ids : (f : FloatOps) (a : Answers) (k : ℕ) (g : Game) → ids (join f a k g) ≡ ids g ++ k ∷ []
unfolding join
join-ids f a k g = map-snoc g.players _

joined_if-ids :
    (f : FloatOps) (a : Answers) (k : ℕ) (ks : List ℕ) (g : Game) (b : Bool)
    → a.joins k ≡ b
    → ids (if b then join f a k g else g) ++ joiners a.joins ks ≡ ids g ++ joiners a.joins (k ∷ ks)
unfolding joiners
joined_if-ids f a k ks g true e =
    rw (e, join-ids f a k g) (snoc-append (ids g) k (joiners a.joins ks))
joined_if-ids f a k ks g false e = rw e

join_all-ids :
    (f : FloatOps) (a : Answers) (n m : ℕ) (ks : List ℕ) (g : Game)
    → ids (join_all f a n m ks g).0 ≡ ids g ++ joiners a.joins ks
unfolding join_all joiners
join_all-ids f a n m [] g = sym (append-nil (ids g))
join_all-ids f a n m (k ∷ ks) g =
    join_all-ids f a n ((m + 1) % 256) ks (if a.joins k then join f a k g else g)
    ∙ joined_if-ids f a k ks g (a.joins k) refl

join_all-sent :
    (f : FloatOps) (a : Answers) (n m : ℕ) (ks : List ℕ) (g : Game) (i k : ℕ)
    → m < 256
    → get_elem? ks i ≡ some k
    → get_elem? (join_all f a n m ks g).1 i ≡ some (new_game_to k ((m + i) % 256) (n % 256))
unfolding join_all
join_all-sent f a n m [] g i k small h = cc
join_all-sent f a n m (j ∷ ks) g zero k small h =
    let number : (m + 0) % 256 ≡ m = omega arith in
    let same : j ≡ k = ground arith in rw (number, same)
join_all-sent f a n m (j ∷ ks) g (suc i) k small h =
    let number : ((m + 1) % 256 + i) % 256 ≡ (m + suc i) % 256 = omega arith in
    join_all-sent f a n ((m + 1) % 256) ks (if a.joins j then join f a j g else g) i k (omega arith)
      h
    ∙ ap (λ told. some (new_game_to k told (n % 256))) number

joiners-place :
    (joins : ℕ → Bool) (ks : List ℕ) (i k : ℕ)
    → get_elem? ks i ≡ some k
    → joins k ≡ true
    → get_elem? (joiners joins ks) (length (joiners joins (take i ks))) ≡ some k
unfolding joiners
joiners-place joins [] i k h on = cc
joiners-place joins (j ∷ ks) zero k h on = let same : j ≡ k = ground arith in rw (same, on)
joiners-place joins (j ∷ ks) (suc i) k h on = elim (Bool-cases (joins j)) [
  | inl joined ↦ rw joined (joiners-place joins ks i k h on)
  | inr absent ↦ rw absent (joiners-place joins ks i k h on)
]

numbers-order :
    (f : FloatOps) (a : Answers) (n : ℕ) (ks : List ℕ) (g : Game)
    → g.players ≡ []
    → ids (join_all f a n 0 ks g).0 ≡ joiners a.joins ks
numbers-order f a n ks g fresh =
    join_all-ids f a n 0 ks g ∙ ap (λ ps. map (λ p. p.client_id) ps ++ joiners a.joins ks) fresh

-- At the beginning of a match without players, every client of the snapshot, whether it joins or not, is told
-- its place there, modulo 256, as its number, and the number of clients modulo 256. The players are then the
-- clients that join, in the order of the snapshot.
pub join_all-numbers :
    (f : FloatOps) (a : Answers) (n : ℕ) (ks : List ℕ) (g : Game)
    → g.players ≡ []
    → let (g', sent) = join_all f a n 0 ks g in
      ((i k : ℕ)
        → get_elem? ks i ≡ some k
        → get_elem? sent i ≡ some (new_game_to k (i % 256) (n % 256)))
      × (map (λ p. p.client_id) g'.players ≡ joiners a.joins ks)
join_all-numbers f a n ks g fresh = (
  λ i k h.
      let from_zero : 0 + i ≡ i = omega arith in
      join_all-sent f a n 0 ks g i k (omega arith) h
      ∙ ap (λ told. some (new_game_to k (told % 256) (n % 256))) from_zero,
  numbers-order f a n ks g fresh,
)

joiners-few : (joins : ℕ → Bool) (ks : List ℕ) (i : ℕ) → length (joiners joins (take i ks)) ≤ i
unfolding joiners
joiners-few joins [] zero = omega arith
joiners-few joins [] (suc i) = omega arith
joiners-few joins (k ∷ ks) zero = omega arith
joiners-few joins (k ∷ ks) (suc i) = elim (Bool-cases (joins k)) [
  | inl joined ↦ rw joined (omega (arith, joiners-few joins ks i))
  | inr absent ↦ rw absent (omega (arith, joiners-few joins ks i))
]

joiners-fewer :
    (joins : ℕ → Bool) (ks : List ℕ) (i j absent : ℕ)
    → j < i
    → get_elem? ks j ≡ some absent
    → joins absent ≡ false
    → length (joiners joins (take i ks)) < i
unfolding joiners
joiners-fewer joins [] i j absent before h off = cc
joiners-fewer joins (k ∷ ks) zero j absent before h off = absurd (omega (arith, before))
joiners-fewer joins (k ∷ ks) (suc i) zero absent before h off =
    let same : k ≡ absent = ground arith in rw (same, off) (omega (arith, joiners-few joins ks i))
joiners-fewer joins (k ∷ ks) (suc i) (suc j) absent before h off =
    let rest = joiners-fewer joins ks i j absent (omega (arith, before)) h off in
    elim (Bool-cases (joins k)) [
      | inl joined ↦ rw joined (omega (arith, rest))
      | inr missing ↦ rw missing (omega (arith, rest))
    ]

-- The player at a place in a list of players with these ids, and the state under which an update has it.
player_at :
    (w : World) (m : ℕ) (ps : List Player) (place k : ℕ)
    → m + place < 256
    → get_elem? (map (λ p. p.client_id) ps) place ≡ some k
    → (p : Player) × (p.client_id ≡ k)
      × (get_elem? ps place ≡ some p)
      × (get_elem? (player_states w m ps) place ≡ some (player_state w (m + place) p))
unfolding player_states
player_at w m [] place k small h = cc
player_at w m (p ∷ ps) zero k small h =
    let same : m ≡ m + 0 = omega arith in
    (p, ground arith, refl, ap (λ number. some (player_state w number p)) same)
player_at w m (p ∷ ps) (suc place) k small h =
    let next : (m + 1) % 2 ^ 16 ≡ m + 1 = omega (arith, small) in
    let over : m + 1 + place ≡ m + suc place = omega arith in
    let (q, its, there, state) = player_at w (m + 1) ps place k (omega (arith, small)) h in
    (
      q,
      its,
      there,
      ap (λ number. get_elem? (player_states w number ps) place) next
          ∙ state
          ∙ ap (λ number. some (player_state w number q)) over,
    )

-- In a match that begins without players, let a client that joins stand at place `i` below 256 of the
-- snapshot, after one that does not join. It is told the number `i`. But the updates of the players that
-- are sent, in any world, have the state of its player under a smaller number: the number of clients
-- before it that join.
pub join_all-misnumbers :
    (f : FloatOps) (a : Answers) (n : ℕ) (ks : List ℕ) (g : Game) (w : World) (i j k absent : ℕ)
    → g.players ≡ []
    → get_elem? ks i ≡ some k
    → a.joins k ≡ true
    → get_elem? ks j ≡ some absent
    → a.joins absent ≡ false
    → j < i
    → i < 256
    → let (g', sent) = join_all f a n 0 ks g in
      let place = length (joiners a.joins (take i ks)) in
      (p : Player) × (bs : List (List PlayerState)) × (get_elem? sent i
        ≡ some (new_game_to k i (n % 256)))
      × (p.client_id ≡ k)
      × (get_elem? g'.players place ≡ some p)
      × (send_players player_update_sent w 0 [] g'.players ≡ map player_update_sent bs)
      × (get_elem? (flatten bs) place ≡ some (player_state w place p))
      × ((player_state w place p).player_no ≡ place)
      × (place < i)
unfolding player_state
join_all-misnumbers f a n ks g w i j k absent fresh here on there off before small =
    let g' = (join_all f a n 0 ks g).0 in
    let place = length (joiners a.joins (take i ks)) in
    let fewer : place < i = joiners-fewer a.joins ks i j absent before there off in
    let from_zero : 0 + place ≡ place = omega arith in
    let told : i % 256 ≡ i = omega (arith, small) in
    let (p, its, at, state) = player_at w 0 g'.players place k (omega (arith, fewer, small)) (
      ap (λ l. get_elem? l place) (numbers-order f a n ks g fresh)
      ∙ joiners-place a.joins ks i k here on) in
    let (bs, updates, batches) = send_players-Batches player_update_sent w g'.players in
    (
      p,
      bs,
      (join_all-numbers f a n ks g fresh).0 i k here
          ∙ ap (λ number. some (new_game_to k number (n % 256))) told,
      its,
      at,
      updates,
      ap (λ states. get_elem? states place) batches.all_sent
          ∙ state
          ∙ ap (λ number. some (player_state w number p)) from_zero,
      omega (arith, fewer, small),
      fewer,
    )
