-- ===== src/Base/OrderedMap.antt =====
-- `std::map<unsigned int, V>`: an association list in ascending order of its keys.
use Prim.Native.Nat.{ℕ, suc, ◌+◌, ◌≤◌, ◌<◌}
use mathlib.Core.Path.{◌≡◌, refl}
use mathlib.Core.Bool.{Bool}
use mathlib.Core.List.{List, [], ◌∷◌, map}
use mathlib.Core.Option.{Option, none, some}
use native.Mathlib.Omega.{arith}
use mniam_headless.Base.Tests.{ltb, ◌==◌, if◌then◌else◌}
use mniam_headless.Base.Lists.{length}

module _ {ℓ} {V : Type ℓ} where
  unfoldable pub find : ℕ → List (ℕ × V) → Option V
  find k [] = none
  find k ((j, v) ∷ m) = if j == k then some v else find k m

  -- `emplace` and `try_emplace`: a key that is there keeps its value.
  unfoldable pub emplace : ℕ → V → List (ℕ × V) → List (ℕ × V)
  emplace k v [] = (k, v) ∷ []
  emplace k v ((j, w) ∷ m) =
      if j == k then (j, w) ∷ m else if ltb k j then (k, v) ∷ (j, w) ∷ m else (j, w) ∷ emplace k v m

  unfoldable pub erase : ℕ → List (ℕ × V) → List (ℕ × V)
  erase k [] = []
  erase k ((j, w) ∷ m) = if j == k then m else (j, w) ∷ erase k m

  -- `std::erase_if`, with the test on the value.
  unfoldable pub erase_if : (V → Bool) → List (ℕ × V) → List (ℕ × V)
  erase_if p [] = []
  erase_if p ((j, w) ∷ m) = if p w then erase_if p m else (j, w) ∷ erase_if p m

  -- A write through the reference that a lookup gave; a missing key changes nothing.
  unfoldable pub assign : ℕ → V → List (ℕ × V) → List (ℕ × V)
  assign k v [] = []
  assign k v ((j, w) ∷ m) = if j == k then (j, v) ∷ m else (j, w) ∷ assign k v m

  abbrev pub keys : List (ℕ × V) → List ℕ
  keys = map (λ e. e.0)

  -- Keys ascend strictly and the first is at least `b`.
  abbrev pub Ascends : ℕ → List (ℕ × V) → Type 0
  Ascends b [] = Unit {0}
  Ascends b ((j, v) ∷ m) = (b ≤ j) × Ascends (suc j) m

  -- Every key is below `n`.
  abbrev pub Below : ℕ → List (ℕ × V) → Type 0
  Below n [] = Unit {0}
  Below n ((j, v) ∷ m) = (j < n) × Below n m

module _ {ℓ} {V : Type ℓ} where
  pub Ascends-mono : (a b : ℕ) (m : List (ℕ × V)) → a ≤ b → Ascends b m → Ascends a m
  Ascends-mono a b [] h s = tt
  Ascends-mono a b ((j, v) ∷ m) h s = (omega arith, s.1)

  pub Below-mono : (a b : ℕ) (m : List (ℕ × V)) → a ≤ b → Below a m → Below b m
  Below-mono a b [] h s = tt
  Below-mono a b ((j, v) ∷ m) h s = (omega arith, Below-mono a b m h s.1)

  pub find-Ascends : (k b : ℕ) (m : List (ℕ × V)) → k < b → Ascends b m → find k m ≡ none
  unfolding find
  find-Ascends k b [] h s = refl
  find-Ascends k b ((j, v) ∷ m) h s = ground (arith, find-Ascends k (suc j) m)

  pub find-Below : (n : ℕ) (m : List (ℕ × V)) → Below n m → find n m ≡ none
  unfolding find
  find-Below n [] s = refl
  find-Below n ((j, v) ∷ m) s = ground (arith, find-Below n m)

  pub find-emplace :
      (i k b : ℕ) (v : V) (m : List (ℕ × V))
      → Ascends b m
      → find i (emplace k v m)
        ≡ elim (find i m) [ some w ↦ some w | none ↦ if k == i then some v else none ]
  unfolding find emplace
  find-emplace i k b v [] s = ground arith
  find-emplace i k b v ((j, w) ∷ m) s =
      ground (arith, find-emplace i k (suc j) v m s.1, find-Ascends i (suc j) m)

  pub emplace-Ascends :
      (k b : ℕ) (v : V) (m : List (ℕ × V)) → b ≤ k → Ascends b m → Ascends b (emplace k v m)
  unfolding emplace
  emplace-Ascends k b v [] h s = (h, tt)
  emplace-Ascends k b v ((j, w) ∷ m) h s = ground (arith, emplace-Ascends k (suc j) v m)

  pub emplace-Below :
      (k n : ℕ) (v : V) (m : List (ℕ × V)) → k < n → Below n m → Below n (emplace k v m)
  unfolding emplace
  emplace-Below k n v [] h s = (h, tt)
  emplace-Below k n v ((j, w) ∷ m) h s = ground (arith, emplace-Below k n v m)

  -- A key above all others goes to the end.
  pub length-emplace :
      (k : ℕ) (v : V) (m : List (ℕ × V)) → find k m ≡ none → length (emplace k v m) ≡ length m + 1
  unfolding find emplace
  length-emplace k v [] h = omega arith
  length-emplace k v ((j, w) ∷ m) h = ground (arith, length-emplace k v m)

  pub erase-Ascends : (k b : ℕ) (m : List (ℕ × V)) → Ascends b m → Ascends b (erase k m)
  unfolding erase
  erase-Ascends k b [] s = s
  erase-Ascends k b ((j, w) ∷ m) s =
      ground (arith, erase-Ascends k (suc j) m, Ascends-mono b (suc j) m)

  pub erase-Below : (k n : ℕ) (m : List (ℕ × V)) → Below n m → Below n (erase k m)
  unfolding erase
  erase-Below k n [] s = s
  erase-Below k n ((j, w) ∷ m) s = ground (arith, erase-Below k n m)

  pub find-erase :
      (i k b : ℕ) (m : List (ℕ × V))
      → Ascends b m
      → find i (erase k m) ≡ (if k == i then none else find i m)
  unfolding find erase
  find-erase i k b [] s = ground arith
  find-erase i k b ((j, w) ∷ m) s =
      ground (arith, find-erase i k (suc j) m s.1, find-Ascends i (suc j) m)

  pub length-erase : (k : ℕ) (m : List (ℕ × V)) → length (erase k m) ≤ length m
  unfolding erase
  length-erase k [] = omega arith
  length-erase k ((j, w) ∷ m) = ground (arith, length-erase k m)

  pub erase_if-Ascends :
      (p : V → Bool) (b : ℕ) (m : List (ℕ × V)) → Ascends b m → Ascends b (erase_if p m)
  unfolding erase_if
  erase_if-Ascends p b [] s = s
  erase_if-Ascends p b ((j, w) ∷ m) s =
      ground (arith, erase_if-Ascends p (suc j) m s.1, Ascends-mono b (suc j) (erase_if p m))

  pub erase_if-Below :
      (p : V → Bool) (n : ℕ) (m : List (ℕ × V)) → Below n m → Below n (erase_if p m)
  unfolding erase_if
  erase_if-Below p n [] s = s
  erase_if-Below p n ((j, w) ∷ m) s = ground (arith, erase_if-Below p n m)

  pub length-erase_if : (p : V → Bool) (m : List (ℕ × V)) → length (erase_if p m) ≤ length m
  unfolding erase_if
  length-erase_if p [] = omega arith
  length-erase_if p ((j, w) ∷ m) = ground (arith, length-erase_if p m)

  pub find-assign :
      (i k : ℕ) (v w : V) (m : List (ℕ × V))
      → find k m ≡ some w
      → find i (assign k v m) ≡ (if k == i then some v else find i m)
  unfolding find assign
  find-assign i k v w [] h = cc
  find-assign i k v w ((j, u) ∷ m) h = ground (arith, find-assign i k v w m)

  pub assign-Ascends : (k b : ℕ) (v : V) (m : List (ℕ × V)) → Ascends b m → Ascends b (assign k v m)
  unfolding assign
  assign-Ascends k b v [] s = s
  assign-Ascends k b v ((j, w) ∷ m) s = ground (arith, assign-Ascends k (suc j) v m)

  pub assign-Below : (k n : ℕ) (v : V) (m : List (ℕ × V)) → Below n m → Below n (assign k v m)
  unfolding assign
  assign-Below k n v [] s = s
  assign-Below k n v ((j, w) ∷ m) s = ground (arith, assign-Below k n v m)
