-- ===== src/Remote/Holdings.antt =====
-- What `connectionThread` of src/remote_connection.cpp takes from the system and gives back.
use mniam_headless.Base.{
  ℕ, suc, ◌-◌, ◌≡◌, refl, ap, ◌∙◌, Bool, true, false, not, List, [], ◌∷◌, ◌++◌, Option, none, some,
  ◌==◌, if◌then◌else◌, arith,
}
use mniam_headless.Remote.Thread.{
  Address, Event, opened, closed, looked_up, freed, Opening, open_socket, try_address,
}

-- What the thread holds: open sockets, and lists of addresses.
pub record Held : Type 0 where
  pub sockets : List ℕ
  pub lists : ℕ

abbrev pub release : ℕ → List ℕ → List ℕ
release h [] = []
release h (x ∷ xs) = let rest = release h xs in if x == h then xs else x ∷ rest

abbrev pub hold : Event → Held → Held
hold (opened h) s = record s { sockets = h ∷ s.sockets }
hold (closed h) s = record s { sockets = release h s.sockets }
hold looked_up s = record s { lists = suc s.lists }
hold freed s = record s { lists = s.lists - 1 }

unfoldable pub held : List Event → Held → Held
held [] s = s
held (e ∷ es) s = held es (hold e s)

-- No call of `socket` fails before an address accepts the connection.
pub sockets_suffice : List Address → Bool
sockets_suffice [] = true
sockets_suffice (x ∷ xs) =
    let rest = sockets_suffice xs in
    elim x.socket [ none ↦ false | some h ↦ if x.accepts then true else rest ]

-- `socket` succeeds until an address accepts the connection.
pub reaches : List Address → Bool
reaches [] = false
reaches (x ∷ xs) =
    let rest = reaches xs in
    elim x.socket [ none ↦ false | some h ↦ if x.accepts then true else rest ]

abbrev pub reaches_one : Option (List Address) → Bool
reaches_one none = false
reaches_one (some xs) = reaches xs

abbrev pub is_some : Option ℕ → Bool
is_some none = false
is_some (some h) = true

pub open_socket-reaches : (xs : List Address) → is_some (open_socket xs none).socket ≡ reaches xs
unfolding open_socket reaches try_address
open_socket-reaches [] = refl
open_socket-reaches (x ∷ xs) = ground (arith, open_socket-reaches xs)

abbrev pub with_socket : Option ℕ → Held → Held
with_socket none s = s
with_socket (some h) s = record s { sockets = h ∷ s.sockets }

pub held-append : (xs ys : List Event) (s : Held) → held (xs ++ ys) s ≡ held ys (held xs s)
unfolding held
held-append [] ys s = refl
held-append (x ∷ xs) ys s = held-append xs ys (hold x s)

released : (h : ℕ) (s : Held) → hold (closed h) (hold (opened h) s) ≡ s
released h s = ground arith

try_address-held :
    (o : Option ℕ) (accepts : Bool) (rest : Opening) (s : Held)
    → held rest.events s ≡ with_socket rest.socket s
    → held (try_address o accepts rest).events s ≡ with_socket (try_address o accepts rest).socket s
unfolding try_address held
try_address-held none accepts rest s e = refl
try_address-held (some h) true rest s e = refl
try_address-held (some h) false rest s e = ap (held rest.events) (released h s) ∙ e

open_socket-held :
    (xs : List Address) (s : Held)
    → held (open_socket xs none).events s ≡ with_socket (open_socket xs none).socket s
unfolding open_socket held
open_socket-held [] s = refl
open_socket-held (x ∷ xs) s =
    try_address-held x.socket x.accepts (open_socket xs none) s (open_socket-held xs s)

pub open_socket-failed :
    (xs : List Address) (socket : Option ℕ)
    → (open_socket xs socket).failed ≡ not (sockets_suffice xs)
unfolding open_socket sockets_suffice try_address
open_socket-failed [] socket = refl
open_socket-failed (x ∷ xs) socket = ground (arith, open_socket-failed xs none)

pub failed_open_socket-none :
    (xs : List Address) → sockets_suffice xs ≡ false → (open_socket xs none).socket ≡ none
unfolding open_socket sockets_suffice try_address
failed_open_socket-none [] few = refl
failed_open_socket-none (x ∷ xs) few = ground (arith, failed_open_socket-none xs)

abbrev pub nothing : Held
nothing = record { sockets = []; lists = 0 }

freed_with_socket :
    (o : Option ℕ) (s : Held) → hold freed (with_socket o (hold looked_up s)) ≡ with_socket o s
freed_with_socket none s = ground arith
freed_with_socket (some h) s = ground arith

pub whole_opening-held :
    (xs : List Address)
    → held (looked_up ∷ (open_socket xs none).events ++ freed ∷ []) nothing
      ≡ with_socket (open_socket xs none).socket nothing
unfolding held
whole_opening-held xs =
    let o = open_socket xs none in
    held-append o.events (freed ∷ []) (hold looked_up nothing)
    ∙ ap (hold freed) (open_socket-held xs (hold looked_up nothing))
    ∙ freed_with_socket o.socket nothing

pub failed_opening-held :
    (xs : List Address)
    → sockets_suffice xs ≡ false
    → held (looked_up ∷ (open_socket xs none).events) nothing ≡ record { sockets = []; lists = 1 }
unfolding held
failed_opening-held xs few =
    open_socket-held xs (hold looked_up nothing)
    ∙ ap (λ o. with_socket o (hold looked_up nothing)) (failed_open_socket-none xs few)
