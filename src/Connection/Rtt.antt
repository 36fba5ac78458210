-- ===== src/Connection/Rtt.antt =====
-- The log of the last round trip times and their mean.
use native.Mathlib.Nat.{mul_comm, le-div_iff_mul-le, div-le_of_le-mul}
use mniam_headless.Base.{
  Bool-cases, inl, inr, lt→ltb, ℕ, suc, ◌+◌, ◌-◌, ◌*◌, ◌%◌, ◌^◌, ◌≤◌, ◌<◌, ◌≡◌, refl, List, [], ◌∷◌,
  ◌++◌, length, drop, All, arith, ltb,
}
use mniam_headless.Connection.Clients.{Client, trim_log, notify_rtt, accumulate, get_rtt}

trim_log-drop : (xs : List ℕ) → trim_log xs ≡ drop (length xs - 10) xs
unfolding trim_log
trim_log-drop [] = refl
trim_log-drop (x ∷ xs) = elim (Bool-cases (ltb 10 (suc (length xs)))) [
  | inl over ↦
      let one_more : suc (length xs) - 10 ≡ suc (length xs - 10) = ground arith in
      rw (over, one_more) (trim_log-drop xs)
  | inr fits ↦ let none_over : suc (length xs) - 10 ≡ 0 = ground arith in rw (fits, none_over)
]

-- The log after a notification: the last ten at most of the old entries and the new one, which is
-- kept modulo 2 ^ 32.
pub notify_rtt-drop :
    (rtt : ℕ) (c : Client)
    → let log = c.rtt_log ++ rtt % 2 ^ 32 ∷ [] in
      (notify_rtt rtt c).rtt_log ≡ drop (length log - 10) log
unfolding notify_rtt
notify_rtt-drop rtt c = trim_log-drop (c.rtt_log ++ rtt % 2 ^ 32 ∷ [])

abbrev Between : ℕ → ℕ → List ℕ → Type 0
Between lo hi xs = All (λ x. (lo ≤ x) × (x ≤ hi)) xs

accumulate_bounds :
    (lo hi sum : ℕ) (xs : List ℕ)
    → Between lo hi xs
    → sum + hi * length xs < 2 ^ 32
    → (sum + lo * length xs ≤ accumulate sum xs) × (accumulate sum xs ≤ sum + hi * length xs)
unfolding accumulate
accumulate_bounds lo hi sum [] b h = grind arith
accumulate_bounds lo hi sum (x ∷ xs) b h =
    let fits : (sum + x) % 2 ^ 32 ≡ sum + x = grind arith in
    rw fits (grind (arith, accumulate_bounds lo hi (sum + x) xs b.1))

-- The mean of a log of one to ten entries lies between bounds of its entries, if ten times the upper
-- bound is an `unsigned int`.
get_rtt_bounds :
    (c : Client) (lo hi : ℕ)
    → Between lo hi c.rtt_log
    → 0 < length c.rtt_log
    → length c.rtt_log ≤ 10
    → hi * 10 < 2 ^ 32
    → (lo ≤ get_rtt c) × (get_rtt c ≤ hi)
unfolding get_rtt
get_rtt_bounds c lo hi b some_entry few small =
    let n = length c.rtt_log in
    let total = accumulate 0 c.rtt_log in
    let product : hi * n ≤ hi * 10 = grind arith in
    let sums = accumulate_bounds lo hi 0 c.rtt_log b (omega (arith, product)) in
    let low : lo * n ≤ total = omega (arith, sums.0) in
    let high : total ≤ n * hi = omega (arith, sums.1, mul_comm n hi) in
    rw (lt→ltb 0 n some_entry) ((le-div_iff_mul-le some_entry).1 low, div-le_of_le-mul n high)
