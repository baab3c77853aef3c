-- ===== src/Balancer/Weights.antt =====
-- What a pick of webook/pkg/grpcx/balancer/wrr/wrr.go does to the current weights.
use weishu.Base.{
  ℕ, zero, suc, ◌+◌, ◌^◌, ◌<◌, ◌≡◌, refl, ◌∙◌, ap, Bool, true, false, Bool-cases, inl, inr, some,
  List, [], ◌∷◌, arith, ◌==◌, if◌then◌else◌, length,
}
use weishu.Balancer.Picker.{
  WeightConn, u64, gt_int64, total_from, raised, best_from, lower_at, pick,
}

-- The sum of the current weights, as a bit pattern.
abbrev pub current_sum : List WeightConn → ℕ
current_sum [] = 0
current_sum (c ∷ cs) = u64 (c.current_weight + current_sum cs)

abbrev weight_sum : List WeightConn → ℕ
weight_sum [] = 0
weight_sum (c ∷ cs) = u64 (c.weight + weight_sum cs)

total_lem :
    (total : ℕ) (cs : List WeightConn) → u64 (total_from total cs) ≡ u64 (total + weight_sum cs)
total_lem total [] = omega arith
total_lem total (c ∷ cs) = total_lem (u64 (total + c.weight)) cs ∙ omega arith

current_sum-raised :
    (cs : List WeightConn) → current_sum (raised cs) ≡ u64 (current_sum cs + weight_sum cs)
current_sum-raised [] = omega arith
current_sum-raised (c ∷ cs) = omega (arith, current_sum-raised cs)

current_sum-lower_at :
    (place total : ℕ) (cs : List WeightConn)
    → place < length cs
    → u64 (current_sum (lower_at place total cs).1 + total) ≡ u64 (current_sum cs)
current_sum-lower_at place total [] h = absurd (omega arith)
current_sum-lower_at zero total (c ∷ cs) h = omega arith
current_sum-lower_at (suc place) total (c ∷ cs) h =
    omega (arith, current_sum-lower_at place total cs (omega arith))

best_in_range :
    (place best i n : ℕ) (cs : List WeightConn)
    → place < n
    → i + length cs ≡ n
    → best_from place best i cs < n
best_in_range place best i n [] h e = h
best_in_range place best i n (c ∷ cs) h e = elim (Bool-cases (gt_int64 c.current_weight best)) [
  | inl g ↦ rw g (best_in_range i c.current_weight (i + 1) n cs (omega arith) (omega arith))
  | inr g ↦ rw g (best_in_range place best (i + 1) n cs h (omega arith))
]

length-raised : (cs : List WeightConn) → length (raised cs) ≡ length cs
length-raised [] = refl
length-raised (c ∷ cs) = omega (arith, length-raised cs)

current_sum_small : (cs : List WeightConn) → current_sum cs < 2 ^ 64
current_sum_small [] = omega arith
current_sum_small (c ∷ cs) = omega arith

cancel_total :
    (x t s w r : ℕ)
    → u64 (x + t) ≡ u64 r
    → r ≡ u64 (s + w)
    → u64 t ≡ u64 (0 + w)
    → x < 2 ^ 64
    → s < 2 ^ 64
    → x ≡ s
cancel_total x t s w r a b c h k = omega arith

lowered :
    (cs : List WeightConn) (place : ℕ)
    → place < length cs
    → current_sum (lower_at place (total_from 0 cs) (raised cs)).1 ≡ current_sum cs
lowered cs place h =
    let total = total_from 0 cs in
    cancel_total (current_sum (lower_at place total (raised cs)).1) total (current_sum cs)
      (weight_sum cs) (current_sum (raised cs))
      (current_sum-lower_at place total (raised cs) (omega (arith, h, length-raised cs)))
      (current_sum-raised cs) (total_lem 0 cs)
      (current_sum_small (lower_at place total (raised cs)).1) (current_sum_small cs)

-- A pick leaves the sum of the current weights, as a bit pattern, as it was: what the best connection
-- loses is what all of them gained.
pub current_sum-pick : (cs : List WeightConn) → current_sum (pick cs).1 ≡ current_sum cs
unfolding pick
current_sum-pick [] = refl
current_sum-pick (c ∷ cs) =
    lowered (c ∷ cs) (best_from 0 (u64 (c.current_weight + c.weight)) 0 (raised (c ∷ cs))) (
      best_in_range 0 (u64 (c.current_weight + c.weight)) 0 (length (c ∷ cs)) (raised (c ∷ cs))
        (omega arith) (omega (arith, length-raised (c ∷ cs))))

-- What is fixed about the connections.
abbrev pub ready_of : List WeightConn → List (ℕ × ℕ)
ready_of [] = []
ready_of (c ∷ cs) = (c.sub_conn, c.weight) ∷ ready_of cs

abbrev pub has_conn : ℕ → List WeightConn → Bool
has_conn s [] = false
has_conn s (c ∷ cs) = if c.sub_conn == s then true else has_conn s cs

ready_of-raised : (cs : List WeightConn) → ready_of (raised cs) ≡ ready_of cs
ready_of-raised [] = refl
ready_of-raised (c ∷ cs) = ap (λ r. (c.sub_conn, c.weight) ∷ r) (ready_of-raised cs)

ready_of-lower_at :
    (place total : ℕ) (cs : List WeightConn) → ready_of (lower_at place total cs).1 ≡ ready_of cs
ready_of-lower_at place total [] = refl
ready_of-lower_at zero total (c ∷ cs) = refl
ready_of-lower_at (suc place) total (c ∷ cs) =
    ap (λ r. (c.sub_conn, c.weight) ∷ r) (ready_of-lower_at place total cs)

lower_at_finds :
    (place total : ℕ) (cs : List WeightConn)
    → place < length cs
    → (s : ℕ) × ((lower_at place total cs).0 ≡ some s) × (has_conn s cs ≡ true)
lower_at_finds place total [] h = absurd (omega arith)
lower_at_finds zero total (c ∷ cs) h = (c.sub_conn, refl, ground arith)
lower_at_finds (suc place) total (c ∷ cs) h =
    let (s, at, there) = lower_at_finds place total cs (omega arith) in
    (s, at, ground (arith, there))

-- With a connection at all, a pick returns one of them, and changes neither the connections nor their
-- weights.
pub pick_returns_one :
    (c : WeightConn) (cs : List WeightConn)
    → ((s : ℕ) × ((pick (c ∷ cs)).0 ≡ some s) × (has_conn s (raised (c ∷ cs)) ≡ true))
      × (ready_of (pick (c ∷ cs)).1 ≡ ready_of (c ∷ cs))
unfolding pick
pick_returns_one c cs =
    let best = best_from 0 (u64 (c.current_weight + c.weight)) 0 (raised (c ∷ cs)) in
    let total = total_from 0 (c ∷ cs) in
    let low : best < length (c ∷ cs) =
      best_in_range 0 (u64 (c.current_weight + c.weight)) 0 (length (c ∷ cs)) (raised (c ∷ cs))
        (omega arith) (omega (arith, length-raised (c ∷ cs))) in
    (
      lower_at_finds best total (raised (c ∷ cs)) (omega (arith, low, length-raised (c ∷ cs))),
      ready_of-lower_at best total (raised (c ∷ cs)) ∙ ready_of-raised (c ∷ cs),
    )
