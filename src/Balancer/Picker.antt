-- ===== src/Balancer/Picker.antt =====
-- webook/pkg/grpcx/balancer/wrr/wrr.go: smooth weighted round robin. An int is its bit pattern, below
-- 2^64, and the sums wrap round as they do there. A sub-connection is a number.
use weishu.Base.{ℕ, ◌+◌, ◌-◌, ◌%◌, ◌^◌, Bool, Option, none, some, List, [], ◌∷◌, ltb, if◌then◌else◌}

-- `weightConn`
pub record WeightConn : Type 0 where
  pub sub_conn : ℕ
  pub weight : ℕ
  pub current_weight : ℕ

abbrev pub u64 : ℕ → ℕ
u64 n = n % 2 ^ 64

-- `a > b` on int64 bit patterns.
abbrev pub gt_int64 : ℕ → ℕ → Bool
gt_int64 a b = ltb (u64 (b + 2 ^ 63)) (u64 (a + 2 ^ 63))

-- `a - b` on bit patterns.
abbrev pub sub_int64 : ℕ → ℕ → ℕ
sub_int64 a b = u64 (a + (2 ^ 64 - u64 b))

-- The first loop of `Pick`.
abbrev pub total_from : ℕ → List WeightConn → ℕ
total_from total [] = total
total_from total (c ∷ cs) = total_from (u64 (total + c.weight)) cs

-- The second loop.
abbrev pub raised : List WeightConn → List WeightConn
raised [] = []
raised (c ∷ cs) = record c { current_weight = u64 (c.current_weight + c.weight) } ∷ raised cs

-- The third one, with the number and the current weight of the best connection so far. The source
-- holds a pointer to it: here, its place in the list.
abbrev pub best_from : ℕ → ℕ → ℕ → List WeightConn → ℕ
best_from place best i [] = place
best_from place best i (c ∷ cs) =
    if gt_int64 c.current_weight best
    then best_from i c.current_weight (i + 1) cs
    else best_from place best (i + 1) cs

-- The chosen connection and the list in which it is lowered.
abbrev pub lower_at : ℕ → ℕ → List WeightConn → Option ℕ × List WeightConn
lower_at place total [] = (none, [])
lower_at ℕ.zero total (c ∷ cs) =
    (some c.sub_conn, record c { current_weight = sub_int64 c.current_weight total } ∷ cs)
lower_at (ℕ.suc place) total (c ∷ cs) = let (s, cs') = lower_at place total cs in (s, c ∷ cs')

pick_max : ℕ → List WeightConn → Option ℕ × List WeightConn
pick_max total [] = (none, [])
pick_max total (c ∷ cs) = lower_at (best_from 0 c.current_weight 0 (c ∷ cs)) total (c ∷ cs)

-- `Pick`, one call after another; `none` is `ErrNoSubConnAvailable`.
unfoldable pub pick : List WeightConn → Option ℕ × List WeightConn
unfolding pick_max
pick conns = pick_max (total_from 0 conns) (raised conns)

-- `Build`, of the connections that are ready with their weights.
unfoldable pub build : List (ℕ × ℕ) → List WeightConn
build [] = []
build ((sub_conn, weight) ∷ ready) =
    record { sub_conn = sub_conn; weight = weight; current_weight = weight } ∷ build ready
