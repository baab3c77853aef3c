-- ===== src/Balancer/Tests.antt =====
-- Rounds of picks, and the theorems at concrete inputs.
use weishu.Base.{ℕ, ◌≡◌, refl, Option, some, none, List, [], ◌∷◌}
use weishu.Balancer.Picker.{WeightConn, pick, build}
use weishu.Balancer.Weights.{current_sum, current_sum-pick}

abbrev conns : List WeightConn
conns = build ((1, 5) ∷ (2, 1) ∷ (3, 1) ∷ [])

abbrev pick_times : ℕ → List WeightConn → List (Option ℕ)
pick_times ℕ.zero cs = []
pick_times (ℕ.suc n) cs = let (s, cs') = pick cs in s ∷ pick_times n cs'

smooth : pick_times 7 conns ≡ some 1 ∷ some 1 ∷ some 1 ∷ some 2 ∷ some 1 ∷ some 1 ∷ some 3 ∷ []
unfolding pick build
smooth = refl

no_conn : (pick []).0 ≡ none
unfolding pick
no_conn = refl

current_sum-pick_example : current_sum (pick conns).1 ≡ current_sum conns
current_sum-pick_example = current_sum-pick conns

abbrev first : WeightConn
first = record { sub_conn = 1; weight = 5; current_weight = 5 }
