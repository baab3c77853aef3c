-- ===== src/Limits/Tests.antt =====
-- Requests in a window of ten milliseconds, and the theorem there.
use weishu.Base.{ℕ, ◌≤◌, ◌≡◌, refl, false, List, [], ◌∷◌, arith, length}
use weishu.Limits.Window.{recent, limit}
use weishu.Limits.Bound.{requests, last, requests_in_window}

abbrev times : List ℕ
times = 1 ∷ 3 ∷ 4 ∷ 9 ∷ 12 ∷ []

requests_in_window_example : length (recent 10 (last 0 times) (requests 10 2 times ([], [])).1) ≤ 2
requests_in_window_example =
    requests_in_window 10 2 times (omega arith)
      (omega arith, (omega arith, (omega arith, (omega arith, (omega arith, tt)))))

-- Requests at 1 and 3 fill the window, and 12 is the first time at which one of them is outside.
noted_times : (requests 10 2 times ([], [])).1 ≡ 12 ∷ 3 ∷ 1 ∷ []
unfolding limit
noted_times = refl

-- Within one millisecond a second request and a third one are let through, and are not counted.
same_millisecond :
    ((limit 10 2 5 (limit 10 2 5 []).1).0 ≡ false)
    × ((limit 10 2 5 (limit 10 2 5 (limit 10 2 5 []).1).1).0 ≡ false)
unfolding limit
same_millisecond = (refl, refl)
