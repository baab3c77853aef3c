-- ===== src/Limits/Window.antt =====
-- webook/pkg/limiter/redis_slide_window.go and its script slide_window.lua: the sorted set at one key, whose
-- members are the milliseconds of the requests let through. A call that Redis fails is not here. The expiry
-- that the script sets removes no member that the next call would not remove.
use weishu.Base.{ℕ, ◌+◌, Bool, true, false, List, [], ◌∷◌, ltb, leb, ◌==◌, if◌then◌else◌, length}

-- `ZREMRANGEBYSCORE` up to `now - window`
abbrev pub recent : ℕ → ℕ → List ℕ → List ℕ
recent window now [] = []
recent window now (t ∷ ts) =
    let rest = recent window now ts in if ltb now (t + window) then t ∷ rest else rest

abbrev pub is_member : ℕ → List ℕ → Bool
is_member now [] = false
is_member now (t ∷ ts) = if t == now then true else is_member now ts

-- `ZADD`, where the member is the score
abbrev pub z_add : ℕ → List ℕ → List ℕ
z_add now ts = if is_member now ts then ts else now ∷ ts

-- `Limit`: whether the request is refused, and the set.
unfoldable pub limit : ℕ → ℕ → ℕ → List ℕ → Bool × List ℕ
limit window threshold now ts =
    let kept = recent window now ts in
    if leb threshold (length kept) then (true, kept) else (false, z_add now kept)
