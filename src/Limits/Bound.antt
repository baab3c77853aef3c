-- ===== src/Limits/Bound.antt =====
-- How many milliseconds of a window webook/pkg/limiter lets requests through in.
use weishu.Base.{
  ap, sym, ◌∙◌, inl, inr, Bool-cases, ℕ, suc, ◌+◌, ◌≤◌, ◌<◌, ◌≡◌, refl, Bool, true, false, List, [],
  ◌∷◌, arith, ltb, leb, length,
}
use weishu.Limits.Window.{recent, is_member, z_add, limit}

-- The milliseconds in which requests were let through, each once: of one more request.
abbrev pub noted : Bool → ℕ → List ℕ → List ℕ
noted true now log = log
noted false now log = z_add now log

-- Requests at these times, one after another, from a set and what was noted before.
abbrev pub requests : ℕ → ℕ → List ℕ → List ℕ × List ℕ → List ℕ × List ℕ
requests window threshold [] (ts, log) = (ts, log)
requests window threshold (now ∷ times) (ts, log) =
    let (refused, ts') = limit window threshold now ts in
    requests window threshold times (ts', noted refused now log)

-- The times do not go back, from `low` on.
abbrev pub IsForward : ℕ → List ℕ → Type 0
IsForward low [] = Unit
IsForward low (now ∷ times) = (low ≤ now) × IsForward now times

-- The last of the times, or `low`.
abbrev pub last : ℕ → List ℕ → ℕ
last low [] = low
last low (now ∷ times) = last now times

recent-recent :
    (window low now : ℕ) (ts : List ℕ)
    → low ≤ now
    → recent window now (recent window low ts) ≡ recent window now ts
recent-recent window low now [] h = refl
recent-recent window low now (t ∷ ts) h = elim (Bool-cases (ltb low (t + window))) [
  | inl e ↦ elim (Bool-cases (ltb now (t + window))) [
    | inl k ↦ rw (e, k) (ap (λ l. t ∷ l) (recent-recent window low now ts h))
    | inr k ↦ rw (e, k) (recent-recent window low now ts h)
  ]
  | inr e ↦
      let k : ltb now (t + window) ≡ false = ground (arith, e, h) in
      rw (e, k) (recent-recent window low now ts h)
]

length_le : (window now : ℕ) (ts : List ℕ) → length (recent window now ts) ≤ length ts
length_le window now [] = omega arith
length_le window now (t ∷ ts) = ground (arith, length_le window now ts)

is_member-recent :
    (window now : ℕ) (ts : List ℕ)
    → 1 ≤ window
    → is_member now (recent window now ts) ≡ is_member now ts
is_member-recent window now [] h = refl
is_member-recent window now (t ∷ ts) h = ground (arith, is_member-recent window now ts h)

recent-z_add :
    (window now : ℕ) (ts : List ℕ)
    → 1 ≤ window
    → recent window now (z_add now ts) ≡ z_add now (recent window now ts)
recent-z_add window now ts h = elim (Bool-cases (is_member now ts)) [
  | inl e ↦ rw (e, is_member-recent window now ts h, e) refl
  | inr e ↦
      let here : ltb now (now + window) ≡ true = ground (arith, h) in
      rw (e, is_member-recent window now ts h, e, here) refl
]

length-z_add : (now : ℕ) (ts : List ℕ) → length (z_add now ts) ≤ suc (length ts)
length-z_add now ts = ground arith

-- What is noted and what is in the set agree on the window, and the set is within the threshold.
abbrev IsBounded : ℕ → ℕ → ℕ → List ℕ × List ℕ → Type 0
IsBounded window threshold now (ts, log) =
    (recent window now log ≡ recent window now ts) × (length ts ≤ threshold)

limit-IsBounded :
    (window threshold low now : ℕ) (ts log : List ℕ)
    → 1 ≤ window
    → low ≤ now
    → IsBounded window threshold low (ts, log)
    → let (refused, ts') = limit window threshold now ts in
      IsBounded window threshold now (ts', noted refused now log)
unfolding limit
limit-IsBounded window threshold low now ts log w h (same, few) =
    let kept = recent window now ts in
    let agree : recent window now log ≡ kept =
      sym (recent-recent window low now log h)
      ∙ ap (recent window now) same
      ∙ recent-recent window low now ts h in
    let again : recent window now kept ≡ kept = recent-recent window now now ts (omega arith) in
    let short = length_le window now ts in
    elim (Bool-cases (leb threshold (length kept))) [
      | inl e ↦ rw e (agree ∙ sym again, omega (arith, short, few))
      | inr e ↦
          let grown = length-z_add now kept in
          let room : length kept < threshold = ground (arith, e) in
          rw e (
            recent-z_add window now log w
                ∙ ap (z_add now) (agree ∙ sym again)
                ∙ sym (recent-z_add window now kept w),
            omega (arith, grown, room),
          )
    ]

requests-IsBounded :
    (window threshold low : ℕ) (times : List ℕ) (s : List ℕ × List ℕ)
    → 1 ≤ window
    → IsForward low times
    → IsBounded window threshold low s
    → IsBounded window threshold (last low times) (requests window threshold times s)
requests-IsBounded window threshold low [] (ts, log) w f h = h
requests-IsBounded window threshold low (now ∷ times) (ts, log) w f h =
    requests-IsBounded window threshold now times _ w f.1
      (limit-IsBounded window threshold low now ts log w f.0 h)

-- Requests at times that do not go back are let through in at most as many milliseconds of the window
-- that ends with the last of them as the threshold says, the window not being empty.
pub requests_in_window :
    (window threshold : ℕ) (times : List ℕ)
    → 1 ≤ window
    → IsForward 0 times
    → let (ts, log) = requests window threshold times ([], []) in
      length (recent window (last 0 times) log) ≤ threshold
requests_in_window window threshold times w f =
    let (ts, log) = requests window threshold times ([], []) in
    let (same, few) =
      requests-IsBounded window threshold 0 times ([], []) w f (refl, omega arith) in
    omega (arith, ap length same, few, length_le window (last 0 times) ts)
