-- ===== src/Sms/Rotation.antt =====
-- `SendV1` of failover.go is a failover over the services turned to the shared index.
use native.Mathlib.Nat.{mod-add-mod, mod-eq_of_lt, add-zero}
use weishu.Base.{
  ℕ, zero, suc, ◌+◌, ◌%◌, ◌^◌, ◌≤◌, ◌<◌, ◌≡◌, refl, sym, ap, ◌∙◌, true, false, Option, some, List,
  [], ◌∷◌, arith, ltb, lt→ltb, length, get_elem?, drop, get_elem?-drop_cons, returns, Outcome,
}
use weishu.Base.Rotate.{rotate, length-rotate, get_elem?-rotate}
use weishu.Sms.Service.{SmsError, all_failed, Request, Service}
use weishu.Sms.Failover.{u64, stops, send_from, send_v1}

abbrev pub answered : {World : Type 0} → Option SmsError × World → Outcome (Option SmsError) × World
answered (e, w) = (returns e, w)

not_below : (a b : ℕ) → b ≤ a → ltb a b ≡ false
not_below a b h = ground arith

module _ {Text World : Type 0} where
  -- The services in their order, until one answers nil or reports that the context is over.
  unfoldable pub try_each :
      List (Service Text World) → Request Text → World → Option SmsError × World
  try_each [] req w = (some all_failed, w)
  try_each (svc ∷ svcs) req w =
      let (err, w') = svc req w in
      elim (stops err) [ true ↦ (err, w') | false ↦ try_each svcs req w' ]

  step_stops :
      (svcs : List (Service Text World)) (n limit i : ℕ) (req : Request Text) (w : World)
      (svc : Service Text World) (rest : List (Service Text World))
      → ltb i limit ≡ true
      → get_elem? svcs (i % length svcs) ≡ some svc
      → ((w' : World)
          → send_from svcs n limit (u64 (i + 1)) req w' ≡ answered (try_each rest req w'))
      → send_from svcs (suc n) limit i req w ≡ answered (try_each (svc ∷ rest) req w)
  unfolding send_from try_each
  step_stops svcs n limit i req w svc rest h g ih = ground (arith, ih (svc req w).1)

  step_ends :
      (svcs : List (Service Text World)) (n limit i : ℕ) (req : Request Text) (w : World)
      → limit ≤ i
      → send_from svcs (suc n) limit i req w ≡ (returns (some all_failed), w)
  unfolding send_from
  step_ends svcs n limit i req w h = rw (not_below i limit h)

  loop_lem :
      (svcs rest : List (Service Text World)) (s t n : ℕ) (req : Request Text) (w : World)
      → drop t (rotate (s % length svcs) svcs) ≡ rest
      → s + length svcs < 2 ^ 64
      → t + length rest ≡ length svcs
      → length rest < n
      → send_from svcs n (s + length svcs) (s + t) req w ≡ answered (try_each rest req w)
  unfolding try_each
  loop_lem svcs rest s t zero req w d b e h = absurd (omega arith)
  loop_lem svcs [] s t (suc n) req w d b e h =
      step_ends svcs n (s + length svcs) (s + t) req w (omega arith)
  loop_lem svcs (svc ∷ rest) s t (suc n) req w d b e h =
      let (at, after) = get_elem?-drop_cons t (rotate (s % length svcs) svcs) svc rest d in
      let found : get_elem? svcs ((s + t) % length svcs) ≡ some svc =
        ap (get_elem? svcs) (sym (mod-add-mod s (length svcs) t))
        ∙ sym (get_elem?-rotate (s % length svcs) svcs t (omega arith) (omega arith))
        ∙ at in
      let next : u64 (s + t + 1) ≡ s + suc t = mod-eq_of_lt (omega arith) ∙ omega arith in
      step_stops svcs n (s + length svcs) (s + t) req w svc rest (lt→ltb _ _ (omega arith)) found
        (λ w'.
          ap (λ i. send_from svcs n (s + length svcs) i req w') next
          ∙ loop_lem svcs rest s (suc t) n req w' after b (omega arith) (omega arith))

  -- Unless the shared index is within the number of services of 2^64, `SendV1` tries every service
  -- once, in the order that begins at the next index modulo their number, until one answers nil or
  -- reports that the context is over; it answers as that one did, or with the error that all have
  -- failed, never panics, and leaves the next index behind.
  pub send_v1_rotates :
      (svcs : List (Service Text World)) (idx : ℕ) (req : Request Text) (w : World)
      → idx + 1 + length svcs < 2 ^ 64
      → send_v1 svcs idx req w
        ≡ (answered (try_each (rotate ((idx + 1) % length svcs) svcs) req w), idx + 1)
  unfolding send_v1
  send_v1_rotates svcs idx req w b =
      let next : u64 (idx + 1) ≡ idx + 1 = mod-eq_of_lt (omega arith) in
      let limit : u64 (idx + 1 + length svcs) ≡ idx + 1 + length svcs =
        mod-eq_of_lt (omega arith) in
      let r = rotate ((idx + 1) % length svcs) svcs in
      let run =
        loop_lem svcs r (idx + 1) 0 (suc (length svcs)) req w refl b
          (omega (arith, length-rotate {0} ((idx + 1) % length svcs) svcs))
          (omega (arith, length-rotate {0} ((idx + 1) % length svcs) svcs)) in
      rw (next, limit)
        (ap (λ (x : Outcome (Option SmsError) × World). (x, idx + 1))
          (ap (λ i. send_from svcs (suc (length svcs)) (idx + 1 + length svcs) i req w)
              (sym (add-zero (idx + 1)))
            ∙ run))

  -- With the shared index so near 2^64 that its sum with the number of services wraps round, the
  -- call tries no service at all: it returns the error that all have failed and changes nothing.
  pub send_v1_wraps :
      (svcs : List (Service Text World)) (idx : ℕ) (req : Request Text) (w : World)
      → idx + 1 < 2 ^ 64
      → 2 ^ 64 ≤ idx + 1 + length svcs
      → length svcs < 2 ^ 64
      → send_v1 svcs idx req w ≡ ((returns (some all_failed), w), idx + 1)
  unfolding send_v1
  send_v1_wraps svcs idx req w a b c =
      let next : u64 (idx + 1) ≡ idx + 1 = mod-eq_of_lt a in
      rw next (
        ap (λ (x : Outcome (Option SmsError) × World). (x, idx + 1))
          (step_ends svcs (length svcs) _ (idx + 1) req w (omega arith)))
