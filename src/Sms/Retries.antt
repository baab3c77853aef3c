-- ===== src/Sms/Retries.antt =====
-- How often the loop of webook/internal/service/sms/async/service.go sends a stored message.
use weishu.Base.{
  ap, ◌∙◌, inl, ◌⊎◌, inr, Bool-cases, ℕ, suc, ◌+◌, ◌-◌, ◌≤◌, ◌<◌, ◌≡◌, refl, Bool, true, false,
  Option-cases, none, some, List, [], ◌∷◌, arith, ◌==◌, if◌then◌else◌, is_nil,
}
use weishu.Sms.Service.{Service}
use weishu.Sms.Queue.{
  AsyncSms, is_waiting, update_where, is_due, first_due, count_retry, get_waiting_sms, set_success,
  set_failed, mark_success, mark_failed, report_schedule_result,
}
use weishu.Sms.Async.{Round, async_send}
use weishu.Sms.Rows.{
  IsAscending, All, sum, find-All, sum-update_where, update_where-IsAscending, All-update_where,
  first_due-find,
}

module _ {Text : Type 0} where
  -- The attempts that a message has left.
  abbrev pub attempts : AsyncSms Text → ℕ
  attempts r = if is_waiting r.status then r.retry_max - r.retry_cnt else 0

  -- A message that waits has an attempt left.
  abbrev pub HasAttempts : AsyncSms Text → Type 0
  HasAttempts r = is_waiting r.status ≡ true → r.retry_cnt < r.retry_max

  abbrev settled : ℕ → Bool → AsyncSms Text → AsyncSms Text
  settled now sent r = if sent then set_success now r else set_failed now r

  settled-attempts :
      (now later : ℕ) (r : AsyncSms Text) (sent : Bool)
      → is_due now r ≡ true
      → HasAttempts r
      → attempts (settled later sent (count_retry now r)) < attempts r
  settled-attempts now later r sent d h =
      let left : r.retry_cnt < r.retry_max = h (ground arith) in ground arith

  settled-HasAttempts :
      (now later : ℕ) (r : AsyncSms Text) (sent : Bool)
      → HasAttempts (settled later sent (count_retry now r))
  settled-HasAttempts now later r sent = ground arith

  settled_id :
      (later now : ℕ) (sent : Bool) (r : AsyncSms Text)
      → (settled later sent (count_retry now r)).id ≡ r.id
  settled_id later now sent r = ground arith

  two_updates :
      (f g : AsyncSms Text → AsyncSms Text) (id : ℕ) (rows : List (AsyncSms Text))
      → ((r : AsyncSms Text) → (f r).id ≡ r.id)
      → update_where id g (update_where id f rows) ≡ update_where id (λ r. g (f r)) rows
  two_updates f g id [] k = refl
  two_updates f g id (r ∷ rows) k = elim (Bool-cases (r.id == id)) [
    | inl e ↦
        let e' : ((f r).id == id) ≡ true = rw (k r) e in
        rw (e, e') (ap (λ xs. g (f r) ∷ xs) (two_updates f g id rows k))
    | inr e ↦ rw (e, e) (ap (λ xs. r ∷ xs) (two_updates f g id rows k))
  ]

  spent_round :
      (f : AsyncSms Text → AsyncSms Text) (low now : ℕ) (rows : List (AsyncSms Text))
      (r : AsyncSms Text)
      → ((r : AsyncSms Text) → (f r).id ≡ r.id)
      → ((r : AsyncSms Text) → HasAttempts (f r))
      → attempts (f r) < attempts r
      → IsAscending low rows
      → All HasAttempts rows
      → first_due now rows ≡ some r
      → (IsAscending low (update_where r.id f rows) × All HasAttempts (update_where r.id f rows))
        × (suc (sum attempts (update_where r.id f rows)) ≤ sum attempts rows)
  spent_round f low now rows r k p less a h d =
      let (found, due, above) = first_due-find now low rows r a d in
      (
        (
          update_where-IsAscending f low r.id rows k a,
          All-update_where HasAttempts f low r.id rows r a found (p r) h,
        ),
        omega (arith, sum-update_where attempts f low r.id rows r a found, less),
      )

module _ {Text World : Type 0} (svc : Service Text World) where
  async_send_taken :
      (t : Round) (rows : List (AsyncSms Text)) (w : World) (r : AsyncSms Text)
      → t.take_fails ≡ false
      → t.report_fails ≡ false
      → first_due t.now rows ≡ some r
      → async_send svc t rows w ≡ (
          let (err, w') = svc (r.config) w in
          (
            update_where r.id
                (settled t.reported_at (is_nil err))
                (update_where r.id (count_retry t.now) rows),
            w',
          ))
  unfolding async_send get_waiting_sms report_schedule_result mark_success mark_failed
  async_send_taken t rows w r a b h = ground (arith, a, b, h)

  async_send_idle :
      (t : Round) (rows : List (AsyncSms Text)) (w : World)
      → (t.take_fails ≡ true) ⊎ (first_due t.now rows ≡ none)
      → async_send svc t rows w ≡ (rows, w)
  unfolding async_send get_waiting_sms
  async_send_idle t rows w (inl h) = ground (arith, h)
  async_send_idle t rows w (inr h) = ground (arith, h)

  -- The rounds of the loop that `StartAsyncCycle` runs.
  abbrev pub run : List Round → List (AsyncSms Text) → World → List (AsyncSms Text) × World
  run [] rows w = (rows, w)
  run (t ∷ ts) rows w = let (rows', w') = async_send svc t rows w in run ts rows' w'

  run_step :
      (t : Round) (ts : List Round) (rows rows' : List (AsyncSms Text)) (w w' : World)
      → async_send svc t rows w ≡ (rows', w')
      → run (t ∷ ts) rows w ≡ run ts rows' w'
  run_step t ts rows rows' w w' h = ap (λ (x : List (AsyncSms Text) × World). run ts x.0 x.1) h

abbrev pub AllReported : List Round → Type 0
AllReported [] = Unit
AllReported (t ∷ ts) = (t.report_fails ≡ false) × AllReported ts

module _ {Text World : Type 0} (svc : Service Text World) where
  -- The service, with a count of its calls.
  abbrev pub counted : Service Text (World × ℕ)
  counted req (w, n) = let (err, w') = svc req w in (err, (w', n + 1))

  call_after : Round → AsyncSms Text → World → AsyncSms Text → AsyncSms Text
  call_after t r w x = settled t.reported_at (is_nil (svc r.config w).0) (count_retry t.now x)

  async_send-counted :
      (t : Round) (n : ℕ) (rows : List (AsyncSms Text)) (w : World) (r : AsyncSms Text)
      → t.take_fails ≡ false
      → t.report_fails ≡ false
      → first_due t.now rows ≡ some r
      → async_send counted t rows (w, n)
        ≡ (update_where r.id (call_after t r w) rows, ((svc r.config w).1, n + 1))
  unfolding call_after
  async_send-counted t n rows w r e q d =
      async_send_taken counted t rows (w, n) r e q d
      ∙ ap (λ x. (x, ((svc r.config w).1, n + 1)))
          (two_updates (count_retry t.now) (settled t.reported_at (is_nil (svc r.config w).0)) r.id
            rows (λ r. refl))

  spent_call :
      (t : Round) (low : ℕ) (rows : List (AsyncSms Text)) (w : World) (r : AsyncSms Text)
      → IsAscending low rows
      → All HasAttempts rows
      → first_due t.now rows ≡ some r
      → (IsAscending low (update_where r.id (call_after t r w) rows)
          × All HasAttempts (update_where r.id (call_after t r w) rows))
        × (suc (sum attempts (update_where r.id (call_after t r w) rows)) ≤ sum attempts rows)
  unfolding call_after
  spent_call t low rows w r a h d =
      let sent = is_nil (svc r.config w).0 in
      let (found, due, above) = first_due-find t.now low rows r a d in
      spent_round (call_after t r w) low t.now rows r (settled_id t.reported_at t.now sent)
        (λ x. settled-HasAttempts t.now t.reported_at x sent)
        (settled-attempts t.now t.reported_at r sent due (find-All HasAttempts r.id rows r h found))
        a h d

  -- Over a table in the order of its ids, whose waiting messages have attempts left, any number of
  -- rounds, at any times, calls the service at most as often as there are attempts left in all,
  -- whatever it answers and whether or not the taking of a message fails, if every report is written.
  pub run_calls_at_most :
      (ts : List Round) (low n : ℕ) (rows : List (AsyncSms Text)) (w : World)
      → AllReported ts
      → IsAscending low rows
      → All HasAttempts rows
      → (run counted ts rows (w, n)).1.1 ≤ n + sum attempts rows
  run_calls_at_most [] low n rows w q a h = omega arith
  run_calls_at_most (t ∷ ts) low n rows w (q, qs) a h = elim (Bool-cases t.take_fails) [
    | inl e ↦
        rw
          (run_step counted t ts rows rows (w, n) (w, n)
            (async_send_idle counted t rows (w, n) (inl e)))
          (run_calls_at_most ts low n rows w qs a h)
    | inr e ↦ elim (Option-cases (first_due t.now rows)) [
      | inl d ↦
          rw
            (run_step counted t ts rows rows (w, n) (w, n)
              (async_send_idle counted t rows (w, n) (inr d)))
            (run_calls_at_most ts low n rows w qs a h)
      | inr (r, d) ↦
          let rows' = update_where r.id (call_after t r w) rows in
          let w' = (svc r.config w).1 in
          let ((a', h'), less) = spent_call t low rows w r a h d in
          rw
            (run_step counted t ts rows rows' (w, n) (w', n + 1)
              (async_send-counted t n rows w r e q d))
            (omega (arith, less, run_calls_at_most ts low (n + 1) rows' w' qs a' h'))
    ]
  ]
