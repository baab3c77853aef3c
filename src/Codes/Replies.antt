-- ===== src/Codes/Replies.antt =====
-- What `Send` and `Verify` of webook/internal/service/code.go promise of codes.
use weishu.Base.{ℕ, ◌≡◌, refl, true, false, none, some}
use weishu.Base.Int.{pos, negsuc}
use weishu.Codes.Service.{set_code_too_many, World, store, verify_stored, send, verify}

module _ {Text Key Outside : Type 0} (W : World Text Key Outside) where
  -- If the script that verifies takes every code that the other one has just stored, then a code that
  -- `Send` has stored and the SMS service has sent is taken by `Verify`.
  verify-send :
      (code : Text) (k : Key) (o : Outside)
      → ((c : Text) (k : Key) (n : ℕ)
          → (W.set_code c k).0 ≡ some (pos n)
          → (W.verify_code c (W.set_code c k).1).0 ≡ some (pos 0))
      → (n : ℕ) → (W.set_code code k).0 ≡ some (pos n)
      → (W.send_sms code o).0 ≡ false
      → let (e, s) = send W code k o in
        (e ≡ none) × (s.1 ≡ (W.send_sms code o).1) × ((verify W code s.0).0 ≡ (true, none))
  unfolding send store verify verify_stored
  verify-send code k o takes n stored sent =
      let back = takes code k n stored in
      (rw (stored, sent) refl, rw stored refl, rw (stored, back) refl)

  -- A code that is refused because of its predecessor is not sent, and too many attempts are told as a
  -- wrong code.
  refusals :
      (code : Text) (k : Key) (o : Outside)
      → (W.set_code code k).0 ≡ some (negsuc 0)
      → (W.verify_code code k).0 ≡ some (negsuc 0)
      → (send W code k o ≡ (some set_code_too_many, ((W.set_code code k).1, o)))
        × ((verify W code k).0 ≡ (false, none))
  unfolding send store verify verify_stored
  refusals code k o early often = (rw early refl, rw often refl)
