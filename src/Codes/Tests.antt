-- ===== src/Codes/Tests.antt =====
-- Codes under a key that holds one code at most, and an SMS service that counts.
use weishu.Base.{ℕ, suc, ◌≡◌, refl, true, false, Option, none, some, ◌==◌, if◌then◌else◌}
use weishu.Base.Int.{pos, negsuc}
use weishu.Codes.Service.{World, set_code_too_many, unknown, store, verify_stored, send, verify}

abbrev one_code : World ℕ (Option ℕ) ℕ
one_code = record {
  set_code = λ c k. elim k [ none ↦ (some (pos 0), some c) | some d ↦ (some (negsuc 0), some d) ];
  verify_code = λ c k. elim k [
    | none ↦ (some (negsuc 1), none)
    | some d ↦ (some (if c == d then pos 0 else pos 7), some d)
  ];
  send_sms = λ c n. (false, suc n);
}

sent : send one_code 5 none 0 ≡ (none, (some 5, 1))
unfolding send store
sent = refl

too_early : send one_code 6 (some 5) 1 ≡ (some set_code_too_many, (some 5, 1))
unfolding send store
too_early = refl

taken : verify one_code 5 (some 5) ≡ ((true, none), some 5)
unfolding verify verify_stored
taken = refl

strange : verify one_code 6 (some 5) ≡ ((false, some unknown), some 5)
unfolding verify verify_stored
strange = refl
