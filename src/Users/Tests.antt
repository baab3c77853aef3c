-- ===== src/Users/Tests.antt =====
-- Accounts on a small table, and the theorems at concrete inputs. A text is a number, and 0 is empty.
use weishu.Base.{
  ℕ, ◌+◌, ◌≡◌, refl, Bool, true, false, some, none, ltb, [], ◌∷◌, ◌++◌, ◌==◌, if◌then◌else◌,
}
use weishu.Users.Dao.{
  Texts, User, duplicate_email, record_not_found, invalid_user_or_password, found, failed, is_text,
  any, insert, find_by_email, find_by_phone, find_by_id,
}
use weishu.Users.Repository.{
  Account, Store, entity_to_domain, domain_to_entity, create, with_email, with_phone, with_id,
  get_cached,
}
use weishu.Users.Service.{Bcrypt, sign_up, login, profile, find_or_crete, find_or_crate_by_wechat}
use weishu.Users.Login.{signed_up, login-sign_up}
use weishu.Users.Handlers.{
  Patterns, SignUpReq, text, json, sign_up_done, passwords_differ, logged_in, code_sent,
  code_accepted, handle_sign_up, login_jwt, send_login_sms_code, login_sms,
}
use weishu.Base.Int.{pos, negsuc}
use weishu.Users.Handled.{login_jwt-handle_sign_up}
use weishu.Codes.Service.{World, store, send, verify, verify_stored}
use weishu.Sessions.Tokens.{Headers}
use weishu.Users.FirstVisit.{phone_row, has_id, find_or_crete-again, find_or_crate_by_wechat_fails}

abbrev texts : Texts ℕ
texts = record {
  same = λ a b. a == b;
  equals_number = λ a n. a == n;
  no_text = 0;
  is_no_text = λ a. a == 0;
}

-- The hash of a password is the password and 100; a password from 72 on is refused.
abbrev adding : Bcrypt ℕ
adding = record {
  generate = λ salt p. if p == 72 then none else some (p + 100);
  compare = λ h p. h == p + 100;
}

abbrev account : Account ℕ
account = record {
  id = 0;
  email = 11;
  password = 5;
  ctime = 0;
  phone = 0;
  union_id = 21;
  open_id = 22;
  nickname = 0;
}

abbrev nobody : Store ℕ
nobody = record { rows = []; cached = λ i. none }

-- Users 1 and 2, of whom the first has an email, and the second a phone.
abbrev two : Store ℕ
two = record {
  rows = (signed_up texts adding 1 1 105 account) ∷ (phone_row texts refl 2 2 33) ∷ [];
  cached = λ i. none;
}

signs_up : (sign_up texts adding false 1 2 3 account nobody).0 ≡ none
unfolding sign_up create insert domain_to_entity
signs_up = refl

login-sign_up_example :
    (login texts adding false 11 5 (sign_up texts adding false 1 2 3 account nobody).1
      ≡ found (entity_to_domain texts (signed_up texts adding 2 3 105 account)))
    × (sign_up texts adding false 1 4 4
          (record account { password = 7; email = 11 })
          (sign_up texts adding false 1 2 3 account nobody).1
        ≡ (some duplicate_email, (sign_up texts adding false 1 2 3 account nobody).1))
login-sign_up_example =
    login-sign_up texts adding false 1 2 3 account 105 nobody refl refl refl refl signs_up 1 4 4
      (record account { password = 7 }) 107 refl

-- A wrong password, and an email that nobody has, are answered alike.
refused :
    (login texts adding false 11 6 two ≡ failed invalid_user_or_password)
    × (login texts adding false 12 5 two ≡ failed invalid_user_or_password)
unfolding login with_email find_by_email entity_to_domain domain_to_entity
refused = (refl, refl)

new_key : any texts (has_id texts refl 3) two.rows ≡ false
unfolding domain_to_entity
new_key = refl

no_phone : any texts (λ r. is_text texts 55 r.phone) two.rows ≡ false
unfolding domain_to_entity
no_phone = refl

no_wechat : any texts (λ r. is_text texts 55 r.wechat_open_id) two.rows ≡ false
unfolding domain_to_entity
no_wechat = refl

find_or_crete-again_example :
    (r : User ℕ) × (is_text texts 44 r.phone ≡ true)
    × (find_or_crete texts false false false 3 3 44 two
        ≡ (found (entity_to_domain texts r), (find_or_crete texts false false false 3 3 44 two).1))
    × (find_or_crete texts false false false 4 4 44
          (find_or_crete texts false false false 3 3 44 two).1
        ≡ (found (entity_to_domain texts r), (find_or_crete texts false false false 3 3 44 two).1))
find_or_crete-again_example = find_or_crete-again texts refl 3 3 44 two refl refl new_key 4 4

find_or_crate_by_wechat_fails_example :
    (find_or_crate_by_wechat texts false false false 3 3 55 two ≡ (
      failed record_not_found,
      record two { rows = two.rows ++ (phone_row texts refl 3 3 55 ∷ []) },
    ))
    × (find_or_crate_by_wechat texts false false false 4 4 55
          (record two { rows = two.rows ++ (phone_row texts refl 3 3 55 ∷ []) })
        ≡ (
          failed duplicate_email,
          record two { rows = two.rows ++ (phone_row texts refl 3 3 55 ∷ []) },
        ))
find_or_crate_by_wechat_fails_example =
    find_or_crate_by_wechat_fails texts refl 3 3 55 two refl refl new_key no_phone no_wechat 4 4

-- `Profile` of user 1 finds nobody, and that of 11, whose number is the email of user 1, finds user 1.
profiles :
    ((profile texts (λ u. some u) false false false 1 two).0 ≡ failed record_not_found)
    × ((profile texts (λ u. some u) false false false 11 two).0
        ≡ found (entity_to_domain texts (signed_up texts adding 1 1 105 account)))
unfolding profile with_id get_cached find_by_id entity_to_domain domain_to_entity
profiles = (refl, refl)

abbrev patterns : Patterns ℕ
patterns = record {
  email_exp = λ e. some (ltb 10 e);
  password_exp = λ p. if p == 6 then none else some (ltb 3 p);
  equal = λ a b. a == b;
}

abbrev request : SignUpReq ℕ
request = record { email = 11; confirm_password = 5; password = 5 }

abbrev numbered : ℕ → Bool × Headers ℕ
numbered u = (true, record { refresh = some u; access = some (u + 1) })

handled :
    (handle_sign_up texts patterns adding false 1 2 3 (some request) nobody).0 ≡ text sign_up_done
unfolding handle_sign_up sign_up create insert domain_to_entity
handled = refl

unequal :
    handle_sign_up texts patterns adding false 1 2 3 (some (record request { password = 6 })) nobody
    ≡ (text passwords_differ, nobody)
unfolding handle_sign_up
unequal = refl

login_jwt-handle_sign_up_example :
    login_jwt texts adding numbered false
      (some (11, 5))
      (handle_sign_up texts patterns adding false 1 2 3 (some request) nobody).1
    ≡ (text logged_in ∷ [], record { refresh = some 3; access = some 4 })
login_jwt-handle_sign_up_example =
    login_jwt-handle_sign_up texts patterns adding false 1 2 3 request 105 nobody refl refl refl
      refl handled numbered

-- A code for a phone without an account, which gets one and its tokens.
abbrev any_code : World ℕ ℕ ℕ
any_code = record {
  set_code = λ c k. (some (pos 0), c);
  verify_code = λ c k. (some (if c == k then pos 0 else negsuc 1), k);
  send_sms = λ c n. (false, c);
}

code_goes_out : send_login_sms_code texts any_code (some 33) 8 0 0 ≡ (json 0 code_sent, (8, 8))
unfolding send_login_sms_code send store
code_goes_out = refl

code_opens :
    (login_sms texts any_code numbered false false false 2 3 (some (33, 8)) 8 nobody).0.0
    ≡ (json 4 code_accepted ∷ [], record { refresh = some 3; access = some 4 })
unfolding login_sms verify verify_stored find_or_crete create insert domain_to_entity with_phone
    find_by_phone entity_to_domain
code_opens = refl
