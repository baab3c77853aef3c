-- ===== src/Codes/Service.antt =====
-- webook/internal/repository/cache/code.go, and the repository and the service over it. The two scripts
-- of Redis are arguments: each gives a number, or none for an error of Redis, and what it leaves under its
-- key. The SMS service is an argument as well; what it does is its own state.
use weishu.Base.{ℕ, Bool, true, false, Option, none, some}
use weishu.Base.Int.{ℤ, pos, negsuc}

pub data CodeError : Type 0 where
  set_code_too_many no_expiration verify_too_many_times unknown : CodeError
  redis sms : CodeError

-- `set_code` and `verify_code` at one key, and `send` of the SMS service.
pub record World (Text Key Outside : Type 0) : Type 0 where
  pub set_code : Text → Key → Option ℤ × Key
  pub verify_code : Text → Key → Option ℤ × Key
  pub send_sms : Text → Outside → Bool × Outside

-- `Set`: what its script's number means.
abbrev pub set_error : Option ℤ → Option CodeError
set_error none = some redis
set_error (some (pos n)) = none
set_error (some (negsuc n)) = elim n [
  | ℕ.zero ↦ some set_code_too_many
  | ℕ.suc m ↦ elim m [ ℕ.zero ↦ some no_expiration | ℕ.suc k ↦ none ]
]

-- `Verify`
abbrev pub verify_result : Option ℤ → Bool × Option CodeError
verify_result none = (false, some redis)
verify_result (some (pos n)) = elim n [ ℕ.zero ↦ (true, none) | ℕ.suc m ↦ (false, some unknown) ]
verify_result (some (negsuc n)) = elim n [
  | ℕ.zero ↦ (false, some verify_too_many_times)
  | ℕ.suc m ↦ elim m [ ℕ.zero ↦ (false, none) | ℕ.suc k ↦ (false, some unknown) ]
]

abbrev pub hide_too_many : Bool × Option CodeError → Bool × Option CodeError
hide_too_many (ok, none) = (ok, none)
hide_too_many (ok, some redis) = (ok, some redis)
hide_too_many (ok, some sms) = (ok, some sms)
hide_too_many (ok, some unknown) = (ok, some unknown)
hide_too_many (ok, some no_expiration) = (ok, some no_expiration)
hide_too_many (ok, some set_code_too_many) = (ok, some set_code_too_many)
hide_too_many (ok, some verify_too_many_times) = (false, none)

module _ {Text Key Outside : Type 0} (W : World Text Key Outside) where
  -- `Set` of the cache, and `Store` of the repository
  unfoldable pub store : Text → Key → Option CodeError × Key
  store code k = let (n, k') = W.set_code code k in (set_error n, k')

  unfoldable pub verify_stored : Text → Key → (Bool × Option CodeError) × Key
  verify_stored code k = let (n, k') = W.verify_code code k in (verify_result n, k')

  abbrev pub then_send :
      Text → Option CodeError × Key → Outside → Option CodeError × (Key × Outside)
  then_send code (some e, k) o = (some e, (k, o))
  then_send code (none, k) o =
      let (fails, o') = W.send_sms code o in
      (elim fails [ true ↦ some sms | false ↦ none ], (k, o'))

  -- The service's `Send`, for the code that it has drawn
  unfoldable pub send : Text → Key → Outside → Option CodeError × (Key × Outside)
  send code k o = then_send code (store code k) o

  -- The service's `Verify`: too many attempts are told as a wrong code.
  unfoldable pub verify : Text → Key → (Bool × Option CodeError) × Key
  verify code k = let (r, k') = verify_stored code k in (hide_too_many r, k')
