-- ===== src/Sms/Service.antt =====
-- webook/internal/service/sms/types.go (`Service`), and the decorators of ratelimit/limiter.go and
-- auth/service.go. The world is whatever the providers, Redis and the network are; a service may
-- change it, and answers with an error or nil.
use weishu.Base.{Bool, true, false, Option, none, some, List}

-- An error as the decorators tell them apart: the two of `context`, any other of a provider, and
-- those that the decorators make themselves.
pub data SmsError : Type 0 where
  canceled deadline_exceeded all_failed limited invalid_token : SmsError
  provider limiter_error : SmsError

-- The arguments of `Send` but the context.
pub record Request (Text : Type 0) : Type 0 where
  pub tpl_id : Text
  pub args : List Text
  pub numbers : List Text

abbrev pub Service : Type 0 → Type 0 → Type 0
Service Text World = Request Text → World → Option SmsError × World

-- What a limiter answers: an error, or whether the call is limited.
pub data Verdict : Type 0 where
  failed : Verdict
  verdict : Bool → Verdict

module _ {Text World : Type 0} where
  -- `RateLimitSMSService.Send`, at the limiter that it was given.
  after_limiter : Service Text World → Request Text → Verdict × World → Option SmsError × World
  after_limiter svc req (failed, w) = (some limiter_error, w)
  after_limiter svc req (verdict true, w) = (some limited, w)
  after_limiter svc req (verdict false, w) = svc req w

  unfoldable pub rate_limited :
      (Text → World → Verdict × World) → Text → Service Text World → Service Text World
  unfolding after_limiter
  rate_limited limit key svc req w = after_limiter svc req (limit key w)

  -- `SMSService.Send` of auth: the template id is a signed token, and the wrapped service gets the
  -- template that the token names. `parse` is `jwt.ParseWithClaims` with the service's key.
  with_claims : Service Text World → Request Text → Option Text → World → Option SmsError × World
  with_claims svc req none w = (some invalid_token, w)
  with_claims svc req (some tpl) w = svc (record req { tpl_id = tpl }) w

  unfoldable pub authorized : (Text → Option Text) → Service Text World → Service Text World
  unfolding with_claims
  authorized parse svc req w = with_claims svc req (parse req.tpl_id) w
