-- ===== src/Config.antt =====
-- internal/config/env.go. `env` is `os.Getenv`, where an unset variable is empty; the parser of
-- durations is a parameter. The source reads its maps in any order, which only decides which of
-- several errors is reported.
use Prim.Native.String.{◌++◌ as str_append}
use ptrans.Prelude.{String, ◌≡◌, ◌^◌, refl, Option, none, some, str_eq, if◌then◌else◌}
use mathlib.Core.Path.{subst}
use ptrans.Prelude.Int.{ℤ, pos, ◌<ℤ◌}
use ptrans.Prelude.Text.{parse_int}
use ptrans.Domain.Errors.{Error, Result, ok, err, other, Duration}
use ptrans.Auth as Auth
use ptrans.Refunds.{Options}
use ptrans.Refunds.Validation.{default_options, validate, IsValid, validate-IsValid}

-- The rest of a block runs on a value alone.
infixl 5 ◌>>=◌
unfoldable pub ◌>>=◌ : {A B : Type 0} → Result A → (A → Result B) → Result B
◌>>=◌ (err e) rest = err e
◌>>=◌ (ok a) rest = rest a

module _ (env : String → String) where
  -- `Env`
  unfoldable pub env_or : String → String → String
  env_or key fallback = if str_eq (env key) "" then fallback else env key

  unfoldable pub jwt : Auth.Config
  unfolding env_or
  jwt = record {
    secret = env "JWT_SECRET";
    issuer = env_or "JWT_ISSUER" "ptrans";
    audience = env_or "JWT_AUDIENCE" "ptrans-api";
  }

  unfoldable pub parsed_as : String → Option ℤ → Result ℤ
  parsed_as key none = err (other (str_append key ": invalid value"))
  parsed_as key (some n) = ok n

  -- A variable that is set replaces the default.
  unfoldable pub setting : (String → Option ℤ) → String → ℤ → Result ℤ
  unfolding parsed_as
  setting parse key fallback =
      if str_eq (env key) "" then ok fallback else parsed_as key (parse (env key))

  module _ (parse_duration : String → Option Duration) where
    abbrev pub duration : String → Duration → Result ℤ
    duration = setting parse_duration

    abbrev pub number : String → ℤ → Result ℤ
    number = setting parse_int

    unfoldable pub read_options : Options → Result Options
    unfolding setting
    read_options o = do
      poll ← duration "REFUND_POLL_INTERVAL" o.poll_interval
      lease ← duration "REFUND_LEASE_DURATION" o.lease_duration
      timeout ← duration "PROVIDER_HTTP_TIMEOUT" o.request_timeout
      check ← duration "REFUND_CHECK_INTERVAL" o.check_interval
      initial ← duration "REFUND_INITIAL_BACKOFF" o.initial_backoff
      longest ← duration "REFUND_MAX_BACKOFF" o.max_backoff
      stuck ← duration "REFUND_STUCK_AFTER" o.stuck_after
      attempts ← number "REFUND_MAX_ATTEMPTS" o.max_attempts
      failures ← number "REFUND_MAX_CHECK_FAILURES" o.max_check_failures
      batch ← number "REFUND_BATCH_SIZE" o.batch_size
      ok (record {
        poll_interval = poll;
        lease_duration = lease;
        request_timeout = timeout;
        check_interval = check;
        initial_backoff = initial;
        max_backoff = longest;
        stuck_after = stuck;
        max_attempts = attempts;
        max_check_failures = failures;
        batch_size = batch;
      })

    unfoldable pub refund_options : Result Options
    unfolding read_options
    refund_options = do o ← read_options default_options; u ← validate o; ok o

failed : {A C : Type 0} {e : Error} {a : A} → err e ≡ ok a → C
failed h = cc

ok_inj : {A : Type 0} {a b : A} → ok a ≡ ok b → a ≡ b
ok_inj h = cc

unit_ok : (v : Result (Unit {0})) (a o : Options) → (v >>= λ _. ok a) ≡ ok o → (v ≡ ok tt) × (a ≡ o)
unfolding ◌>>=◌
unit_ok (ok tt) a o h = (refl, ok_inj h)
unit_ok (err e) a o h = failed h

read_then_valid :
    (r : Result Options) (o : Options)
    → (r >>= λ a. validate a >>= λ _. ok a) ≡ ok o
    → validate o ≡ ok tt
unfolding ◌>>=◌
read_then_valid (err e) o h = failed h
read_then_valid (ok a) o h =
    let (valid, same) = unit_ok (validate a) a o h in subst (λ x. validate x ≡ ok tt) same valid

-- Options that are read from the environment without an error, with a request timeout below
-- 2^62 ns, have positive durations and limits, a backoff in order and a lease that covers two
-- requests, whatever the variables say.
pub refund_options-IsValid :
    (env : String → String) (parse_duration : String → Option Duration) (o : Options)
    → refund_options env parse_duration ≡ ok o
    → o.request_timeout <ℤ pos (2 ^ 62)
    → IsValid o
unfolding refund_options
refund_options-IsValid env parse_duration o h short =
    (validate-IsValid o short).0
      (read_then_valid (read_options env parse_duration default_options) o h)
