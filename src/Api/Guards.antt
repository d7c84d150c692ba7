-- ===== src/Api/Guards.antt =====
-- `requireUser` and `withRateLimit` of internal/httpapi/router.go.
use Prim.Native.Char.{code}
use Prim.Native.String.{◌++◌ as str_append}
use ptrans.Prelude.{
  ℕ, String, ◌/◌, Bool, true, false, not, Option, none, some, List, [], ◌∷◌, str_eq, ltb,
  if◌then◌else◌,
}
use ptrans.Prelude.Int.{ℤ, pos, pos_part, ltb_ℤ}
use ptrans.Prelude.Text.{is_space}
use ptrans.Prelude.Split.{put_first}
use ptrans.Domain.Errors.{Result, ok, err, Time}
use ptrans.Provider.RetryAfter.{second}
use ptrans.Storage.Schema.{Store, Action}
use ptrans.Limiter.{Decision}
use ptrans.Services.{to_upper}
use ptrans.Api.{limited_body, Response, Handler, write_json, write_error}

starts_word : String → Bool
starts_word String.[] = false
starts_word (String.◌∷◌ c s) = not (is_space (code c))

-- `strings.Fields`
unfoldable pub fields : String → List String
unfolding starts_word is_space put_first
fields String.[] = []
fields (String.◌∷◌ c s) =
    let rest = fields s in
    if is_space (code c)
    then rest
    else if starts_word s
    then put_first c rest
    else String.◌∷◌ c String.[] ∷ rest

unfoldable pub unauthorized : String → Response
unfolding write_error
unauthorized message = record (write_error 401 message) { challenge = true }

-- The user of a token; an empty one is refused.
unfoldable pub with_user : (String → Handler) → Option String → Handler
unfolding unauthorized
with_user next none s = (unauthorized "invalid or expired token", s)
with_user next (some user) s =
    if str_eq user "" then (unauthorized "invalid or expired token", s) else next user s

-- The scheme is compared without regard to case, as `strings.EqualFold` does with these letters.
unfoldable pub with_fields : (String → Option String) → (String → Handler) → List String → Handler
unfolding with_user to_upper
with_fields authenticate next (scheme ∷ token ∷ []) s =
    if str_eq (to_upper scheme) "BEARER"
    then with_user next (authenticate token) s
    else (unauthorized "bearer token required", s)
with_fields authenticate next _ s = (unauthorized "bearer token required", s)

-- `none` is an API without an authenticator.
unfoldable pub require_user :
    Option (String → Option String) → String → (String → Handler) → Handler
unfolding with_fields fields
require_user none authorization next s = (unauthorized "bearer token required", s)
require_user (some authenticate) authorization next s =
    with_fields authenticate next (fields authorization) s

-- The interface of the limiter.
pub record RateLimiter : Type 0 where
  pub allow : String → Time → Action Decision
  pub limit : ℤ

-- The headers stand before what the next handler writes.
unfoldable pub with_rate : RateLimiter → Decision → Response → Response
with_rate l d r =
    if ltb_ℤ (pos 0) l.limit then record r { rate = some (l.limit, d.remaining) } else r

unfoldable pub retry_seconds : Decision → ℕ
retry_seconds d =
    let seconds = pos_part d.retry_after / second in if ltb seconds 1 then 1 else seconds

unfoldable pub too_many : Decision → Response
unfolding retry_seconds write_json
too_many d = record (write_json 429 (limited_body (retry_seconds d))) {
  retry_after = some (retry_seconds d);
}

unfoldable pub after_allow : RateLimiter → Handler → Result Decision × Store → Response × Store
unfolding with_rate too_many write_error
after_allow l next (err e, s) = (write_error 500 "internal server error", s)
after_allow l next (ok d, s) =
    let (r, s') = next s in
    if d.allowed then (with_rate l d r, s') else (with_rate l d (too_many d), s)

unfoldable pub with_rate_limit : Option RateLimiter → String → String → Time → Handler → Handler
unfolding after_allow
with_rate_limit none scope user now next s = next s
with_rate_limit (some l) scope user now next s =
    after_allow l next (l.allow (str_append scope (str_append ":" user)) now s)
