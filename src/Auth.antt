-- ===== src/Auth.antt =====
-- internal/auth/jwt.go: tokens signed by HMAC. HMAC, base64 and JSON are the parameter `Codec`.
pub mod Tokens
pub mod Accepted
use Prim.Native.Char.{code}
use Prim.Native.String.{◌++◌ as str_append, len}
use ptrans.Prelude.{
  ℕ, String, ◌/◌, Bool, true, false, ◌&&◌, ◌||◌, not, Option, none, some, List, [], ◌∷◌, ltb, leb,
  ◌==◌, str_eq, if◌then◌else◌,
}
use ptrans.Prelude.Int.{ℤ, pos, pos_part, ◌+ℤ◌, ltb_ℤ, leb_ℤ}
use ptrans.Prelude.Text.{trim_space}
use ptrans.Prelude.Split.{split_dots}
use ptrans.Domain.Errors.{Result, ok, err, other, Duration}
use ptrans.Provider.RetryAfter.{second, day}

pub record Config : Type 0 where
  pub secret : String
  pub issuer : String
  pub audience : String

-- The times are seconds since 1970.
pub record Claims : Type 0 where
  pub subject : String
  pub issuer : String
  pub audience : String
  pub expires_at : ℤ
  pub issued_at : ℤ
  pub not_before : ℤ

pub record Header : Type 0 where
  pub algorithm : String
  pub type_name : String

-- `parse_header` and `parse_claims` are `strictJSON` into these records.
pub record Codec : Type 0 where
  pub hmac : String → String → String
  pub encode : String → String
  pub decode : String → Option String
  pub marshal_header : Header → Option String
  pub marshal_claims : Claims → Option String
  pub parse_header : String → Option Header
  pub parse_claims : String → Option Claims

unfoldable pub new_authenticator : Config → Result Config
new_authenticator c =
    if ltb (len c.secret) 32 || str_eq (trim_space c.issuer) "" || str_eq (trim_space c.audience) ""
    then err (other "JWT secret must contain at least 32 bytes; issuer and audience are required")
    else ok c

unfoldable pub has_control : String → Bool
has_control String.[] = false
has_control (String.◌∷◌ c s) =
    let rest = has_control s in if ltb (code c) 32 || code c == 127 then true else rest

unfoldable pub valid_subject : String → Bool
unfolding has_control
valid_subject s =
    not (ltb (len s) 1 || ltb 128 (len s) || not (str_eq (trim_space s) s)) && not (has_control s)

abbrev pub dotted : String → String → String
dotted a b = str_append a (str_append "." b)

unfoldable pub claims_of : Config → String → Duration → ℤ → Claims
claims_of c subject ttl now = record {
  subject = subject;
  issuer = c.issuer;
  audience = c.audience;
  expires_at = now +ℤ pos (pos_part ttl / second);
  issued_at = now;
  not_before = now;
}

abbrev pub jwt_header : Header
jwt_header = record { algorithm = "HS256"; type_name = "JWT" }

-- A payload with its signature.
unfoldable pub signed : Codec → Config → String → String
signed k c payload = dotted payload (k.encode (k.hmac c.secret payload))

unfoldable pub join_parts : Codec → Config → Option String → Option String → Result String
unfolding signed
join_parts k c (some h) (some b) = ok (signed k c (dotted (k.encode h) (k.encode b)))
join_parts k c _ _ = err (other "marshal token")

unfoldable pub issue : Codec → Config → String → Duration → ℤ → Result String
unfolding valid_subject claims_of join_parts
issue k c subject ttl now =
    if not (valid_subject subject) || ltb_ℤ ttl (pos second) || ltb_ℤ (pos day) ttl
    then err (other "invalid subject or token lifetime")
    else join_parts k c (k.marshal_header jwt_header)
        (k.marshal_claims (claims_of c subject ttl now))

-- The last test of `Authenticate`; `true` refuses the claims.
unfoldable pub bad_claims : Config → Claims → ℤ → Bool
bad_claims cfg c now =
    not (valid_subject c.subject)
    || not (str_eq c.issuer cfg.issuer)
    || not (str_eq c.audience cfg.audience)
    || leb_ℤ c.expires_at now
    || leb_ℤ c.issued_at (pos 0)
    || ltb_ℤ now c.issued_at
    || leb_ℤ c.not_before (pos 0)
    || ltb_ℤ now c.not_before
    || leb_ℤ c.expires_at c.issued_at
    || leb_ℤ c.expires_at c.not_before

-- `ErrInvalidToken` is the only error: `none`.
unfoldable pub check_claims : Config → ℤ → Option Claims → Option String
unfolding bad_claims
check_claims cfg now none = none
check_claims cfg now (some c) = if bad_claims cfg c now then none else some c.subject

unfoldable pub check_body : Codec → Config → ℤ → Option String → Option String
unfolding check_claims
check_body k cfg now none = none
check_body k cfg now (some raw) = check_claims cfg now (k.parse_claims raw)

unfoldable pub good_header : Option Header → Bool
good_header none = false
good_header (some h) = str_eq h.algorithm "HS256" && str_eq h.type_name "JWT"

unfoldable pub check_header : Codec → Option String → Bool
unfolding good_header
check_header k none = false
check_header k (some raw) = good_header (k.parse_header raw)

unfoldable pub good_signature : Codec → Config → String → Option String → Bool
good_signature k cfg payload none = false
good_signature k cfg payload (some sig) = str_eq sig (k.hmac cfg.secret payload)

-- A token in its three parts.
unfoldable pub check_parts : Codec → Config → ℤ → List String → Option String
unfolding good_signature check_header check_body
check_parts k cfg now (h ∷ b ∷ sig ∷ []) =
    if not (good_signature k cfg (dotted h b) (k.decode sig))
    then none
    else if not (check_header k (k.decode h))
    then none
    else check_body k cfg now (k.decode b)
check_parts k cfg now _ = none

unfoldable pub authenticate : Codec → Config → String → ℤ → Option String
unfolding check_parts split_dots
authenticate k cfg token now =
    if len token == 0 || ltb 4096 (len token)
    then none
    else check_parts k cfg now (split_dots token)
