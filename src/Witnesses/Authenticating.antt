-- ===== src/Witnesses/Authenticating.antt =====
-- A token for one user, with an encoding that escapes dots.
use Prim.Native.String.{◌++◌ as str_append}
use ptrans.Prelude.{
  String, ◌≡◌, refl, sym, ap, Bool, true, ◌&&◌, Option, none, some, arith, str_eq, str_eq→eq,
  if◌then◌else◌, inl, inr, Bool-cases, eq_of_some,
}
use ptrans.Prelude.Int.{ℤ, pos, leb_ℤ, eq_of_parts, int_laws, ◌+ℤ◌}
use ptrans.Prelude.Text.{trim_space}
use ptrans.Prelude.Split.{split_dots}
use ptrans.Domain.Errors.{ok}
use ptrans.Auth.{
  Config, Claims, Header, Codec, jwt_header, issue, authenticate, valid_subject, has_control,
  claims_of, join_parts, signed, check_parts, good_signature, check_header, good_header, check_body,
  check_claims, bad_claims,
}
use ptrans.Auth.Tokens.{IsFaithful, authenticate-issue}
use ptrans.Auth.Accepted.{IsAccepted, authenticate-IsAccepted}
use ptrans.Witnesses.Escaping.{escape, unescape, unescape-escape, escape_no_dot}

abbrev pub config : Config
config = record { secret = "0123456789abcdef0123456789abcdef"; issuer = "ptrans"; audience = "api" }

abbrev user_claims : Claims
user_claims = record {
  subject = "u1";
  issuer = "ptrans";
  audience = "api";
  expires_at = pos 160;
  issued_at = pos 100;
  not_before = pos 100;
}

same_number : ℤ → ℤ → Bool
same_number a b = leb_ℤ a b && leb_ℤ b a

are_same : Claims → Claims → Bool
unfolding same_number
are_same c d =
    str_eq c.subject d.subject
    && str_eq c.issuer d.issuer
    && str_eq c.audience d.audience
    && same_number c.expires_at d.expires_at
    && same_number c.issued_at d.issued_at
    && same_number c.not_before d.not_before

unfoldable pub write_header : Header → Option String
write_header h =
    if str_eq h.algorithm "HS256" && str_eq h.type_name "JWT" then some "head" else none

unfoldable pub read_header : String → Option Header
read_header raw = if str_eq raw "head" then some jwt_header else none

unfoldable pub write_claims : Claims → Option String
unfolding are_same
write_claims c = if are_same c user_claims then some "claims" else none

unfoldable pub read_claims : String → Option Claims
read_claims raw = if str_eq raw "claims" then some user_claims else none

abbrev pub codec : Codec
codec = record {
  hmac = str_append;
  encode = escape;
  decode = unescape;
  marshal_header = write_header;
  marshal_claims = write_claims;
  parse_header = read_header;
  parse_claims = read_claims;
}

no : {C : Type 0} {s : String} → none ≡ some s → C
no h = cc

same_ints : (a b : ℤ) → same_number a b ≡ true → a ≡ b
unfolding same_number
same_ints a b h = eq_of_parts a b (ground (arith, h))

claims_same : (c d : Claims) → are_same c d ≡ true → c ≡ d
unfolding are_same
claims_same c d h = λ i. record {
  subject = str_eq→eq c.subject d.subject (ground (arith, h)) i;
  issuer = str_eq→eq c.issuer d.issuer (ground (arith, h)) i;
  audience = str_eq→eq c.audience d.audience (ground (arith, h)) i;
  expires_at = same_ints c.expires_at d.expires_at (ground (arith, h)) i;
  issued_at = same_ints c.issued_at d.issued_at (ground (arith, h)) i;
  not_before = same_ints c.not_before d.not_before (ground (arith, h)) i;
}

header_same :
    (h : Header) → (str_eq h.algorithm "HS256" && str_eq h.type_name "JWT") ≡ true → jwt_header ≡ h
header_same h e = λ i. record {
  algorithm = sym (str_eq→eq h.algorithm "HS256" (ground (arith, e))) i;
  type_name = sym (str_eq→eq h.type_name "JWT" (ground (arith, e))) i;
}

header_read : (h : Header) (raw : String) → write_header h ≡ some raw → read_header raw ≡ some h
unfolding write_header read_header
header_read h raw e = elim (Bool-cases (str_eq h.algorithm "HS256" && str_eq h.type_name "JWT")) [
  | inl f ↦ rw (sym (eq_of_some (rw f at e))) (ap some (header_same h f))
  | inr f ↦ no (rw f at e)
]

claims_read : (c : Claims) (raw : String) → write_claims c ≡ some raw → read_claims raw ≡ some c
unfolding write_claims read_claims
claims_read c raw e = elim (Bool-cases (are_same c user_claims)) [
  | inl f ↦ rw (sym (eq_of_some (rw f at e))) (ap some (sym (claims_same c user_claims f)))
  | inr f ↦ no (rw f at e)
]

abbrev faithful : IsFaithful codec
faithful = record {
  decode-encode = unescape-escape;
  no_dot = escape_no_dot;
  header_back = header_read;
  claims_back = claims_read;
}

abbrev pub token : String
token = "head.claims.0123456789abcdef0123456789abcdefhead-dclaims"

issued : issue codec config "u1" (pos 60000000000) (pos 100) ≡ ok token
unfolding issue valid_subject has_control claims_of join_parts signed write_header write_claims
    escape trim_space ◌+ℤ◌
issued = refl

accepted : authenticate codec config token (pos 159) ≡ some "u1"
unfolding authenticate check_parts good_signature check_header good_header check_body check_claims
    bad_claims valid_subject has_control unescape read_header read_claims split_dots trim_space
accepted = refl

authenticate-issue_example : authenticate codec config token (pos 159) ≡ some "u1"
authenticate-issue_example =
    authenticate-issue codec config faithful "u1" token (pos 60000000000) (pos 100) (pos 159) issued
      (omega arith) (omega arith) (omega arith) (grind int_laws)

authenticate-IsAccepted_example : IsAccepted codec config (split_dots token) "u1" (pos 159)
authenticate-IsAccepted_example = authenticate-IsAccepted codec config (pos 159) "u1" token accepted
