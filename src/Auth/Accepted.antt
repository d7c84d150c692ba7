-- ===== src/Auth/Accepted.antt =====
-- What a token that `Authenticate` accepts has: a signature under the secret, and live claims.
use ptrans.Prelude.{
  String, ◌≡◌, refl, ap, true, false, ◌||◌, ◌==◌, ltb, Option, none, some, List, [], ◌∷◌, arith,
  str_eq→eq, inl, inr, Bool-cases,
}
use ptrans.Prelude.Int.{ℤ, pos, ◌≤ℤ◌, ◌<ℤ◌, int_laws}
use ptrans.Prelude.Split.{split_dots}
use ptrans.Auth.{
  Config, Claims, Header, Codec, valid_subject, dotted, bad_claims, check_claims, check_body,
  good_header, check_header, good_signature, check_parts, authenticate,
}
use Prim.Native.String.{len}

pub record AreLive (cfg : Config) (c : Claims) (now : ℤ) : Type 0 where
  pub subject_valid : valid_subject c.subject ≡ true
  pub issuer_same : c.issuer ≡ cfg.issuer
  pub audience_same : c.audience ≡ cfg.audience
  pub started : c.issued_at ≤ℤ now
  pub usable : c.not_before ≤ℤ now
  pub unexpired : now <ℤ c.expires_at
  pub dated : pos 0 <ℤ c.issued_at

pub record IsSigned (k : Codec) (cfg : Config) (parts : List String) (c : Claims) : Type 0 where
  pub head : String
  pub body : String
  pub signature : String
  pub head_raw : String
  pub body_raw : String
  pub header : Header
  pub split : parts ≡ head ∷ body ∷ signature ∷ []
  pub authentic : k.decode signature ≡ some (k.hmac cfg.secret (dotted head body))
  pub head_decoded : k.decode head ≡ some head_raw
  pub header_parsed : k.parse_header head_raw ≡ some header
  pub algorithm : header.algorithm ≡ "HS256"
  pub type_name : header.type_name ≡ "JWT"
  pub body_decoded : k.decode body ≡ some body_raw
  pub claims_parsed : k.parse_claims body_raw ≡ some c

good-AreLive :
    (cfg : Config) (c : Claims) (now : ℤ) → bad_claims cfg c now ≡ false → AreLive cfg c now
unfolding bad_claims
good-AreLive cfg c now h = record {
  subject_valid = ground (arith, h);
  issuer_same = str_eq→eq c.issuer cfg.issuer (ground (arith, h));
  audience_same = str_eq→eq c.audience cfg.audience (ground (arith, h));
  started = grind (int_laws, h);
  usable = grind (int_laws, h);
  unexpired = grind (int_laws, h);
  dated = grind (int_laws, h);
}

pub record IsAccepted (k : Codec) (cfg : Config) (parts : List String) (subject : String) (now : ℤ)
    : Type 0 where
  pub claims : Claims
  pub named : claims.subject ≡ subject
  pub signed : IsSigned k cfg parts claims
  pub live : AreLive cfg claims now

some_inj : {a b : String} → some a ≡ some b → a ≡ b
some_inj h = cc

no : {C : Type 0} {s : String} → none ≡ some s → C
no h = cc

module _ (k : Codec) (cfg : Config) (now : ℤ) (subject : String) where
  accepted_claims :
      (oc : Option Claims)
      → check_claims cfg now oc ≡ some subject
      → (c : Claims) × (oc ≡ some c) × (c.subject ≡ subject) × AreLive cfg c now
  unfolding check_claims
  accepted_claims none h = no h
  accepted_claims (some c) h = elim (Bool-cases (bad_claims cfg c now)) [
    | inl e ↦ no (rw e at h)
    | inr e ↦ (c, refl, some_inj (rw e at h), good-AreLive cfg c now e)
  ]

  accepted_body :
      (ob : Option String)
      → check_body k cfg now ob ≡ some subject
      → (raw : String) × (ob ≡ some raw)
        × (check_claims cfg now (k.parse_claims raw) ≡ some subject)
  unfolding check_body
  accepted_body none h = no h
  accepted_body (some raw) h = (raw, refl, h)

  accepted_header :
      (oh : Option String)
      → check_header k oh ≡ true
      → (raw : String) × (oh ≡ some raw) × (good_header (k.parse_header raw) ≡ true)
  unfolding check_header
  accepted_header none h = cc
  accepted_header (some raw) h = (raw, refl, h)

  parsed_header :
      (oh : Option Header)
      → good_header oh ≡ true
      → (h : Header) × (oh ≡ some h) × (h.algorithm ≡ "HS256") × (h.type_name ≡ "JWT")
  unfolding good_header
  parsed_header none h = cc
  parsed_header (some v) h = (
    v,
    refl,
    str_eq→eq v.algorithm "HS256" (ground (arith, h)),
    str_eq→eq v.type_name "JWT" (ground (arith, h)),
  )

  signature_same :
      (payload : String) (sig : Option String)
      → good_signature k cfg payload sig ≡ true
      → sig ≡ some (k.hmac cfg.secret payload)
  unfolding good_signature
  signature_same payload none h = cc
  signature_same payload (some v) h = ap some (str_eq→eq v _ h)

  -- Three parts that are accepted pass each test in turn.
  tests_passed :
      (h b sig : String)
      → check_parts k cfg now (h ∷ b ∷ sig ∷ []) ≡ some subject
      → (good_signature k cfg (dotted h b) (k.decode sig) ≡ true)
        × (check_header k (k.decode h) ≡ true)
        × (check_body k cfg now (k.decode b) ≡ some subject)
  unfolding check_parts
  tests_passed h b sig e = elim (Bool-cases (good_signature k cfg (dotted h b) (k.decode sig))) [
    | inr g ↦ no (rw g at e)
    | inl g ↦ elim (Bool-cases (check_header k (k.decode h))) [
      | inr f ↦ no (rw (g, f) at e)
      | inl f ↦ (g, f, rw (g, f) at e)
    ]
  ]

  parts-IsAccepted :
      (parts : List String)
      → check_parts k cfg now parts ≡ some subject
      → IsAccepted k cfg parts subject now
  unfolding check_parts
  parts-IsAccepted (h ∷ b ∷ sig ∷ []) e =
      let passed = tests_passed h b sig e in
      let head = accepted_header (k.decode h) passed.1 in
      let header = parsed_header (k.parse_header head.0) head.2 in
      let body = accepted_body (k.decode b) passed.2 in
      let claims = accepted_claims (k.parse_claims body.0) body.2 in
      record {
        claims = claims.0;
        named = claims.2;
        signed = record {
          head = h;
          body = b;
          signature = sig;
          head_raw = head.0;
          body_raw = body.0;
          header = header.0;
          split = refl;
          authentic = signature_same (dotted h b) (k.decode sig) passed.0;
          head_decoded = head.1;
          header_parsed = header.1;
          algorithm = header.2;
          type_name = header.3;
          body_decoded = body.1;
          claims_parsed = claims.1;
        };
        live = claims.3;
      }
  parts-IsAccepted [] e = no e
  parts-IsAccepted (_ ∷ []) e = no e
  parts-IsAccepted (_ ∷ _ ∷ []) e = no e
  parts-IsAccepted (_ ∷ _ ∷ _ ∷ _ ∷ _) e = no e

  -- A token that `Authenticate` accepts at time `now` for `subject` has three parts: the third
  -- is the encoded HMAC of the first two under the secret, the first is a header that says HS256
  -- and JWT, and the second holds claims for `subject` with the configured issuer and audience,
  -- issued after 1970 and not after `now`, usable at `now`, and expiring after `now`.
  pub authenticate-IsAccepted :
      (token : String)
      → authenticate k cfg token now ≡ some subject
      → IsAccepted k cfg (split_dots token) subject now
  unfolding authenticate
  authenticate-IsAccepted token e = elim (Bool-cases (len token == 0 || ltb 4096 (len token))) [
    | inl f ↦ no (rw f at e)
    | inr f ↦ parts-IsAccepted (split_dots token) (rw f at e)
  ]
