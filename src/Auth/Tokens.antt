-- ===== src/Auth/Tokens.antt =====
-- Tokens that were issued are accepted, and only signed, unexpired ones are.
use Prim.Native.String.{◌++◌ as str_append, len}
use text.Mathlib.TextLemmas.{append_assoc}
use text.Mathlib.TextPositions.{len-append}
use ptrans.Prelude.{
  ℕ, String, ◌≡◌, ◌≤◌, ◌/◌, refl, sym, ap, Bool, true, false, not, ◌||◌, ◌==◌, ltb, Option, none,
  some, [], ◌∷◌, arith, str_eq_self, inl, inr, Bool-cases,
}
use ptrans.Prelude.Int.{ℤ, pos, pos_part, ◌+ℤ◌, ◌≤ℤ◌, ◌<ℤ◌, ltb_ℤ, int_laws}
use ptrans.Prelude.Split.{split_dots, has_dot, split_dots_whole, split_dots-append}
use ptrans.Domain.Errors.{Error, ok, err, Duration}
use ptrans.Provider.RetryAfter.{second, day}
use ptrans.Auth.{
  Config, Claims, Header, Codec, valid_subject, dotted, claims_of, jwt_header, signed, join_parts,
  issue, bad_claims, check_claims, check_body, good_header, check_header, good_signature,
  check_parts, authenticate,
}

-- What base64 without padding and JSON are documented to do: decoding undoes encoding, and no
-- encoded text has a dot.
pub record IsFaithful (k : Codec) : Type 0 where
  pub decode-encode : (s : String) → k.decode (k.encode s) ≡ some s
  pub no_dot : (s : String) → has_dot (k.encode s) ≡ false
  pub header_back :
      (h : Header) (raw : String) → k.marshal_header h ≡ some raw → k.parse_header raw ≡ some h
  pub claims_back :
      (c : Claims) (raw : String) → k.marshal_claims c ≡ some raw → k.parse_claims raw ≡ some c

ok_inj : {a b : String} → ok a ≡ ok b → a ≡ b
ok_inj e = cc

clash_ok : {C : Type 0} {e : Error} {t : String} → err e ≡ ok t → C
clash_ok h = cc

short_bool : (n : ℕ) → n ≤ 4096 → ltb 4096 n ≡ false
short_bool n h = ground arith

valid_of : (a b c : Bool) → (not a || b || c) ≡ false → a ≡ true
valid_of true b c h = refl
valid_of false b c h = cc

dotted_not_empty : (a b : String) → (len (dotted a b) == 0) ≡ false
dotted_not_empty a b = rw (len-append a (str_append "." b), len-append "." b) ground arith

module _ (k : Codec) (cfg : Config) (faithful : IsFaithful k) where
  signed_parts :
      (h b : String)
      → split_dots (signed k cfg (dotted (k.encode h) (k.encode b)))
        ≡ k.encode h
          ∷ k.encode b
          ∷ k.encode (k.hmac cfg.secret (dotted (k.encode h) (k.encode b)))
          ∷ []
  unfolding signed
  signed_parts h b =
      rw
        (
          append_assoc (k.encode h) (str_append "." (k.encode b))
              (str_append "." (k.encode (k.hmac cfg.secret (dotted (k.encode h) (k.encode b))))),
          append_assoc "." (k.encode b)
              (str_append "." (k.encode (k.hmac cfg.secret (dotted (k.encode h) (k.encode b))))),
          split_dots-append (k.encode h) _ (faithful.no_dot h),
          split_dots-append (k.encode b) _ (faithful.no_dot b),
          split_dots_whole _
              (faithful.no_dot (k.hmac cfg.secret (dotted (k.encode h) (k.encode b)))),
        )
        refl

  checked_parts :
      (h b : String) (now : ℤ)
      → good_header (k.parse_header h) ≡ true
      → check_parts k cfg now (
          k.encode h
          ∷ k.encode b
          ∷ k.encode (k.hmac cfg.secret (dotted (k.encode h) (k.encode b)))
          ∷ [])
        ≡ check_claims cfg now (k.parse_claims b)
  unfolding check_parts good_signature check_header check_body
  checked_parts h b now g =
      rw
        (
          faithful.decode-encode (k.hmac cfg.secret (dotted (k.encode h) (k.encode b))),
          str_eq_self (k.hmac cfg.secret (dotted (k.encode h) (k.encode b))),
          faithful.decode-encode h,
          g,
          faithful.decode-encode b,
        )
        refl

  accepted_claims :
      (subject : String) (ttl : Duration) (now later : ℤ)
      → valid_subject subject ≡ true
      → pos 0 <ℤ now
      → now ≤ℤ later
      → later <ℤ now +ℤ pos (pos_part ttl / second)
      → bad_claims cfg (claims_of cfg subject ttl now) later ≡ false
  unfolding bad_claims claims_of
  accepted_claims subject ttl now later valid started after before =
      rw (valid, str_eq_self cfg.issuer, str_eq_self cfg.audience) grind
        (int_laws, started, after, before)

  -- A token made from encoded parts is read back to what its claims say.
  joined_back :
      (token : String) (c : Claims) (later : ℤ) (mh mb : Option String)
      → k.marshal_header jwt_header ≡ mh
      → k.marshal_claims c ≡ mb
      → join_parts k cfg mh mb ≡ ok token
      → check_parts k cfg later (split_dots token) ≡ check_claims cfg later (some c)
  unfolding join_parts good_header
  joined_back token c later (some h) (some b) eh eb j =
      rw
        (
          sym (ok_inj j),
          signed_parts h b,
          checked_parts h b later (ap good_header (faithful.header_back jwt_header h eh)),
          faithful.claims_back c b eb,
        )
        refl
  joined_back token c later none mb eh eb j = cc
  joined_back token c later (some h) none eh eb j = cc

  not_empty :
      (token : String) (c : Claims) (mh mb : Option String)
      → join_parts k cfg mh mb ≡ ok token
      → (len token == 0) ≡ false
  unfolding join_parts signed
  not_empty token c (some h) (some b) j = rw (sym (ok_inj j)) (dotted_not_empty _ _)
  not_empty token c none mb j = cc
  not_empty token c (some h) none j = cc

  -- Whatever `Issue` returns without an error, `Authenticate` accepts for its subject from the
  -- moment of issue until its lifetime, in whole seconds, is over, when base64 and JSON are
  -- faithful, the clock is past 1970 and the token has at most 4096 bytes.
  pub authenticate-issue :
      (subject token : String) (ttl : Duration) (now later : ℤ)
      → issue k cfg subject ttl now ≡ ok token
      → len token ≤ 4096
      → pos 0 <ℤ now
      → now ≤ℤ later
      → later <ℤ now +ℤ pos (pos_part ttl / second)
      → authenticate k cfg token later ≡ some subject
  unfolding authenticate check_claims issue
  authenticate-issue subject token ttl now later h short started after before =
      elim (Bool-cases
        (not (valid_subject subject) || ltb_ℤ ttl (pos second) || ltb_ℤ (pos day) ttl)) [
          | inl e ↦ clash_ok (rw e at h)
          | inr e ↦
              rw
                (
                  not_empty token (claims_of cfg subject ttl now) (k.marshal_header jwt_header)
                      (k.marshal_claims (claims_of cfg subject ttl now)) (rw e at h),
                  short_bool (len token) short,
                  joined_back token (claims_of cfg subject ttl now) later _ _ refl refl (rw e at h),
                  accepted_claims subject ttl now later (valid_of _ _ _ e) started after before,
                )
                refl
        ]
