-- ===== src/Api/Protected.antt =====
-- What a request can do without a token, over its rate, or with an error.
use ptrans.Prelude.{
  String, ◌≡◌, refl, sym, ap, ◌∙◌, true, false, Option, none, some, List, [], ◌∷◌, str_eq,
  str_eq→eq, inl, inr, Bool-cases,
}
use ptrans.Prelude.Int.{ℤ}
use ptrans.Domain.Errors.{Time}
use ptrans.Storage.Schema.{Store}
use ptrans.Prelude.{◌≢◌, eq_of_some}
use ptrans.Prelude.Split.{split_dots}
use ptrans.Auth.{Codec, Config, authenticate}
use ptrans.Auth.Accepted.{IsAccepted, authenticate-IsAccepted}
use ptrans.Services.{to_upper}
use ptrans.Api.{Response, Handler, write_json, write_error}
use ptrans.Api.Guards.{fields, unauthorized, with_user, with_fields, require_user}
use ptrans.Api.Routes.{Api, Endpoint, protected, serve, serve_user}

-- A bearer token of the header Authorization that the authenticator takes for a user.
pub record IsAuthenticated (a : Api) (authorization user : String) : Type 0 where
  pub authenticator : String → Option String
  pub scheme : String
  pub token : String
  pub present : a.authenticate ≡ some authenticator
  pub split : fields authorization ≡ scheme ∷ token ∷ []
  pub bearer : to_upper scheme ≡ "BEARER"
  pub accepted : authenticator token ≡ some user
  pub named : str_eq user "" ≡ false

-- The two ways of a guarded request: it is refused, and nothing changes, or it runs for a user.
pub data IsGuarded (a : Api) (authorization : String) (next : String → Handler) (s : Store)
    (out : Response × Store) : Type 0 where
  refused_as :
      out.0.status ≡ 401 → out.0.challenge ≡ true → out.1 ≡ s → IsGuarded a authorization next s out
  runs_for :
      (user : String)
      → IsAuthenticated a authorization user
      → out ≡ next user s
      → IsGuarded a authorization next s out

module _ (a : Api) (authorization : String) (next : String → Handler) (s : Store) where
  refusal-IsGuarded :
      (message : String) → IsGuarded a authorization next s (unauthorized message, s)
  unfolding unauthorized write_error write_json
  refusal-IsGuarded message = refused_as refl refl refl

  user-IsGuarded :
      (auth : String → Option String) (scheme token : String) (o : Option String)
      → a.authenticate ≡ some auth
      → fields authorization ≡ scheme ∷ token ∷ []
      → str_eq (to_upper scheme) "BEARER" ≡ true
      → auth token ≡ o
      → IsGuarded a authorization next s (with_user next o s)
  unfolding with_user
  user-IsGuarded auth scheme token none p f b t = refusal-IsGuarded "invalid or expired token"
  user-IsGuarded auth scheme token (some user) p f b t = elim (Bool-cases (str_eq user "")) [
    | inl e ↦ rw e (refusal-IsGuarded "invalid or expired token")
    | inr e ↦ rw e (
        runs_for user
          (record {
            authenticator = auth;
            scheme = scheme;
            token = token;
            present = p;
            split = f;
            bearer = str_eq→eq (to_upper scheme) "BEARER" b;
            accepted = t;
            named = e;
          })
          refl)
  ]

  fields-IsGuarded :
      (auth : String → Option String) (parts : List String)
      → a.authenticate ≡ some auth
      → fields authorization ≡ parts
      → IsGuarded a authorization next s (with_fields auth next parts s)
  unfolding with_fields
  fields-IsGuarded auth [] p f = refusal-IsGuarded "bearer token required"
  fields-IsGuarded auth (_ ∷ []) p f = refusal-IsGuarded "bearer token required"
  fields-IsGuarded auth (_ ∷ _ ∷ _ ∷ _) p f = refusal-IsGuarded "bearer token required"
  fields-IsGuarded auth (scheme ∷ token ∷ []) p f =
      elim (Bool-cases (str_eq (to_upper scheme) "BEARER")) [
        | inl e ↦ rw e (user-IsGuarded auth scheme token (auth token) p f e refl)
        | inr e ↦ rw e (refusal-IsGuarded "bearer token required")
      ]

  require-IsGuarded :
      (o : Option (String → Option String))
      → a.authenticate ≡ o
      → IsGuarded a authorization next s (require_user o authorization next s)
  unfolding require_user
  require-IsGuarded none p = refusal-IsGuarded "bearer token required"
  require-IsGuarded (some auth) p = fields-IsGuarded auth (fields authorization) p refl

-- A request for payments or subscriptions is either refused with 401, a challenge and no change,
-- or it runs for the user whose bearer token the authenticator took, and for no other.
pub serve-IsGuarded :
    (a : Api) (now : Time) (authorization : String) (e : Endpoint) (s : Store)
    → IsGuarded a authorization (serve_user a now e) s (serve a now authorization (protected e) s)
unfolding serve
serve-IsGuarded a now authorization e s =
    require-IsGuarded a authorization (serve_user a now e) s a.authenticate refl

-- A request that carries an accepted token, and what it ran.
pub record HasToken (k : Codec) (cfg : Config) (unix : ℤ) (authorization : String)
    (next : String → Handler) (s : Store) (out : Response × Store) : Type 0 where
  pub user : String
  pub scheme : String
  pub token : String
  pub split : fields authorization ≡ scheme ∷ token ∷ []
  pub bearer : to_upper scheme ≡ "BEARER"
  pub valid : IsAccepted k cfg (split_dots token) user unix
  pub ran : out ≡ next user s

guarded_token :
    (k : Codec) (cfg : Config) (unix : ℤ) (a : Api) (authorization : String)
    (next : String → Handler) (s : Store) (out : Response × Store)
    → a.authenticate ≡ some (λ token. authenticate k cfg token unix)
    → out.1 ≢ s
    → IsGuarded a authorization next s out
    → HasToken k cfg unix authorization next s out
guarded_token k cfg unix a authorization next s out same changed (refused_as c h e) =
    absurd (changed e)
guarded_token k cfg unix a authorization next s out same changed (runs_for user u e) = record {
  user = user;
  scheme = u.scheme;
  token = u.token;
  split = u.split;
  bearer = u.bearer;
  valid =
      authenticate-IsAccepted k cfg unix user u.token
        (ap (λ f. f u.token) (eq_of_some (sym same ∙ u.present)) ∙ u.accepted);
  ran = e;
}

-- With the tokens of internal/auth, a request for payments or subscriptions that changes the store
-- carries a token that is signed, unexpired and meant for this API, and runs for its subject.
pub serve-HasToken :
    (k : Codec) (cfg : Config) (unix : ℤ) (a : Api) (now : Time) (authorization : String)
    (e : Endpoint) (s : Store)
    → a.authenticate ≡ some (λ token. authenticate k cfg token unix)
    → (serve a now authorization (protected e) s).1 ≢ s
    → HasToken k cfg unix authorization
        (serve_user a now e)
        s
        (serve a now authorization (protected e) s)
serve-HasToken k cfg unix a now authorization e s same changed =
    guarded_token k cfg unix a authorization (serve_user a now e) s _ same changed
      (serve-IsGuarded a now authorization e s)
