-- ===== src/Witnesses/Escaping.antt =====
-- A text encoding without dots that is undone: `.` is `-d`, `-` is `-m`.
use Prim.Native.Char.{Char, code}
use text.Mathlib.TextEquality.{Char-path}
use ptrans.Prelude.{
  String, ◌≡◌, refl, ap, Bool, true, false, Option, none, some, arith, ◌==◌, if◌then◌else◌, inl,
  inr, Bool-cases,
}
use ptrans.Prelude.Split.{has_dot}

abbrev is_dash : Char → Bool
is_dash c = code c == b'-'

abbrev is_point : Char → Bool
is_point c = code c == b'.'

unfoldable pub escape : String → String
escape String.[] = String.[]
escape (String.◌∷◌ c s) =
    let rest = escape s in
    if is_point c
    then String.◌∷◌ "-" (String.◌∷◌ "d" rest)
    else if is_dash c
    then String.◌∷◌ "-" (String.◌∷◌ "m" rest)
    else String.◌∷◌ c rest

abbrev before : Char → Option String → Option String
before c none = none
before c (some s) = some (String.◌∷◌ c s)

unescape_after : Bool → String → Option String
unescape_after true String.[] = none
unescape_after false String.[] = some String.[]
unescape_after true (String.◌∷◌ c s) =
    let rest = unescape_after false s in
    if code c == b'd' then before "." rest else if code c == b'm' then before "-" rest else none
unescape_after false (String.◌∷◌ c s) =
    let rest = unescape_after false s in
    let escaped = unescape_after true s in if is_dash c then escaped else before c rest

unfoldable pub unescape : String → Option String
unfolding unescape_after
unescape s = unescape_after false s

same_code : (c d : Char) → (code c == code d) ≡ true → c ≡ d
same_code c d h = Char-path c d (ground (arith, h))

not_dash : (c : Char) → is_point c ≡ true → is_dash c ≡ false
not_dash c h = ground (arith, h)

pub unescape-escape : (s : String) → unescape (escape s) ≡ some s
unfolding unescape unescape_after escape
unescape-escape String.[] = refl
unescape-escape (String.◌∷◌ c s) = elim (Bool-cases (is_point c)) [
  | inl e ↦
      rw (e, unescape-escape s)
        (ap (λ d. some (String.◌∷◌ d s)) (same_code "." c (ground (arith, e))))
  | inr e ↦ elim (Bool-cases (is_dash c)) [
    | inl f ↦
        rw (e, f, unescape-escape s)
          (ap (λ d. some (String.◌∷◌ d s)) (same_code "-" c (ground (arith, f))))
    | inr f ↦ rw (e, f, f, unescape-escape s) refl
  ]
]

pub escape_no_dot : (s : String) → has_dot (escape s) ≡ false
unfolding escape has_dot
escape_no_dot String.[] = refl
escape_no_dot (String.◌∷◌ c s) = elim (Bool-cases (is_point c)) [
  | inl e ↦ rw (e, escape_no_dot s) refl
  | inr e ↦ elim (Bool-cases (is_dash c)) [
    | inl f ↦ rw (e, f, escape_no_dot s) refl
    | inr f ↦ rw (e, f, e, escape_no_dot s) refl
  ]
]
