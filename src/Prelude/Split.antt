-- ===== src/Prelude/Split.antt =====
-- `strings.Split(s, ".")`.
use Prim.Native.Char.{Char, code}
use Prim.Native.String.{String, ◌++◌}
use mathlib.Core.Path.{◌≡◌, refl}
use mathlib.Core.Bool.{Bool, true, false}
use mathlib.Core.List.{List, [], ◌∷◌}
use text.Mathlib.TextLemmas.{nil-append, cons-append}
use ptrans.Prelude.Tests.{◌==◌, if◌then◌else◌, Bool-cases}
use mathlib.Core.Logic.{inl, inr}

abbrev is_dot : Char → Bool
is_dot c = code c == b'.'

-- A character in front of the first part.
unfoldable pub put_first : Char → List String → List String
put_first c [] = String.◌∷◌ c String.[] ∷ []
put_first c (p ∷ ps) = String.◌∷◌ c p ∷ ps

unfoldable pub split_dots : String → List String
unfolding put_first
split_dots String.[] = String.[] ∷ []
split_dots (String.◌∷◌ c s) =
    let rest = split_dots s in if is_dot c then String.[] ∷ rest else put_first c rest

unfoldable pub has_dot : String → Bool
has_dot String.[] = false
has_dot (String.◌∷◌ c s) = let rest = has_dot s in if is_dot c then true else rest

clash : {C : Type 0} → true ≡ false → C
clash h = cc

pub split_dots_whole : (s : String) → has_dot s ≡ false → split_dots s ≡ s ∷ []
unfolding split_dots has_dot put_first
split_dots_whole String.[] h = refl
split_dots_whole (String.◌∷◌ c s) h = elim (Bool-cases (is_dot c)) [
  | inl e ↦ clash (rw e at h)
  | inr e ↦ rw (e, split_dots_whole s (rw e at h)) refl
]

split_dots_dot : (t : String) → split_dots ("." ++ t) ≡ String.[] ∷ split_dots t
unfolding split_dots
split_dots_dot t = rw (cons-append "." String.[] t, nil-append t) refl

pub split_dots-append :
    (s t : String) → has_dot s ≡ false → split_dots (s ++ ("." ++ t)) ≡ s ∷ split_dots t
unfolding split_dots has_dot put_first
split_dots-append String.[] t h = rw (nil-append ("." ++ t)) (split_dots_dot t)
split_dots-append (String.◌∷◌ c s) t h = elim (Bool-cases (is_dot c)) [
  | inl e ↦ clash (rw e at h)
  | inr e ↦ rw (cons-append c s ("." ++ t)) (rw (e, split_dots-append s t (rw e at h)) refl)
]
