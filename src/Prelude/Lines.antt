-- ===== src/Prelude/Lines.antt =====
-- The lines of a text, as `bufio.Scanner` finds them: the last may lack its newline.
use Prim.Native.Char.{Char, code}
use Prim.Native.String.{String, ◌++◌ as str_append}
use mathlib.Core.Path.{◌≡◌, refl, sym, ap, ◌∙◌}
use mathlib.Core.Bool.{Bool, true, false}
use mathlib.Core.List.{List, [], ◌∷◌, ◌++◌}
use text.Mathlib.TextLemmas.{append_assoc, nil-append, cons-append}
use ptrans.Prelude.Tests.{◌==◌, if◌then◌else◌, Bool-cases}
use ptrans.Prelude.Split.{put_first}
use mathlib.Core.Logic.{inl, inr}

abbrev is_newline : Char → Bool
is_newline c = code c == 10

unfoldable pub split_lines : String → List String
unfolding put_first
split_lines String.[] = []
split_lines (String.◌∷◌ c s) =
    let rest = split_lines s in if is_newline c then String.[] ∷ rest else put_first c rest

unfoldable pub has_newline : String → Bool
has_newline String.[] = false
has_newline (String.◌∷◌ c s) = let rest = has_newline s in if is_newline c then true else rest

-- Whether the last character, or `b` where there is none, ends a line.
complete_after : Bool → String → Bool
complete_after b String.[] = b
complete_after b (String.◌∷◌ c s) = complete_after (is_newline c) s

unfoldable pub complete : String → Bool
unfolding complete_after
complete s = complete_after true s

clash : {C : Type 0} → true ≡ false → C
clash h = cc

complete_of : (b : Bool) (s : String) → complete_after b s ≡ true → complete s ≡ true
unfolding complete
complete_of b String.[] h = refl
complete_of b (String.◌∷◌ c s) h = h

put_twice :
    (c d : Char) (ls more : List String)
    → put_first c (put_first d ls ++ more) ≡ put_first c (put_first d ls) ++ more
unfolding put_first
put_twice c d [] more = refl
put_twice c d (l ∷ ls) more = refl

put_first-append :
    (c : Char) (s : String) (more : List String)
    → complete_after false s ≡ true
    → put_first c (split_lines s ++ more) ≡ put_first c (split_lines s) ++ more
unfolding split_lines complete_after put_first
put_first-append c String.[] more h = clash (sym h)
put_first-append c (String.◌∷◌ d s) more h = elim (Bool-cases (is_newline d)) [
  | inl e ↦ rw e refl
  | inr e ↦ rw e (put_twice c d (split_lines s) more)
]

-- What follows a complete text has lines of its own.
pub split_lines-append :
    (s t : String)
    → complete s ≡ true
    → split_lines (str_append s t) ≡ split_lines s ++ split_lines t
unfolding split_lines complete complete_after
split_lines-append String.[] t h = rw (nil-append t) refl
split_lines-append (String.◌∷◌ c s) t h = elim (Bool-cases (is_newline c)) [
  | inl e ↦ rw (cons-append c s t, e, split_lines-append s t (complete_of _ s h)) refl
  | inr e ↦
      rw (cons-append c s t, e, split_lines-append s t (complete_of _ s h))
        (put_first-append c s (split_lines t) (rw e at h))
]

-- A line with its newline is one line.
pub split_lines_line :
    (s : String) → has_newline s ≡ false → split_lines (str_append s "\n") ≡ s ∷ []
unfolding split_lines has_newline put_first
split_lines_line String.[] h = refl
split_lines_line (String.◌∷◌ c s) h = elim (Bool-cases (is_newline c)) [
  | inl e ↦ clash (rw e at h)
  | inr e ↦ rw (cons-append c s "\n", e, split_lines_line s (rw e at h)) refl
]

complete_after_newline : (b : Bool) (s : String) → complete_after b (str_append s "\n") ≡ true
unfolding complete_after
complete_after_newline b String.[] = refl
complete_after_newline b (String.◌∷◌ c s) =
    rw (cons-append c s "\n") (complete_after_newline (is_newline c) s)

after_append :
    (b : Bool) (s t : String) → complete_after b (str_append s (str_append t "\n")) ≡ true
unfolding complete_after
after_append b s t =
    ap (complete_after b) (sym (append_assoc s t "\n")) ∙ complete_after_newline b (str_append s t)

-- A text that ends with a newline is complete.
pub complete-append : (s t : String) → complete (str_append s (str_append t "\n")) ≡ true
unfolding complete
complete-append s t = after_append true s t
