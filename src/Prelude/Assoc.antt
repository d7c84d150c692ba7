-- ===== src/Prelude/Assoc.antt =====
-- Go maps with string keys, as lists of entries with one entry for each key.
use Prim.Native.String.{String}
use mathlib.Core.Path.{◌≡◌, refl, ◌∙◌, subst}
use mathlib.Core.Logic.{inl, inr}
use mathlib.Core.Bool.{false}
use mathlib.Core.Option.{Option, none, some}
use mathlib.Core.List.{List, [], ◌∷◌, map}
use ptrans.Prelude.Tests.{str_eq, str_eq_self, str_eq→eq, if◌then◌else◌, Bool-cases}

module _ {ℓ} {V : Type ℓ} where
  -- `m[key]` with its `ok`.
  unfoldable pub get : String → List (String × V) → Option V
  get key [] = none
  get key (e ∷ rest) = let other = get key rest in if str_eq e.0 key then some e.1 else other

  -- `m[key] = value`
  unfoldable pub put : String → V → List (String × V) → List (String × V)
  put key v [] = (key, v) ∷ []
  put key v (e ∷ rest) =
      let after = put key v rest in if str_eq e.0 key then (key, v) ∷ rest else e ∷ after

  abbrev pub values : List (String × V) → List V
  values = map (λ e. e.1)

  pub get-put_same : (key : String) (v : V) (m : List (String × V)) → get key (put key v m) ≡ some v
  unfolding get put
  get-put_same key v [] = rw (str_eq_self key) refl
  get-put_same key v (e ∷ rest) = elim (Bool-cases (str_eq e.0 key)) [
    | inl h ↦ rw (h, str_eq_self key) refl
    | inr h ↦ rw (h, h) (get-put_same key v rest)
  ]

  pub get-put_other :
      (key other : String) (v : V) (m : List (String × V))
      → str_eq key other ≡ false
      → get other (put key v m) ≡ get other m
  unfolding get put
  get-put_other key other v [] n = rw n refl
  get-put_other key other v (e ∷ rest) n = elim (Bool-cases (str_eq e.0 key)) [
    | inl h ↦ rw (h, str_eq→eq e.0 key h, n) refl
    | inr h ↦ rw (h, get-put_other key other v rest n) refl
  ]

module _ {ℓ} {V : Type ℓ} where
  -- An entry for a key that `o` finds absent.
  abbrev pub put_absent : Option V → String → V → List (String × V) → List (String × V)
  put_absent none key v m = put key v m
  put_absent (some _) key v m = m

  -- The entry that `o` finds, changed.
  abbrev pub change : (V → V) → Option V → String → List (String × V) → List (String × V)
  change f none key m = m
  change f (some v) key m = put key (f v) m

  -- What a look-up of `id` gives then, by what it gave before.
  abbrev pub absent_at : String → V → String → Option V → Option V
  absent_at key v id none = if str_eq key id then some v else none
  absent_at key v id (some w) = some w

  abbrev pub changed_at : (V → V) → String → String → Option V → Option V
  changed_at f key id none = none
  changed_at f key id (some v) = if str_eq key id then some (f v) else some v

module _ {ℓ} {V : Type ℓ} (key : String) (v : V) (m : List (String × V)) where
  absent_same :
      (o : Option V) → get key m ≡ o → get key (put_absent o key v m) ≡ absent_at key v key o
  absent_same none h = rw (str_eq_self key) (get-put_same key v m)
  absent_same (some w) h = h

  absent_other :
      (id : String) (o p : Option V)
      → str_eq key id ≡ false
      → get id m ≡ p
      → get id (put_absent o key v m) ≡ absent_at key v id p
  absent_other id none none n h = rw n (get-put_other key id v m n ∙ h)
  absent_other id none (some w) n h = get-put_other key id v m n ∙ h
  absent_other id (some x) none n h = rw n h
  absent_other id (some x) (some w) n h = h

  pub get-put_absent :
      (id : String) → get id (put_absent (get key m) key v m) ≡ absent_at key v id (get id m)
  get-put_absent id = elim (Bool-cases (str_eq key id)) [
    | inl e ↦
        subst (λ i. get i (put_absent (get key m) key v m) ≡ absent_at key v i (get i m))
          (str_eq→eq key id e) (absent_same (get key m) refl)
    | inr e ↦ absent_other id (get key m) (get id m) e refl
  ]

module _ {ℓ} {V : Type ℓ} (f : V → V) (key : String) (m : List (String × V)) where
  change_same : (o : Option V) → get key m ≡ o → get key (change f o key m) ≡ changed_at f key key o
  change_same none h = h
  change_same (some w) h = rw (str_eq_self key) (get-put_same key (f w) m)

  change_other :
      (id : String) (o p : Option V)
      → str_eq key id ≡ false
      → get id m ≡ p
      → get id (change f o key m) ≡ changed_at f key id p
  change_other id none none n h = h
  change_other id none (some w) n h = rw n h
  change_other id (some x) none n h = get-put_other key id (f x) m n ∙ h
  change_other id (some x) (some w) n h = rw n (get-put_other key id (f x) m n ∙ h)

  pub get-change :
      (id : String) → get id (change f (get key m) key m) ≡ changed_at f key id (get id m)
  get-change id = elim (Bool-cases (str_eq key id)) [
    | inl e ↦
        subst (λ i. get i (change f (get key m) key m) ≡ changed_at f key i (get i m))
          (str_eq→eq key id e) (change_same (get key m) refl)
    | inr e ↦ change_other id (get key m) (get id m) e refl
  ]
