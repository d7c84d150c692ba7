-- ===== src/EventLog/Replay.antt =====
-- What was appended is replayed: the log as a record of the events.
use Prim.Native.String.{◌++◌ as str_append, len}
use text.Mathlib.TextLemmas.{append_assoc}
use ptrans.Prelude.{
  ℕ, suc, String, ◌≡◌, ◌<◌, refl, sym, ap, ◌∙◌, Bool, true, false, leb, Option, none, some, List,
  [], ◌∷◌, ◌++◌, map, All, arith, str_eq, inl, inr, Bool-cases, Option-cases,
}
use ptrans.Prelude.Text.{trim_space}
use ptrans.Prelude.Lines.{
  split_lines, has_newline, complete, split_lines-append, split_lines_line, complete-append,
}
use ptrans.Domain.Errors.{Error, Result, ok, err}
use ptrans.Domain.Event.{Event}
use ptrans.EventLog.{
  EventJson, Log, no_faults, written, append, write_event, write_parts, write_line, max_token,
  Replayed, stopped, after_apply, replay_event, replay_lines, replay,
}

abbrev pub compacted : (String → String) → Event → Event
compacted compact e = record e { payload = compact e.payload }

-- What `json.Marshal` is documented to do: one line without space around it, which
-- `json.Unmarshal` reads back, the raw payload compacted.
pub record IsEventJson (k : EventJson) (compact : String → String) : Type 0 where
  pub one_line : (e : Event) (l : String) → k.marshal e ≡ some l → has_newline l ≡ false
  pub trimmed : (e : Event) (l : String) → k.marshal e ≡ some l → trim_space l ≡ l
  pub not_empty : (e : Event) (l : String) → k.marshal e ≡ some l → str_eq l "" ≡ false
  pub back :
      (e : Event) (l : String) → k.marshal e ≡ some l → k.unmarshal l ≡ some (compacted compact e)

appended : (Log → Result Log) → Log × Option Error → Result Log
appended rest (log, none) = rest log
appended rest (log, some e) = err e

-- Appends without faults, until the first error.
unfoldable pub append_all : EventJson → Log → List Event → Result Log
unfolding appended
append_all k log [] = ok log
append_all k log (e ∷ es) = appended (λ l. append_all k l es) (append k no_faults log e)

abbrev pub never : ℕ → Bool
never n = false

within : (l : String) → len l < max_token → leb max_token (len l) ≡ false
within l h = ground arith

failed : {C : Type 0} {e : Error} {g : Log} → err e ≡ ok g → C
failed h = cc

ok_inj : {a b : Log} → ok a ≡ ok b → a ≡ b
ok_inj h = cc

module _ {ℓ} {S : Type ℓ} where
  abbrev pub finished : S → Replayed S
  finished s = record { state = s; failure = none }

module _ {ℓ} {S : Type ℓ} (apply : S → Event → Result S) where
  next_if : Event → S → Option Error → Replayed S
  unfolding after_apply
  next_if e s none = after_apply finished s (apply s e)
  next_if e s (some f) = record { state = s; failure = some f }

  -- One event more, unless a failure came first.
  unfoldable pub next : Event → Replayed S → Replayed S
  unfolding next_if
  next e r = next_if e r.state r.failure

  -- The events one after the other, until the first failure.
  unfoldable pub resume : List Event → Replayed S → Replayed S
  unfolding next
  resume [] r = r
  resume (e ∷ es) r = resume es (next e r)

module _ {ℓ} {S : Type ℓ} (k : EventJson) (apply : S → Event → Result S) where
  through_apply :
      (e : Event) (rest more : S → Replayed S)
      → ((s : S) → more s ≡ next apply e (rest s))
      → (s : S) (r : Result S) → after_apply more s r ≡ next apply e (after_apply rest s r)
  unfolding after_apply next next_if stopped
  through_apply e rest more h s (ok s') = h s'
  through_apply e rest more h s (err f) = refl

  through_event :
      (e : Event) (rest more : S → Replayed S)
      → ((s : S) → more s ≡ next apply e (rest s))
      → (s : S) (o : Option Event)
      → replay_event k never apply more s o ≡ next apply e (replay_event k never apply rest s o)
  unfolding replay_event next next_if stopped
  through_event e rest more h s none = refl
  through_event e rest more h s (some f) = through_apply e rest more h s (apply s f)

  -- The last line of a log is its last event.
  last_line :
      (n : ℕ) (ls : List String) (l : String) (e : Event) (s : S)
      → len l < max_token
      → str_eq (trim_space l) "" ≡ false
      → k.unmarshal (trim_space l) ≡ some e
      → replay_lines k never apply n (ls ++ (l ∷ [])) s
        ≡ next apply e (replay_lines k never apply n ls s)
  unfolding replay_lines next next_if replay_event stopped
  last_line n [] l e s short text back = rw (within l short, text, back) refl
  last_line n (m ∷ ls) l e s short text back = elim (Bool-cases (leb max_token (len m))) [
    | inl f ↦ rw f refl
    | inr f ↦ elim (Bool-cases (str_eq (trim_space m) "")) [
      | inl g ↦ rw (f, g) (last_line (suc n) ls l e s short text back)
      | inr g ↦
          rw (f, g)
            (through_event e (replay_lines k never apply (suc n) ls)
              (replay_lines k never apply (suc n) (ls ++ (l ∷ [])))
              (λ t. last_line (suc n) ls l e t short text back) s (k.unmarshal (trim_space m)))
    ]
  ]

  module _ (compact : String → String) (json : IsEventJson k compact) where
    whole_again : (log : Log) (l : String) → complete (written (written log l) "\n").content ≡ true
    whole_again log l =
        ap complete (append_assoc log.content l "\n") ∙ complete-append log.content l

    -- The content of a log that one event was appended to.
    appended_line :
        (log : Log) (e : Event) (l : String) (s : S)
        → k.marshal e ≡ some l
        → len l < max_token
        → complete log.content ≡ true
        → replay k never apply false (written (written log l) "\n") s
          ≡ next apply (compacted compact e) (replay k never apply false log s)
    unfolding replay
    appended_line log e l s m short whole =
        rw
          (
            append_assoc log.content l "\n",
            split_lines-append log.content (str_append l "\n") whole,
            split_lines_line l (json.one_line e l m),
          )
          (last_line 0 (split_lines log.content) l (compacted compact e) s short
            (rw (json.trimmed e l m) (json.not_empty e l m))
            (rw (json.trimmed e l m) (json.back e l m)))

    append-written :
        (log : Log) (e : Event) (l : String)
        → k.marshal e ≡ some l
        → log.opened ≡ true
        → append k no_faults log e ≡ (written (written log l) "\n", none)
    unfolding append write_event write_parts write_line
    append-written log e l m o = rw (m, o) refl

    -- Appending to a store that is open, or not at all.
    append_cases :
        (log : Log) (e : Event) (rest : Log → Result Log) (log' : Log)
        → appended rest (append k no_faults log e) ≡ ok log'
        → (l : String) × (k.marshal e ≡ some l) × (rest (written (written log l) "\n") ≡ ok log')
    unfolding append write_event write_parts write_line appended
    append_cases log e rest log' h = elim (Option-cases (k.marshal e)) [
      | inl m ↦ failed (rw m at h)
      | inr (l, m) ↦ elim (Bool-cases log.opened) [
        | inl o ↦ (l, m, ap (appended rest) (sym (append-written log e l m o)) ∙ h)
        | inr o ↦ failed (rw (m, o) at h)
      ]
    ]

    -- Replaying a log after events were appended to it without an error is replaying what it had
    -- and then applying those events, their payloads compacted, one after the other until one
    -- fails, when JSON is faithful, the log ended with a newline or was empty, and every new line
    -- is shorter than the scanner's buffer.
    pub replay-append_all :
        (log log' : Log) (es : List Event) (s : S)
        → append_all k log es ≡ ok log'
        → complete log.content ≡ true
        → All (λ e. (l : String) → k.marshal e ≡ some l → len l < max_token) es
        → replay k never apply false log' s
          ≡ resume apply (map (compacted compact) es) (replay k never apply false log s)
    unfolding append_all resume
    replay-append_all log log' [] s h whole short = rw (ok_inj h) refl
    replay-append_all log log' (e ∷ es) s h whole short =
        let (l, m, done) = append_cases log e (λ g. append_all k g es) log' h in
        replay-append_all (written (written log l) "\n") log' es s done (whole_again log l) short.1
        ∙ ap (resume apply (map (compacted compact) es))
            (appended_line log e l s m (short.0 l m) whole)
