-- ===== src/Views/ErrorNotification/Laws.antt =====
-- How long an error is shown.
use webca.Common.{
  ℕ, ◌+◌, ◌<◌, ◌≤◌, ◌≡◌, refl, ap, ◌∙◌, true, false, Option, none, some, List, [], ◌∷◌, map, arith,
  if◌then◌else◌, ltb, leb, Bool-cases, inl, inr,
}
use webca.Constants.{error_display_time_ms}
use webca.Types.{ErrorInfo}
use webca.Views.ErrorNotification.{
  Notification, initial, Input, registers, closes, passes, handle, run, remove_error, expires,
}

abbrev pub total : List ℕ → ℕ
total [] = 0
total (ms ∷ rest) = ms + total rest

-- With no error and no timer, time passes without effect.
nothing_shown :
    (now : ℕ) (times : List ℕ)
    → (run (record { now = now; error = none; timer = none }) (map passes times)).error ≡ none
unfolding run handle
nothing_shown now [] = refl
nothing_shown now (ms ∷ rest) = nothing_shown (now + ms) rest

abbrev within : {A : Type 0} → ℕ → ℕ → A → Option A
within t due a = if ltb t due then some a else none

run_out :
    (now ms rest due : ℕ) (e : ErrorInfo)
    → leb due (now + ms) ≡ true
    → none ≡ within (now + (ms + rest)) due e
run_out now ms rest due e h = ground arith

not_run_out : (t due : ℕ) → leb due t ≡ false → t < due
not_run_out t due h = ground arith

from_now :
    (now t length : ℕ) (e : ErrorInfo) → within (now + t) (now + length) e ≡ within t length e
from_now now t length e = ground arith

abbrev showing : ℕ → ℕ → ErrorInfo → Notification
showing now due e = record { now = now; error = some e; timer = some due }

fires :
    (now ms due : ℕ) (e : ErrorInfo)
    → leb due (now + ms) ≡ true
    → handle (showing now due e) (passes ms) ≡ record { now = now + ms; error = none; timer = none }
unfolding handle
fires now ms due e h = rw h refl

stays :
    (now ms due : ℕ) (e : ErrorInfo)
    → leb due (now + ms) ≡ false
    → handle (showing now due e) (passes ms) ≡ showing (now + ms) due e
unfolding handle
stays now ms due e h = rw h refl

shown_until :
    (now due : ℕ) (e : ErrorInfo) (times : List ℕ)
    → now < due
    → (run (showing now due e) (map passes times)).error ≡ within (now + total times) due e
unfolding run handle
shown_until now due e [] h = ground arith
shown_until now due e (ms ∷ rest) h = elim (Bool-cases (leb due (now + ms))) [
  | inl over ↦
      ap (λ n. (run n (map passes rest)).error) (fires now ms due e over)
      ∙ (nothing_shown (now + ms) rest ∙ run_out now ms (total rest) due e over)
  | inr still ↦
      ap (λ n. (run n (map passes rest)).error) (stays now ms due e still)
      ∙ (shown_until (now + ms) due e rest (not_run_out (now + ms) due still)
          ∙ ap (λ t. within t due e) (omega arith))
]

-- However the time after it is divided, an error that is registered is shown, if no other is
-- registered and it is not closed, for less than 4500 milliseconds, and not from then on: whatever
-- was shown before, and whatever timer was running.
pub run-registers :
    (n : Notification) (e : ErrorInfo) (times : List ℕ)
    → (run n (registers e ∷ map passes times)).error
      ≡ (if ltb (total times) error_display_time_ms then some e else none)
unfolding run handle
run-registers n e times =
    shown_until n.now (n.now + error_display_time_ms) e times (omega arith)
    ∙ from_now n.now (total times) error_display_time_ms e

-- The timer runs exactly while an error is shown, and runs out within the display time.
abbrev pub TimedBy : ℕ → Option ErrorInfo → Option ℕ → Type 0
TimedBy now none none = Unit
TimedBy now (some e) (some due) = (now < due) × (due ≤ now + error_display_time_ms)
TimedBy now _ _ = ⊥

abbrev pub IsTimed : Notification → Type 0
IsTimed n = TimedBy n.now n.error n.timer

removed_cases :
    (now : ℕ) (e : Option ErrorInfo) (t : Option ℕ)
    → TimedBy now e t
    → IsTimed (remove_error (record { now = now; error = e; timer = t }))
unfolding remove_error
removed_cases now none none h = tt
removed_cases now none (some due) h = h
removed_cases now (some e) none h = tt
removed_cases now (some e) (some due) h = tt

removed-IsTimed : (n : Notification) → IsTimed n → IsTimed (remove_error n)
removed-IsTimed n h = removed_cases n.now n.error n.timer h

passed_cases :
    (now ms : ℕ) (e : Option ErrorInfo) (t : Option ℕ)
    → TimedBy now e t
    → IsTimed (expires t (record { now = now + ms; error = e; timer = t }))
unfolding expires
passed_cases now ms none none h = tt
passed_cases now ms none (some due) h = absurd h
passed_cases now ms (some e) none h = absurd h
passed_cases now ms (some e) (some due) (later, soon) = elim (Bool-cases (leb due (now + ms))) [
  | inl over ↦ rw over tt
  | inr still ↦ rw still (not_run_out (now + ms) due still, omega arith)
]

handle-IsTimed : (n : Notification) (i : Input) → IsTimed n → IsTimed (handle n i)
unfolding handle
handle-IsTimed n (registers e) h = (omega arith, omega arith)
handle-IsTimed n closes h = removed-IsTimed n h
handle-IsTimed n (passes ms) h = passed_cases n.now ms n.error n.timer h

run_keeps : (n : Notification) (is : List Input) → IsTimed n → IsTimed (run n is)
unfolding run
run_keeps n [] h = h
run_keeps n (i ∷ is) h = run_keeps (handle n i) is (handle-IsTimed n i h)

-- After any sequence of errors, closings and passing times, the timer runs exactly while an error is
-- shown, and it runs out later than now, but within the 4500 milliseconds of the display time.
pub run-IsTimed : (is : List Input) → IsTimed (run initial is)
run-IsTimed is = run_keeps initial is tt
