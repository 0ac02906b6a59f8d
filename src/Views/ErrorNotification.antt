-- ===== src/Views/ErrorNotification.antt =====
-- error/ErrorNotification.tsx: the timer that clears the error. `setTimeout` is a time at which its
-- function runs, in milliseconds; the timer that runs is cleared when the effect runs again.
pub mod Laws
use webca.Common.{ℕ, ◌+◌, Option, none, some, List, [], ◌∷◌, is_some, if◌then◌else◌, leb}
use webca.Constants.{error_display_time_ms}
use webca.Types.{ErrorInfo}

-- The error of the store, the time, and when the timer runs out, if there is one.
pub record Notification : Type 0 where
  pub now : ℕ
  pub error : Option ErrorInfo
  pub timer : Option ℕ

abbrev pub initial : Notification
initial = record { now = 0; error = none; timer = none }

-- `setupErrorClearing`
unfoldable pub setup_error_clearing : ℕ → Option ErrorInfo → Option ℕ
setup_error_clearing now none = none
setup_error_clearing now (some error) = some (now + error_display_time_ms)

-- The effect, which runs when the error has changed: the timer before it is cleared.
unfoldable pub error_changes : Option ErrorInfo → Notification → Notification
unfolding setup_error_clearing
error_changes error n = record n { error = error; timer = setup_error_clearing n.now error }

-- `removeError`, at a render with the present error.
unfoldable pub remove_error : Notification → Notification
unfolding error_changes
remove_error n = if is_some n.error then error_changes none n else n

-- `passes` is the passing of some milliseconds.
pub data Input : Type 0 where
  registers : ErrorInfo → Input
  closes : Input
  passes : ℕ → Input

unfoldable pub expires : Option ℕ → Notification → Notification
unfolding remove_error
expires none n = n
expires (some due) n = if leb due n.now then remove_error n else n

unfoldable pub handle : Notification → Input → Notification
unfolding error_changes remove_error expires
handle n (registers error) = error_changes (some error) n
handle n closes = remove_error n
handle n (passes ms) = expires n.timer (record n { now = n.now + ms })

unfoldable pub run : Notification → List Input → Notification
unfolding handle
run n [] = n
run n (i ∷ is) = run (handle n i) is
