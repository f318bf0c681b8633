-- ===== src/Worker/Automaton.antt =====
-- The abstract task: an automaton whose events are the methods of its feedbacks.
use mathlib.Core.Option.{some-injective}
use robo_control.Prelude.{
  ℕ, String, ◌≡◌, inl, inr, refl, ap, ◌∙◌, Bool, true, false, ◌||◌, not, Option, none, some, List,
  [], ◌∷◌, arith, str_eq, if◌then◌else◌, Bool-cases,
}
use robo_control.Database.Tasks.{
  TaskStatus, pending, running, completed, failed, cancelled, TaskHistory,
}
use robo_control.Worker.{Feedback, is_terminal, target_status, update_for}
use robo_control.Worker.Rows.{row_after}

-- The methods that do not end a task.
unfoldable pub keeps_going : String → Bool
keeps_going m = str_eq m "start" || str_eq m "outbin"

-- What a method stands for: a task that is under way, done, or failed.
unfoldable pub outcome : String → TaskStatus
outcome method =
    if keeps_going method then running else if str_eq method "end" then completed else failed

target_status_lem : (method : String) → target_status method ≡ outcome method
unfolding target_status outcome keeps_going
target_status_lem method = ground arith

-- What an event makes of a status: a live task takes the status that the method stands for.
unfoldable pub step : TaskStatus → String → TaskStatus
step pending method = outcome method
step running method = outcome method
step completed method = completed
step failed method = failed
step cancelled method = cancelled

unfoldable pub run : TaskStatus → List String → TaskStatus
run s [] = s
run s (m ∷ ms) = run (step s m) ms

pub row_after-step :
    (now : ℕ) (f : Feedback) (t : TaskHistory) → (row_after now f t).status ≡ step t.status f.method
unfolding step update_for
row_after-step now f t = ground (arith, target_status_lem f.method)

pub run_if :
    (b : Bool) (s : TaskStatus) (m : String) (ms : List String)
    → run (if b then step s m else s) ms ≡ run s (if b then m ∷ ms else ms)
unfolding run
run_if true s m ms = refl
run_if false s m ms = refl

-- A status that has ended stays as it is.
run-terminal : (s : TaskStatus) (ms : List String) → is_terminal s ≡ true → run s ms ≡ s
unfolding run step
run-terminal s [] e = refl
run-terminal completed (m ∷ ms) e = run-terminal completed ms refl
run-terminal failed (m ∷ ms) e = run-terminal failed ms refl
run-terminal cancelled (m ∷ ms) e = run-terminal cancelled ms refl
run-terminal pending (m ∷ ms) e = ground arith
run-terminal running (m ∷ ms) e = ground arith

unfoldable pub first_ending : List String → Option String
first_ending [] = none
first_ending (m ∷ ms) = let rest = first_ending ms in if keeps_going m then rest else some m

step-live : (s : TaskStatus) (m : String) → is_terminal s ≡ false → step s m ≡ outcome m
unfolding step
step-live s m e = ground arith

outcome-ends : (m : String) → is_terminal (outcome m) ≡ not (keeps_going m)
unfolding keeps_going outcome
outcome-ends m = ground arith

pub run-first_ending :
    (s : TaskStatus) (ms : List String) (m : String)
    → is_terminal s ≡ false
    → first_ending ms ≡ some m
    → run s ms ≡ outcome m
unfolding first_ending run
run-first_ending s [] m live e = ground arith
run-first_ending s (n ∷ ms) m live e = rw (step-live s n live) (elim (Bool-cases (keeps_going n)) [
  | inl k ↦
      let live' : is_terminal (outcome n) ≡ false = rw (outcome-ends n, k) refl in
      let next : first_ending ms ≡ some m = rw k at e in
      run-first_ending (outcome n) ms m live' next
  | inr k ↦
      let ended = run-terminal (outcome n) ms (rw (outcome-ends n, k) refl) in
      let same : some n ≡ some m = rw k at e in ended ∙ ap outcome (some-injective n m same)
])
