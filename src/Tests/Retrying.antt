-- ===== src/Tests/Retrying.antt =====
-- A message whose first two executions meet a database that is down.
use robo_control.Prelude.{
  String, ℕ, ◌≤◌, ◌≡◌, refl, some, none, List, [], ◌∷◌, arith, if◌then◌else◌, ltb,
}
use robo_control.Json.{Fields}
use robo_control.Database.{Db}
use robo_control.World.{Env}
use robo_control.Worker.Retries.{run_message}
use robo_control.Worker.Retries.Ending.{HasEnded, run_message-ends}
use robo_control.Tests
use robo_control.Tests.Feedbacks.{row, populated, message}

abbrev down_twice : Env
down_twice = record Tests.env {
  commit_error = λ n d. if ltb n 2 then some "the server has gone away" else none;
}

abbrev others : ℕ → List (ℕ × Fields)
others n = (1001, message "start") ∷ []

up_again :
    (n : ℕ) (d : Db)
    → 2 ≤ n
    → (down_twice.commit_error n d ≡ none) × (down_twice.statement_error n d ≡ none)
up_again n d h = (ground arith, refl)

takes : (now : ℕ) (key : String) → down_twice.redis_error now key ≡ none
takes now key = refl

waits : ℕ → ℕ
waits n = n

run_message-ends_example :
    HasEnded "T1" (run_message down_twice waits others (message "end") populated)
unfolding robo_control.Worker.read_feedback robo_control.Text.strip
    robo_control.Client.Response.text_at robo_control.Worker.Automaton.outcome
    robo_control.Worker.Automaton.keeps_going robo_control.Database.Tasks.get_by_robot_task_code
run_message-ends_example =
    run_message-ends down_twice waits others 2 up_again takes (message "end") refl refl populated
      row refl (omega arith)
