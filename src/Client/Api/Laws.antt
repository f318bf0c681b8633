-- ===== src/Client/Api/Laws.antt =====
-- What the public calls send, and how a submission that RCS-2000 answers with 5xx ends.
use robo_control.Prelude.{
  ℕ, ◌+◌, ◌≤◌, String, ◌≡◌, false, Option, some, List, [], ◌∷◌, arith, length, le→leb,
}
use robo_control.Text.{concat}
use robo_control.Json.{Json}
use robo_control.Json.Print.{print_nat}
use robo_control.Errors.{retryable_upstream, raise}
use robo_control.World.{Env, Outgoing, response}
use robo_control.RcsPath.{rcs_path_prefix, rcs_task_submit_path}
use robo_control.Client.Response.{parse_response}
use robo_control.Client.Request.{interpret, signed_outgoing}
use robo_control.Client.Request.Attempt.{address, do_request_lem}
use robo_control.Client.Retry.{request}
use robo_control.Client.Retry.Bounds.{request_bounds}
use robo_control.Client.Api.{submit_task}

abbrev pub submit_path : String
submit_path = concat (rcs_path_prefix ∷ rcs_task_submit_path ∷ [])

module _ (env : Env) (payload : Json) (get : String → Option String) (sent : List Outgoing) where
  -- A submission is one request, never repeated.
  pub submit_task_sends : length (submit_task env payload get sent).1 ≡ length sent + 1
  unfolding submit_task
  submit_task_sends =
      let (low, high) = request_bounds env "POST" submit_path (some payload) get false [] sent in
      omega arith

  -- The one request that a submission sends.
  abbrev pub submission : Outgoing
  submission =
      signed_outgoing env "POST" submit_path (some payload) []
        (address env "POST" submit_path (some payload) get) sent

  pub submit_task_lem :
      submit_task env payload get sent
      ≡ (interpret env false "POST" submit_path (env.http submission sent), submission ∷ sent)
  unfolding submit_task request
  submit_task_lem = do_request_lem env "POST" submit_path (some payload) [] false get sent

  pub submit_task-5xx :
      (status : ℕ) (text : String)
      → env.http submission sent ≡ response status text
      → 500 ≤ status
      → submit_task env payload get sent ≡ (
        raise (
            retryable_upstream
              (concat ("RCS 5xx " ∷ print_nat status ∷ " on " ∷ submit_path ∷ []))),
        submission ∷ sent,
      )
  submit_task-5xx status text e h =
      rw (submit_task_lem, e) (unfold interpret parse_response in rw (le→leb 500 status h))
