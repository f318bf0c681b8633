-- ===== src/Client/Retry.antt =====
-- `_request`: retries of idempotent requests.
pub mod Bounds
use mathlib.Core.List
use robo_control.Prelude.{
  ℕ, zero, suc, String, Bool, true, false, Option, none, some, List, [], ◌∷◌, if◌then◌else◌,
}
use robo_control.Text.{concat}
use robo_control.Json.{Json}
use robo_control.Errors.{
  Exn, app, network, retryable_upstream, Result, ok, raise, new_error, rcs_client_error,
}
use robo_control.World.{Env, Outgoing}
use robo_control.Client.Wire.{Wire}
use robo_control.Client.Request.{do_request, path_details}

-- `retry_if_exception_type((_RetryableUpstreamError, *_RETRYABLE_HTTP_EXC))`
abbrev pub is_retryable : Exn → Bool
is_retryable (retryable_upstream _) = true
is_retryable (network _ _) = true
is_retryable _ = false

-- `AsyncRetrying` with `reraise=True`: the attempt, and up to `more` attempts after it.
unfoldable pub retrying : {A : Type 0} → ℕ → Wire A → Wire A
retrying zero m get sent = m get sent
retrying (suc more) m get sent =
    let (r, sent') = m get sent in
    elim r [
      | ok a ↦ (ok a, sent')
      | raise e ↦ elim (is_retryable e) [
        | true ↦ retrying more m get sent'
        | false ↦ (raise e, sent')
      ]
    ]

-- `stop_after_attempt(3)`: attempts after the first
abbrev pub more_attempts : ℕ
more_attempts = 2

-- What the exhausted budget raises.
unfoldable pub after_retries : String → String → Exn → Exn
unfolding new_error
after_retries method path (network kind text) = app (
    new_error rcs_client_error (some (concat ("RCS network error after retries: " ∷ text ∷ [])))
      (some "RCS_NETWORK_ERROR") none (some (path_details path method)))
after_retries method path (retryable_upstream text) = app (
    new_error rcs_client_error (some text) (some "RCS_UPSTREAM_5XX") none
      (some (path_details path method)))
after_retries method path e = e

abbrev pub translate : {A : Type 0} → (Exn → Exn) → Result A → Result A
translate f (ok a) = ok a
translate f (raise e) = raise (f e)

-- `_request`
unfoldable pub request :
    Env → String → String → Option Json → Bool → List (String × String) → Wire Json
unfolding retrying do_request after_retries
request env method path body true params get sent =
    let (r, sent') =
      retrying more_attempts (do_request env method path body params true) get sent in
    (translate (after_retries method path) r, sent')
request env method path body false params get sent =
    do_request env method path body params false get sent
