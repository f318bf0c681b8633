-- ===== src/Tests/Calls.antt =====
-- Calls of RCS-2000, paths and signatures on concrete inputs.
use robo_control.Prelude.{
  ◌≤◌, ◌<◌, ◌≡◌, ◌↔◌, refl, Option, some, none, true, false, List, [], arith, String, length,
}
use robo_control.Text.{upper}
use robo_control.Json.{Json, obj, Fields, find}
use robo_control.Errors.{ok, raise, Result}
use robo_control.World.{Env, Outgoing, response}
use robo_control.Client.Request.{do_request}
use robo_control.Client.Retry.{request, is_retryable, after_retries}
use robo_control.Client.Retry.Bounds.{request_bounds, request-final}
use robo_control.Client.Response.{parse_response}
use robo_control.Client.Response.Laws.{parse_response_iff, IsAccepted}
use robo_control.Signing.{canonical_string}
use robo_control.Signing.Canonical.{IsLine, canonical_string_inj}
use robo_control.Tests

abbrev get : String → Option String
get _ = none

abbrev failing : Env
failing = record Tests.env { http = λ _ _. response 503 "" }

request_bounds_example :
    (1 ≤ length (request failing "GET" "/rcs/x" none true [] get []).1)
    × (length (request failing "GET" "/rcs/x" none true [] get []).1 ≤ 3)
request_bounds_example = request_bounds failing "GET" "/rcs/x" none get true [] []

abbrev exhausted : Result Json
exhausted = (request failing "GET" "/rcs/x" none true [] get []).0

request-final_example :
    is_retryable (
      after_retries "GET" "/rcs/x" (robo_control.Errors.retryable_upstream "RCS 5xx 503 on /rcs/x"))
    ≡ false
unfolding request parse_response
request-final_example =
    request-final failing "GET" "/rcs/x" none get [] []
      (after_retries "GET" "/rcs/x"
        (robo_control.Errors.retryable_upstream "RCS 5xx 503 on /rcs/x"))
      refl

abbrev attempt : (String → Option String) → List Outgoing → Result Json × List Outgoing
attempt = do_request Tests.env "GET" "/rcs/x" none [] true

parse_response_iff_example : (parse_response Tests.env "/rcs/x" 200 "REPLY" ≡ ok Tests.reply) ↔ (
    (fs : Fields) × (Tests.env.loads "REPLY" ≡ some (obj fs))
    × (Tests.reply ≡ obj fs)
    × (200 < 400)
    × IsAccepted (find "code" fs))
parse_response_iff_example = parse_response_iff Tests.env "/rcs/x" 200 "REPLY" Tests.reply

IsLine-1 : IsLine "1"
IsLine-1 = (λ h. absurd (omega (arith, h)), tt)

IsLine-n : IsLine "n"
IsLine-n = (λ h. absurd (omega (arith, h)), tt)

IsLine-post : IsLine (upper "post")
unfolding upper
IsLine-post = (
  λ h. absurd (omega (arith, h)),
  (
    λ h. absurd (omega (arith, h)),
    (λ h. absurd (omega (arith, h)), (λ h. absurd (omega (arith, h)), tt)),
  ),
)

IsLine-x : IsLine "/x"
IsLine-x = (λ h. absurd (omega (arith, h)), (λ h. absurd (omega (arith, h)), tt))

canonical_string_inj_example :
    (◌≡◌ {A = String} "1" "1")
    × (◌≡◌ {A = String} "n" "n")
    × (upper "post" ≡ upper "POST")
    × (◌≡◌ {A = String} "/x" "/x")
    × (Tests.env.md5 "body" ≡ Tests.env.md5 "body")
unfolding canonical_string upper
canonical_string_inj_example =
    canonical_string_inj Tests.env "post" "/x" "body" "n" "1" "POST" "/x" "body" "n" "1"
      (IsLine-1, IsLine-n, IsLine-post, IsLine-x) (IsLine-1, IsLine-n, IsLine-post, IsLine-x) refl
