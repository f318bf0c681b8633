-- ===== src/RcsSubmit/Sends.antt =====
-- Which requests the calls of the client add to those that were sent.
use robo_control.Prelude.{
  str_eq, ℕ, zero, suc, String, ◌≡◌, refl, sym, ap, ◌∙◌, Bool, true, false, Option, none, List, [],
  ◌∷◌, ◌++◌, All, if◌then◌else◌, if-cases,
}
use robo_control.Text.{upper}
use robo_control.Json.{Json}
use robo_control.Errors.{Exn, Result, ok, raise}
use robo_control.Redis.Keys.{sysconfig_key}
use robo_control.World.{Env, Outgoing}
use robo_control.Client.Wire.{Wire, lift}
use robo_control.Client.Request.{
  full_url, signed_outgoing, plain_outgoing, do_request, do_plain_request,
}
use robo_control.Client.Request.Attempt.{do_request_lem, do_plain_request_lem}
use robo_control.Client.Retry.{is_retryable, retrying, request, more_attempts}
use robo_control.Client.Api.{is_get_or_post, unsupported, signed_request, plain_request}
use robo_control.RcsSubmit.Body.{RcsRawSubmitRequest, RcsRawSubmitResult, method_text, sent_body}
use robo_control.RcsSubmit.{send_raw}

append_assoc : {A : Type 0} (xs ys zs : List A) → (xs ++ ys) ++ zs ≡ xs ++ (ys ++ zs)
append_assoc [] ys zs = refl
append_assoc (x ∷ xs) ys zs = ap (λ r. x ∷ r) (append_assoc xs ys zs)

All-append : {A : Type 0} (P : A → Type 0) (xs ys : List A) → All P xs → All P ys → All P (xs ++ ys)
All-append P [] ys h k = k
All-append P (x ∷ xs) ys (h, hs) k = (h, All-append P xs ys hs k)

module _ (P : Outgoing → Type 0) (get : String → Option String) where
  -- Requests were added, and each is as `P` says.
  abbrev pub Adds : List Outgoing → List Outgoing → Type 0
  Adds sent sent' = (added : List Outgoing) × (sent' ≡ added ++ sent) × All P added

  abbrev pub AddsOnly : {A : Type 0} → Wire A → Type 0
  AddsOnly m = (sent : List Outgoing) → Adds sent (m get sent).1

  Adds-trans : {r s t : List Outgoing} → Adds r s → Adds s t → Adds r t
  Adds-trans {r} (xs, e, h) (ys, f, k) =
      (ys ++ xs, f ∙ ap (λ l. ys ++ l) e ∙ sym (append_assoc ys xs r), All-append P ys xs k h)

  retrying-AddsOnly : {A : Type 0} (m : Wire A) (more : ℕ) → AddsOnly m → AddsOnly (retrying more m)
  unfolding retrying
  retrying-AddsOnly m zero h sent = h sent
  retrying-AddsOnly {A} m (suc more) h sent =
      go (retrying-AddsOnly m more h (m get sent).1) (m get sent).0
    where
      choose : Bool → Exn → Result A × List Outgoing
      choose b e = elim b [
        | true ↦ retrying more m get (m get sent).1
        | false ↦ (raise e, (m get sent).1)
      ]

      next : Result A → Result A × List Outgoing
      next r = elim r [ ok a ↦ (ok a, (m get sent).1) | raise e ↦ choose (is_retryable e) e ]

      Rest : Type 0
      Rest = Adds (m get sent).1 (retrying more m get (m get sent).1).1

      go : Rest → (r : Result A) → Adds sent (next r).1
      go rest (ok a) = h sent
      go rest (raise x) = elim (is_retryable x) as (λ b. Adds sent (choose b x).1) [
        | true ↦ Adds-trans (h sent) rest
        | false ↦ h sent
      ]

module _ (env : Env) (get : String → Option String) where
  -- The address of a path under the connection settings that Redis holds, or else the configured one.
  abbrev pub url_at : String → String
  url_at path = full_url env (get (sysconfig_key "rcs_ip")) (get (sysconfig_key "rcs_port")) path

  abbrev pub GoesTo : String → Outgoing → Type 0
  GoesTo path o = o.url ≡ url_at path

  module _ (method path : String) (body : Option Json) where
    do_request-AddsOnly :
        (params : List (String × String)) (preserve : Bool)
        → AddsOnly (GoesTo path) get (do_request env method path body params preserve)
    do_request-AddsOnly params preserve sent = (
      _ ∷ [],
      ap (λ r. r.1) (do_request_lem env method path body params preserve get sent),
      (unfold signed_outgoing in refl, tt),
    )

    do_plain_request-AddsOnly : AddsOnly (GoesTo path) get (do_plain_request env method path body)
    do_plain_request-AddsOnly sent = (
      _ ∷ [],
      ap (λ r. r.1) (do_plain_request_lem env method path body get sent),
      (unfold plain_outgoing in refl, tt),
    )

    request-AddsOnly :
        (idempotent : Bool) (params : List (String × String))
        → AddsOnly (GoesTo path) get (request env method path body idempotent params)
    unfolding request
    request-AddsOnly true params =
        retrying-AddsOnly (GoesTo path) get (do_request env method path body params true)
          more_attempts (do_request-AddsOnly params true)
    request-AddsOnly false params = do_request-AddsOnly params false

  module _ (method path : String) (body : Option Json) where
    signed_request-AddsOnly : AddsOnly (GoesTo path) get (signed_request env method path body)
    unfolding signed_request
    signed_request-AddsOnly sent =
        if-cases (λ (m : Wire Json). Adds (GoesTo path) get sent (m get sent).1)
          (is_get_or_post (upper method))
          (request env (upper method) path (if str_eq (upper method) "POST" then body else none)
            (str_eq (upper method) "GET") [])
          (lift (raise (unsupported method)))
          (λ _.
            request-AddsOnly (upper method) path
              (if str_eq (upper method) "POST" then body else none) (str_eq (upper method) "GET") []
              sent)
          (λ _. ([], refl, tt))

    plain_request-AddsOnly : AddsOnly (GoesTo path) get (plain_request env method path body)
    unfolding plain_request
    plain_request-AddsOnly sent =
        if-cases (λ (m : Wire Json). Adds (GoesTo path) get sent (m get sent).1)
          (is_get_or_post (upper method)) (do_plain_request env (upper method) path body)
          (lift (raise (unsupported method)))
          (λ _. do_plain_request-AddsOnly (upper method) path body sent) (λ _. ([], refl, tt))

  pub send_raw-AddsOnly :
      (model_validate : Json → Result RcsRawSubmitResult) (request : RcsRawSubmitRequest)
      (path : String)
      → AddsOnly (GoesTo path) get (send_raw env model_validate request path)
  unfolding send_raw
  send_raw-AddsOnly model_validate request path sent =
      if-cases (λ (m : Wire Json). Adds (GoesTo path) get sent (m get sent).1) request.send_signed
        (signed_request env (method_text request.method) path (sent_body request))
        (plain_request env (method_text request.method) path (sent_body request))
        (λ _. signed_request-AddsOnly (method_text request.method) path (sent_body request) sent)
        (λ _. plain_request-AddsOnly (method_text request.method) path (sent_body request) sent)
