-- ===== src/Security.antt =====
-- app/core/security.py: the API key and the webhook signature. The HMAC is a parameter;
-- `hmac.compare_digest` of two ASCII texts is equality of texts.
use robo_control.Prelude.{
  String, true, false, ◌||◌, not, ◌≡◌, ◌↔◌, refl, Option, none, some, str_eq, eq_iff, arith,
  if◌then◌else◌,
}
use robo_control.Text.{is_empty, strip, is_ascii}
use robo_control.Errors.{
  Exn, app, builtin, type_error, Result, ok, raise, new_error, authentication_error,
  webhook_signature_error,
}
use robo_control.World.{Env}

module _ (env : Env) where
  -- `require_api_key`
  unfoldable pub require_api_key : Option String → Result String
  unfolding new_error
  require_api_key none = raise (app (new_error authentication_error none none (some 401) none))
  require_api_key (some api_key) =
      if is_empty api_key || not (str_eq api_key env.settings.api_key)
      then raise (app (new_error authentication_error none none (some 401) none))
      else ok api_key

  -- `compute_webhook_signature`
  unfoldable pub compute_webhook_signature : String → String
  compute_webhook_signature body = env.hmac_sha256 env.settings.webhook_secret body

  -- `verify_webhook_signature`; the digest is in hexadecimal, and `compare_digest` raises a TypeError
  -- for a text that is not ASCII.
  unfoldable pub verify_webhook_signature : String → Option String → Result (Unit {0})
  unfolding new_error strip is_ascii compute_webhook_signature
  verify_webhook_signature body none = raise (
      app (
        new_error webhook_signature_error (some "Missing webhook signature header") none none none))
  verify_webhook_signature body (some signature) =
      if is_empty signature
      then raise (
          app (
            new_error webhook_signature_error (some "Missing webhook signature header") none none
              none))
      else if not (is_ascii (strip signature))
      then raise (builtin type_error "comparing strings with non-ASCII characters is not supported")
      else if not (str_eq (compute_webhook_signature body) (strip signature))
      then raise (
          app
            (new_error webhook_signature_error (some "Webhook signature mismatch") none none none))
      else ok tt

  -- `webhook_signature_dependency`
  unfoldable pub webhook_signature_dependency : Option String → Result String
  unfolding new_error
  webhook_signature_dependency none = raise (
      app (
        new_error webhook_signature_error (some "Missing webhook signature header") none none none))
  webhook_signature_dependency (some signature) =
      if is_empty signature
      then raise (
          app (
            new_error webhook_signature_error (some "Missing webhook signature header") none none
              none))
      else ok signature

  -- What the dependency refuses, the verification refuses in the same words, whatever the body.
  pub webhook_signature_dependency-refuses :
      (body : String) (given : Option String) (e : Exn)
      → webhook_signature_dependency given ≡ raise e
      → verify_webhook_signature body given ≡ raise e
  unfolding webhook_signature_dependency verify_webhook_signature
  webhook_signature_dependency-refuses body none e h = ground arith
  webhook_signature_dependency-refuses body (some signature) e h = ground arith

  -- A call is let in exactly with the configured, non-empty API key.
  pub require_api_key_iff :
      (given : Option String) (key : String)
      → (require_api_key given ≡ ok key)
        ↔ ((given ≡ some key) × (key ≡ env.settings.api_key) × (is_empty key ≡ false))
  unfolding require_api_key
  require_api_key_iff none key = (λ h. ground arith, λ h. ground arith)
  require_api_key_iff (some api_key) key = (
    λ h. ground (arith, eq_iff api_key env.settings.api_key),
    λ h. ground (arith, eq_iff api_key env.settings.api_key),
  )

  -- A body is accepted exactly if a non-empty signature comes with it that, stripped, is ASCII and the HMAC of
  -- the body under the webhook secret.
  pub verify_webhook_signature_iff :
      (body : String) (given : Option String)
      → (verify_webhook_signature body given ≡ ok tt) ↔ (
          (signature : String) × (given ≡ some signature)
          × (is_empty signature ≡ false)
          × (is_ascii (strip signature) ≡ true)
          × (strip signature ≡ env.hmac_sha256 env.settings.webhook_secret body))
  unfolding verify_webhook_signature compute_webhook_signature
  verify_webhook_signature_iff body none = (λ h. ground arith, λ h. ground arith)
  verify_webhook_signature_iff body (some s) = (
    λ h. (
      s,
      refl,
      ground arith,
      ground arith,
      ground (arith, eq_iff (env.hmac_sha256 env.settings.webhook_secret body) (strip s)),
    ),
    λ (signature, same, filled, ascii, matches).
        ground (arith, eq_iff (env.hmac_sha256 env.settings.webhook_secret body) (strip s)),
  )
