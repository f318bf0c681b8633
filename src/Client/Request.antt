-- ===== src/Client/Request.antt =====
-- `_do_request` and `_resolve_full_url`: one attempt of a request.
pub mod Attempt
use mathlib.Core.List
use robo_control.Prelude.{
  ℕ, String, Bool, true, false, ◌&&◌, not, Option, none, some, List, [], ◌∷◌, ◌++◌, if◌then◌else◌,
}
use robo_control.Text.{concat, is_empty, rstrip_slash}
use robo_control.Json.{Json, str, obj, Fields, object}
use robo_control.Errors.{
  Exn, app, network, http_error, Result, ok, raise, NetworkError, new_error, rcs_client_error,
  exn_text,
}
use robo_control.Redis.Keys.{sysconfig_key}
use robo_control.World.{Env, Outgoing, HttpOutcome, response, raises}
use robo_control.Signing.{SignedRequest, sign}
use robo_control.Client.Wire.{Wire, lift, read, history, send, ◌>>=◌}
use robo_control.Client.Response.{parse_response}

abbrev pub is_filled : Option String → Bool
is_filled none = false
is_filled (some s) = not (is_empty s)

abbrev pub text_of : Option String → String
text_of none = ""
text_of (some s) = s

abbrev pub path_details : String → String → Json
path_details path method = obj (object (("path", str path) ∷ ("method", str method) ∷ []))

module _ (env : Env) where
  -- The address for the two settings that Redis holds, if it does.
  unfoldable pub full_url : Option String → Option String → String → String
  unfolding rstrip_slash
  full_url ip port path =
      if is_filled ip && is_filled port
      then concat ("http://" ∷ text_of ip ∷ ":" ∷ text_of port ∷ path ∷ [])
      else concat (rstrip_slash env.settings.rcs_base_url ∷ path ∷ [])

  -- `_resolve_full_url`
  unfoldable pub resolve_full_url : String → Wire String
  unfolding full_url sysconfig_key
  resolve_full_url path = do
    ip ← read (sysconfig_key "rcs_ip")
    port ← read (sysconfig_key "rcs_port")
    lift (ok (full_url ip port path))

  -- `json.dumps(body, separators=(",", ":")) if body else b""`
  unfoldable pub body_text : Option Json → String
  body_text (some (obj (Fields.field k v fs))) = env.dumps (obj (Fields.field k v fs))
  body_text _ = ""

  -- `body_bytes if body_bytes else None`
  abbrev pub content_of : String → Option String
  content_of body = if is_empty body then none else some body

  abbrev network_failure : String → String → String → Exn
  network_failure path method text = app (
      new_error rcs_client_error (some (concat ("RCS network error: " ∷ text ∷ [])))
        (some "RCS_NETWORK_ERROR") none (some (path_details path method)))

  -- The two `except` clauses round the request, and `_parse_response` behind them.
  unfoldable pub interpret : Bool → String → String → HttpOutcome → Result Json
  unfolding new_error
  interpret preserve_retryable method path (response status text) =
      parse_response env path status text
  interpret true method path (raises (network kind text)) = raise (network kind text)
  interpret false method path (raises (network kind text)) =
      raise (network_failure path method text)
  interpret preserve_retryable method path (raises (http_error text)) =
      raise (
        app
          (new_error rcs_client_error (some (concat ("HTTP error: " ∷ text ∷ []))) none none none))
  interpret preserve_retryable method path (raises e) = raise e

  -- The request of `_do_request`, behind what was sent before.
  unfoldable pub signed_outgoing :
      String → String → Option Json → List (String × String) → String → List Outgoing → Outgoing
  unfolding sign body_text
  signed_outgoing method path body params url sent =
      let signed = sign env (env.draw sent) method path (body_text body) in
      record {
        method = method;
        url = url;
        content = content_of (body_text body);
        params = params ++ ("sign", signed.sign) ∷ [];
        headers = signed.headers;
      }

  -- `_do_request`
  unfoldable pub do_request :
      String → String → Option Json → List (String × String) → Bool → Wire Json
  unfolding resolve_full_url signed_outgoing interpret
  do_request method path body params preserve_retryable = do
    sent ← history
    url ← resolve_full_url path
    outcome ← send env (signed_outgoing method path body params url sent)
    lift (interpret preserve_retryable method path outcome)

  -- The headers of `plain_request`.
  abbrev plain_headers : List Outgoing → List (String × String)
  plain_headers sent =
      ("Content-Type", "application/json")
      ∷ ("X-LR-REQUEST-ID", (env.draw sent).minute_stamp)
      ∷ ("Accept", "*/*")
      ∷ ("Accept-Encoding", "gzip, deflate, br")
      ∷ ("Connection", "keep-alive")
      ∷ ("User-Agent", "PostmanRuntime/7.51.1")
      ∷ []

  unfoldable pub plain_outgoing : String → String → Option Json → String → List Outgoing → Outgoing
  unfolding body_text
  plain_outgoing method path body url sent = record {
    method = method;
    url = url;
    content = content_of (body_text body);
    params = [];
    headers = plain_headers sent;
  }

  -- `plain_request` once its method is known to be GET or POST
  unfoldable pub do_plain_request : String → String → Option Json → Wire Json
  unfolding resolve_full_url plain_outgoing interpret
  do_plain_request method path body = do
    sent ← history
    url ← resolve_full_url path
    outcome ← send env (plain_outgoing method path body url sent)
    lift (interpret false method path outcome)
