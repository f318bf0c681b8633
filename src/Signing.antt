-- ===== src/Signing.antt =====
-- app/utils/signing.py: the HMAC-SHA256 strategy. The hash functions, the clock and the random
-- values are parameters.
pub mod Canonical
use mathlib.Core.List
use robo_control.Prelude.{String, Option, none, some, List, [], ◌∷◌}
use robo_control.Text.{concat, or_text, upper}
use robo_control.World.{Settings, Outgoing, Draw, Env}

pub record SignedRequest : Type 0 where
  pub headers : List (String × String)
  pub sign : String
  pub nonce : String
  pub timestamp : String
  pub request_id : String
  pub trace_id : String

-- `HmacSha256Strategy`, with its keys
pub record HmacSha256Strategy : Type 0 where
  pub app_key : String
  pub app_secret : String
  pub api_version : String

-- `app_secret if app_secret is not None else ...`
abbrev or_secret : Option String → String → String
or_secret none default = default
or_secret (some secret) default = secret

-- `HmacSha256Strategy.__init__`
abbrev pub new_strategy :
    Settings → Option String → Option String → Option String → HmacSha256Strategy
new_strategy settings app_key app_secret api_version = record {
  app_key = or_text app_key settings.rcs_app_key;
  app_secret = or_secret app_secret settings.rcs_app_secret;
  api_version = or_text api_version settings.rcs_api_version;
}

-- `get_signing_strategy`
abbrev pub get_signing_strategy : Settings → HmacSha256Strategy
get_signing_strategy settings = new_strategy settings none none none

module _ (env : Env) where
  -- The strategy of the client.
  abbrev strategy : HmacSha256Strategy
  strategy = get_signing_strategy env.settings

  -- `build_canonical_string`
  unfoldable pub canonical_string : String → String → String → String → String → String
  canonical_string method path body nonce timestamp =
      concat
        (timestamp ∷ "\n" ∷ nonce ∷ "\n" ∷ upper method ∷ "\n" ∷ path ∷ "\n" ∷ env.md5 body ∷ [])

  -- `_build_sign`
  unfoldable pub build_sign : String → String → String → String → String → String
  build_sign method path body nonce timestamp =
      env.hmac_sha256 strategy.app_secret (canonical_string method path body nonce timestamp)

  -- `sign`, with the clock and the random values that this request draws
  unfoldable pub sign : Draw → String → String → String → SignedRequest
  sign d method path body = record {
    headers =
        (
          "Authorization",
          concat (
              "nonce=\"" ∷ d.nonce ∷ "\", method=\"HMAC-SHA256\", timestamp=\"" ∷ d.timestamp ∷ "\""
              ∷ []),
        )
        ∷ ("X-lr-appkey", strategy.app_key)
        ∷ ("X-lr-version", strategy.api_version)
        ∷ ("X-lr-request-id", d.request_id)
        ∷ ("X-lr-trace-id", d.trace_id)
        ∷ ("Content-Type", "application/json;charset=UTF-8")
        ∷ [];
    sign = build_sign method path body d.nonce d.timestamp;
    nonce = d.nonce;
    timestamp = d.timestamp;
    request_id = d.request_id;
    trace_id = d.trace_id;
  }
