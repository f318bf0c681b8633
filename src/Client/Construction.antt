-- ===== src/Client/Construction.antt =====
-- How a client of app/clients/rcs2000_client.py is made and closed, and what it logs of a body.
use robo_control.Prelude.{
  ℕ, zero, suc, ◌≤◌, ◌≡◌, ◌⊎◌, inl, inr, refl, String, Bool, true, false, ◌&&◌, not, Option, none,
  some, [], ◌∷◌, arith, leb, leb→le, if◌then◌else◌, Bool-cases, is_none,
}
use robo_control.Text.{or_text, rstrip_slash, text_length, take}
use robo_control.Json.{Decimal, boolean, str, Fields, object, is_zero}
use robo_control.World.{Settings}
use robo_control.Signing.{HmacSha256Strategy, get_signing_strategy}

-- The `httpx.AsyncClient` of a client, as far as the client sets and reads it.
pub record HttpClient : Type 0 where
  pub base_url : String
  pub timeout : Decimal
  pub max_connections : ℕ
  pub max_keepalive_connections : ℕ
  pub is_closed : Bool

pub record Rcs2000Client : Type 0 where
  pub signer : HmacSha256Strategy
  pub base_url : String
  pub timeout : Decimal
  pub client_owned : Bool
  pub client : HttpClient

abbrev or_strategy : Option HmacSha256Strategy → HmacSha256Strategy → HmacSha256Strategy
or_strategy none default = default
or_strategy (some s) default = s

-- `timeout or settings.RCS_TIMEOUT`
abbrev or_timeout : Option Decimal → Decimal → Decimal
or_timeout none default = default
or_timeout (some t) default = if is_zero t.mantissa then default else t

abbrev or_client : Option HttpClient → HttpClient → HttpClient
or_client none default = default
or_client (some c) default = c

-- `RCS2000Client.__init__`; `rcs_timeout` is the setting.
unfoldable pub new_client :
    Settings
    → Decimal
    → Option HttpClient
    → Option HmacSha256Strategy
    → Option String
    → Option Decimal
    → Rcs2000Client
new_client settings rcs_timeout client signing_strategy base_url timeout =
    let url = rstrip_slash (or_text base_url settings.rcs_base_url) in
    let limit = or_timeout timeout rcs_timeout in
    record {
      signer = or_strategy signing_strategy (get_signing_strategy settings);
      base_url = url;
      timeout = limit;
      client_owned = is_none client;
      client = or_client client (record {
        base_url = url;
        timeout = limit;
        max_connections = 100;
        max_keepalive_connections = 20;
        is_closed = false;
      });
    }

-- `aclose`
unfoldable pub close_client : Rcs2000Client → Rcs2000Client
close_client c =
    if c.client_owned && not c.client.is_closed
    then record c { client = record c.client { is_closed = true } }
    else c

-- `__aexit__`, whatever the block raised
unfoldable pub leave_client : Rcs2000Client → Rcs2000Client
leave_client c = close_client c

-- After a block, a client that was made for it is closed, and one that was given is as it was.
pub leave-new_client :
    (settings : Settings) (rcs_timeout : Decimal) (given : Option HttpClient)
    (signer : Option HmacSha256Strategy) (base_url : Option String) (timeout : Option Decimal)
    → let left = leave_client (new_client settings rcs_timeout given signer base_url timeout) in
      left.client.is_closed ≡ (elim given [ none ↦ true | some c ↦ c.is_closed ])
unfolding leave_client close_client new_client
leave-new_client settings rcs_timeout none signer base_url timeout = refl
leave-new_client settings rcs_timeout (some c) signer base_url timeout = refl

-- `request_body_for_log`; `dumps` is `json.dumps` with `ensure_ascii=False`.
unfoldable pub request_body_for_log : (Fields → String) → Option Fields → Option Fields
request_body_for_log dumps none = none
request_body_for_log dumps (some body) =
    if leb (text_length (dumps body)) 1200
    then some body
    else some
        (object (("_truncated", boolean true) ∷ ("preview", str (take 1200 (dumps body))) ∷ []))

text_length-take : (n : ℕ) (s : String) → text_length (take n s) ≤ n
unfolding text_length take
text_length-take zero s = omega arith
text_length-take (suc n) String.[] = omega arith
text_length-take (suc n) (String.◌∷◌ c s) = let rest = text_length-take n s in omega arith

-- What is logged of a body is the body, with a text of at most 1200 characters, or a preview of as
-- many.
pub request_body_for_log-cases :
    (dumps : Fields → String) (body : Fields)
    → ((request_body_for_log dumps (some body) ≡ some body) × (text_length (dumps body) ≤ 1200))
      ⊎ ((preview : String) × (request_body_for_log dumps (some body)
            ≡ some (object (("_truncated", boolean true) ∷ ("preview", str preview) ∷ [])))
          × (text_length preview ≤ 1200))
unfolding request_body_for_log
request_body_for_log-cases dumps body = elim (Bool-cases (leb (text_length (dumps body)) 1200)) [
  | inl e ↦ inl (rw e refl, leb→le _ _ e)
  | inr e ↦ inr (take 1200 (dumps body), rw e refl, text_length-take 1200 (dumps body))
]
