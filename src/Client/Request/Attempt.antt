-- ===== src/Client/Request/Attempt.antt =====
-- One attempt puts one request on the wire, and its outcome is what comes back for it.
use robo_control.Prelude.{String, Bool, false, ◌≡◌, refl, Option, List, ◌∷◌}
use robo_control.Json.{Json}
use robo_control.World.{Env, Outgoing}
use robo_control.Redis.Keys.{sysconfig_key}
use robo_control.Client.Request.{
  full_url, interpret, signed_outgoing, plain_outgoing, do_request, do_plain_request,
}

module _ (env : Env) (method path : String) (body : Option Json) where
  -- The address that the connection settings give.
  abbrev pub address : (String → Option String) → String
  address get = full_url env (get (sysconfig_key "rcs_ip")) (get (sysconfig_key "rcs_port")) path

  pub do_request_lem :
      (params : List (String × String)) (preserve : Bool) (get : String → Option String)
      (sent : List Outgoing)
      → let o = signed_outgoing env method path body params (address get) sent in
        do_request env method path body params preserve get sent
        ≡ (interpret env preserve method path (env.http o sent), o ∷ sent)
  unfolding do_request
  do_request_lem params preserve get sent = refl

  pub do_plain_request_lem :
      (get : String → Option String) (sent : List Outgoing)
      → let o = plain_outgoing env method path body (address get) sent in
        do_plain_request env method path body get sent
        ≡ (interpret env false method path (env.http o sent), o ∷ sent)
  unfolding do_plain_request
  do_plain_request_lem get sent = refl
