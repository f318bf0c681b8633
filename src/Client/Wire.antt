-- ===== src/Client/Wire.antt =====
-- A call of the client: it may read Redis, and it adds to the requests that were sent.
use robo_control.Prelude.{String, Option, List, ◌∷◌}
use robo_control.Errors.{Result, ok, raise}
use robo_control.World.{App, Env, Outgoing, HttpOutcome}
use robo_control.Redis

abbrev pub Wire : Type 0 → Type 0
Wire A = (String → Option String) → List Outgoing → Result A × List Outgoing

module _ {A : Type 0} where
  abbrev pub lift : Result A → Wire A
  lift r read sent = (r, sent)

  -- A call of the client in a service.
  abbrev pub call : Wire A → App A
  call m w =
      let (r, sent) = m (λ key. Redis.get w.now key w.redis) w.sent in (r, record w { sent = sent })

abbrev pub read : String → Wire (Option String)
read key get sent = (ok (get key), sent)

abbrev pub history : Wire (List Outgoing)
history get sent = (ok sent, sent)

-- `self._client.request(…)`
abbrev pub send : Env → Outgoing → Wire HttpOutcome
send env o get sent = (ok (env.http o sent), o ∷ sent)

infixl 5 ◌>>=◌
abbrev pub ◌>>=◌ : {A B : Type 0} → Wire A → (A → Wire B) → Wire B
◌>>=◌ m f get sent =
    let (r, sent') = m get sent in elim r [ ok a ↦ f a get sent' | raise e ↦ (raise e, sent') ]
