-- ===== src/World/Rules.antt =====
-- Rules for calls: one for each way to build one, with the equation of what went before at hand.
use robo_control.Prelude.{◌≡◌, refl, List, ap}
use robo_control.Errors.{Exn, Result, ok, raise}
use robo_control.Redis
use robo_control.World.{World, App, Outgoing, lift, ◌>>=◌}
use robo_control.World.Session.{or_rollback}
use robo_control.Client.Wire.{Wire, call}

module _ {ℓ} {A : Type 0} (P : Result A × World → Type ℓ) where
  -- A call that returns or raises.
  pub result_rule :
      (m : App A) (w : World)
      → ((a : A) (w' : World) → m w ≡ (ok a, w') → P (ok a, w'))
      → ((e : Exn) (w' : World) → m w ≡ (raise e, w') → P (raise e, w'))
      → P (m w)
  result_rule m w good bad = go (m w).0 refl
    where
      go : (r : Result A) → (m w).0 ≡ r → P (r, (m w).1)
      go (ok a) e = good a (m w).1 (λ i. (e i, (m w).1))
      go (raise x) e = bad x (m w).1 (λ i. (e i, (m w).1))

  pub bind_rule :
      {B : Type 0} (m : App B) (f : B → App A) (w : World)
      → ((b : B) (w' : World) → m w ≡ (ok b, w') → P (f b w'))
      → ((e : Exn) (w' : World) → m w ≡ (raise e, w') → P (raise e, w'))
      → P ((m >>= f) w)
  bind_rule {B} m f w good bad = go (m w).0 refl
    where
      go :
          (r : Result B)
          → (m w).0 ≡ r
          → P (elim r [ ok b ↦ f b (m w).1 | raise e ↦ (raise e, (m w).1) ])
      go (ok b) e = good b (m w).1 (λ i. (e i, (m w).1))
      go (raise x) e = bad x (m w).1 (λ i. (e i, (m w).1))

  pub or_rollback_rule :
      (m : App A) (w : World)
      → ((a : A) (w' : World) → m w ≡ (ok a, w') → P (ok a, w'))
      → ((e : Exn) (w' : World) → m w ≡ (raise e, w') → P (raise e, record w' { tx = w'.db }))
      → P (or_rollback m w)
  or_rollback_rule m w good bad = go (m w).0 refl
    where
      go :
          (r : Result A)
          → (m w).0 ≡ r
          → P (elim r [
            | ok a ↦ (ok a, (m w).1)
            | raise e ↦ (raise e, record (m w).1 { tx = (m w).1.db })
          ])
      go (ok a) e = good a (m w).1 (λ i. (e i, (m w).1))
      go (raise x) e = bad x (m w).1 (λ i. (e i, (m w).1))

  -- A client call in front changes only what was sent.
  pub call_rule :
      {B : Type 0} (m : Wire B) (f : B → App A) (w : World)
      → ((b : B) (sent : List Outgoing)
          → m (λ key. Redis.get w.now key w.redis) w.sent ≡ (ok b, sent)
          → P (f b (record w { sent = sent })))
      → ((e : Exn) (sent : List Outgoing)
          → m (λ key. Redis.get w.now key w.redis) w.sent ≡ (raise e, sent)
          → P (raise e, record w { sent = sent }))
      → P ((call m >>= f) w)
  call_rule {B} m f w good bad = go out.0 refl
    where
      out : Result B × List Outgoing
      out = m (λ key. Redis.get w.now key w.redis) w.sent

      go :
          (r : Result B)
          → out.0 ≡ r
          → P (elim r [
            | ok b ↦ f b (record w { sent = out.1 })
            | raise e ↦ (raise e, record w { sent = out.1 })
          ])
      go (ok b) e = good b out.1 (λ i. (e i, out.1))
      go (raise x) e = bad x out.1 (λ i. (e i, out.1))

  -- A result in front.
  pub lift_rule :
      {B : Type 0} (r : Result B) (f : B → App A) (w : World)
      → ((b : B) → r ≡ ok b → P (f b w))
      → ((e : Exn) → r ≡ raise e → P (raise e, w))
      → P ((lift r >>= f) w)
  lift_rule (ok b) f w good bad = good b refl
  lift_rule (raise e) f w good bad = bad e refl

module _ {A B : Type 0} (m : App B) (f : B → App A) where
  pub bind-ok : (w w' : World) (b : B) → m w ≡ (ok b, w') → (m >>= f) w ≡ f b w'
  bind-ok w w' b h =
      ap
        (λ (x : Result B × World).
          let y : Result A × World = elim x.0 [ ok b ↦ f b x.1 | raise e ↦ (raise e, x.1) ] in y)
        h

  pub bind-raise : (w w' : World) (e : Exn) → m w ≡ (raise e, w') → (m >>= f) w ≡ (raise e, w')
  bind-raise w w' e h =
      ap
        (λ (x : Result B × World).
          let y : Result A × World = elim x.0 [ ok b ↦ f b x.1 | raise e ↦ (raise e, x.1) ] in y)
        h

pub or_rollback-raise :
    {A : Type 0} (m : App A) (w w' : World) (e : Exn)
    → m w ≡ (raise e, w')
    → or_rollback m w ≡ (raise e, record w' { tx = w'.db })
or_rollback-raise {A} m w w' e h =
    ap
      (λ (x : Result A × World).
        let y : Result A × World = elim x.0 [
          | ok a ↦ (ok a, x.1)
          | raise e ↦ (raise e, record x.1 { tx = x.1.db })
        ] in
        y)
      h
