-- ===== src/Client/Retry/Bounds.antt =====
-- How many requests a call sends, and which errors leave it.
use robo_control.Prelude.{
  ℕ, zero, suc, ◌+◌, ◌≤◌, String, ◌≡◌, refl, Bool, true, false, Option, List, ◌∷◌, arith, length,
  not, [], if◌then◌else◌,
}
use robo_control.Json.{Json}
use robo_control.Errors.{Exn, Result, ok, raise}
use robo_control.World.{Env, Outgoing}
use robo_control.Client.Wire.{Wire}
use robo_control.Client.Request.{do_request}
use robo_control.Client.Request.Attempt.{do_request_lem}
use robo_control.Client.Retry.{
  is_retryable, retrying, after_retries, translate, more_attempts, request,
}

module _ {A : Type 0} (m : Wire A) (get : String → Option String) where
  -- Each run of the attempt adds one request.
  abbrev pub SendsOne : Type 0
  SendsOne = (sent : List Outgoing) → length (m get sent).1 ≡ length sent + 1

  -- The budget bounds the requests from above, and one is always sent.
  pub retrying_bounds :
      (more : ℕ) (sent : List Outgoing)
      → SendsOne
      → let after = length (retrying more m get sent).1 in
        (length sent + 1 ≤ after) × (after ≤ length sent + 1 + more)
  unfolding retrying
  retrying_bounds zero sent one = omega (arith, one sent)
  retrying_bounds (suc more) sent one =
      ground (arith, one sent, retrying_bounds more (m get sent).1 one)

after_retries-final :
    (method path : String) (e : Exn) → is_retryable (after_retries method path e) ≡ false
unfolding after_retries
after_retries-final method path e = ground arith

module _ (env : Env) (method path : String) (body : Option Json)
    (get : String → Option String) where
  do_request-SendsOne :
      (params : List (String × String)) (preserve : Bool)
      → SendsOne (do_request env method path body params preserve) get
  do_request-SendsOne params preserve sent =
      rw (do_request_lem env method path body params preserve get sent) (omega arith)

  -- An idempotent call sends at least one and at most three requests, any other exactly one.
  pub request_bounds :
      (idempotent : Bool) (params : List (String × String)) (sent : List Outgoing)
      → let after = length (request env method path body idempotent params get sent).1 in
        (length sent + 1 ≤ after) × (after ≤ length sent + (if idempotent then 3 else 1))
  unfolding request
  request_bounds true params sent =
      let (low, high) =
        retrying_bounds (do_request env method path body params true) get more_attempts sent
          (do_request-SendsOne params true) in
      (low, omega arith)
  request_bounds false params sent =
      let one = do_request-SendsOne params false sent in (omega arith, omega arith)

  translate-final :
      {A : Type 0} (r : Result A) (e : Exn)
      → translate (after_retries method path) r ≡ raise e
      → is_retryable e ≡ false
  translate-final (ok a) e h = cc
  translate-final (raise x) e h =
      let same : after_retries method path x ≡ e = cc h in
      rw (← same) (after_retries-final method path x)

  -- No transport error and no 5xx marker leaves an idempotent call: each becomes a typed error.
  pub request-final :
      (params : List (String × String)) (sent : List Outgoing) (e : Exn)
      → (request env method path body true params get sent).0 ≡ raise e
      → is_retryable e ≡ false
  unfolding request
  request-final params sent e h = translate-final _ e h

module _ {A : Type 0} (m : Wire A) (get : String → Option String) where
  -- `n` attempts one after another, whatever each gives.
  abbrev pub attempts : ℕ → List Outgoing → List (Result A × List Outgoing)
  attempts zero sent = []
  attempts (suc n) sent = m get sent ∷ attempts n (m get sent).1

abbrev pub is_settled {ℓ} : {A : Type ℓ} → Result A → Bool
is_settled (ok _) = true
is_settled (raise e) = not (is_retryable e)

-- The first settled outcome, and the last one where none is.
abbrev pub first_settled :
    {A : Type 0}
    → Result A × List Outgoing
    → List (Result A × List Outgoing)
    → Result A × List Outgoing
first_settled x [] = x
first_settled x (y ∷ ys) = if is_settled x.0 then x else first_settled y ys

-- The retry loop gives the first settled outcome among its attempts, and the last where none is.
pub retrying-first_settled :
    {A : Type 0} (m : Wire A) (get : String → Option String) (more : ℕ) (sent : List Outgoing)
    → retrying more m get sent ≡ first_settled (m get sent) (attempts m get more (m get sent).1)
unfolding retrying
retrying-first_settled m get zero sent = refl
retrying-first_settled m get (suc more) sent =
    ground (arith, retrying-first_settled m get more (m get sent).1)
