-- ===== src/Dashboard/Health.antt =====
-- app/observability/health.py and the probes of app/api/v1/routers/health.py. What `SELECT 1` and
-- PING do is an argument: they answer or raise.
use robo_control.Prelude.{
  String, Bool, true, false, ◌&&◌, ◌≡◌, ◌↔◌, ◌⊎◌, inl, inr, refl, arith, [], ◌∷◌, if◌then◌else◌,
}
use robo_control.Json.{str, obj, object, Json}
use robo_control.Errors.{Result, ok, raise, Response}

-- `check_database`: any exception is a false.
unfoldable pub check_database : Result (Unit {0}) → Bool
check_database (ok _) = true
check_database (raise _) = false

-- `check_redis`: `bool(await client.ping())`
unfoldable pub check_redis : Result Bool → Bool
check_redis (ok pong) = pong
check_redis (raise _) = false

abbrev pub ok_or_error : Bool → String
ok_or_error answered = if answered then "ok" else "error"

-- `readiness_report`
unfoldable pub readiness_report : Result (Unit {0}) → Result Bool → Bool × Json
readiness_report select_1 ping =
    let db_ok = check_database select_1 in
    let redis_ok = check_redis ping in
    (
      db_ok && redis_ok,
      obj (object (("db", str (ok_or_error db_ok)) ∷ ("redis", str (ok_or_error redis_ok)) ∷ [])),
    )

-- `readiness`
unfoldable pub readiness : Result (Unit {0}) → Result Bool → Response
readiness select_1 ping =
    let (is_ready, report) = readiness_report select_1 ping in
    record { status_code = if is_ready then 200 else 503; content = report }

-- The readiness probe answers 200 exactly if the query returns and the PING returns true, and 503 otherwise.
pub readiness_iff :
    (select_1 : Result (Unit {0})) (ping : Result Bool)
    → (((readiness select_1 ping).status_code ≡ 200) ↔ ((select_1 ≡ ok tt) × (ping ≡ ok true)))
      × (((readiness select_1 ping).status_code ≡ 200)
          ⊎ ((readiness select_1 ping).status_code ≡ 503))
unfolding readiness readiness_report check_database check_redis
readiness_iff (ok tt) (ok true) = ((λ e. (refl, refl), λ e. refl), inl refl)
readiness_iff (ok tt) (ok false) = ((λ e. ground arith, λ e. ground arith), inr refl)
readiness_iff (ok tt) (raise x) = ((λ e. ground arith, λ e. ground arith), inr refl)
readiness_iff (raise x) (ok pong) = ((λ e. ground arith, λ e. ground arith), inr refl)
readiness_iff (raise x) (raise y) = ((λ e. ground arith, λ e. ground arith), inr refl)

-- `liveness`: 200 if the process answers at all, with the id of the request.
unfoldable liveness : String → Response
liveness request_id = record {
  status_code = 200;
  content = obj (object (("status", str "ok") ∷ ("request_id", str request_id) ∷ []));
}
