-- ===== src/Dashboard/Robots/Cached.antt =====
-- What the worker caches is what the listing shows, until it expires.
use robo_control.Prelude.{
  ℕ, ◌+◌, String, ◌≡◌, refl, Bool, true, false, Option, none, some, [], ◌∷◌, eq_refl, ltb,
  if◌then◌else◌,
}
use robo_control.Text.{is_empty}
use robo_control.Json.{Json, str, Fields, find, get_or_null, truthy}
use robo_control.Errors.{Result, ok, ◌>>=◌}
use robo_control.Redis.Keys.{robot_state_key}
use robo_control.Redis.Laws.{get-setex}
use robo_control.Database.Tasks.{TaskStatus, status_value}
use robo_control.World.{Env, World}
use robo_control.Worker.{state_payload, update_robot_state}
use robo_control.Dashboard.Robots.{
  RobotStatusResponse, decode, to_schema, of_raw, robot_state, add, robot_states, list_robot_states,
}

module _ (env : Env) (fromisoformat : String → Option ℕ)
    (validate : Json → Json → Json → Json → Option ℕ → Result RobotStatusResponse) where
  module _ (w : World) (amr_code : String) (fs : Fields) (status : TaskStatus)
      (r : RobotStatusResponse) (named : is_empty amr_code ≡ false)
      (taken : env.redis_error w.now (robot_state_key amr_code) ≡ none)
      (filled : is_empty (env.dumps_default (state_payload env w status amr_code fs)) ≡ false)
      (reads : env.loads (env.dumps_default (state_payload env w status amr_code fs))
        ≡ some (state_payload env w status amr_code fs))
      (dates : fromisoformat (env.isoformat w.now) ≡ some w.now)
      (valid : validate
          (str amr_code)
          (get_or_null "x" fs)
          (get_or_null "y" fs)
          (str (status_value status))
          (some w.now)
        ≡ ok r) where
    cached_text : String
    cached_text = env.dumps_default (state_payload env w status amr_code fs)

    of_raw-cached :
        (key : String) → of_raw env fromisoformat validate key (some cached_text) ≡ ok (some r)
    unfolding cached_text decode to_schema state_payload get_or_null find truthy
    of_raw-cached key = rw (filled, reads, dates, named, valid) refl

    listed_if :
        (key : String) (live : Bool)
        → (of_raw env fromisoformat validate key (if live then some cached_text else none)
            >>= λ found. ok (add found []))
          ≡ ok (if live then r ∷ [] else [])
    listed_if key true = rw (of_raw-cached key) refl
    listed_if key false = refl

    -- A state that the worker has cached is listed from its key until 300 seconds after it was cached, if Redis took it, with the robot's code, the coordinates of the feedback, the status and the time of caching, and not listed from then on, when the texts that `json.dumps` and `isoformat` write are not empty and read back, and the response model accepts the values.
    pub list_robot_states_cached :
        (later : ℕ)
        → (list_robot_states env fromisoformat validate
            (robot_state_key amr_code ∷ [])
            (record (update_robot_state env (some amr_code) fs status w).1 { now = later })).0
          ≡ ok (if ltb later (w.now + 300) then r ∷ [] else [])
    unfolding cached_text list_robot_states robot_states robot_state update_robot_state
    list_robot_states_cached later =
        let key = robot_state_key amr_code in
        let written = get-setex w.now later key key 300 cached_text w.redis in
        rw (named, taken) (rw (written, eq_refl key) (listed_if key (ltb later (w.now + 300))))
