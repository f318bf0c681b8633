-- ===== src/Dashboard/Robots/Skipped.antt =====
-- A malformed entry hides no other.
use mathlib.Core.List.{Mem, mem-cons_self, mem-cons_of_mem}
use mathlib.Core.Path.{subst}
use robo_control.Prelude.{
  ℕ, suc, ◌≤◌, String, ◌≡◌, inl, inr, refl, sym, ap, ◌∙◌, true, Option, none, some, List, [], ◌∷◌,
  length, arith, is_in, str_eq, eq_iff, Bool-cases,
}
use robo_control.Text.{is_empty}
use robo_control.Json.{Json, str, obj, null, boolean, int, float, arr, Fields, get_or_null}
use robo_control.Errors.{Exn, Result, ok, raise, ◌>>=◌}
use robo_control.Redis
use robo_control.World.{Env, World}
use robo_control.Dashboard.Robots.{
  RobotStatusResponse, decode, to_schema, is_skipped, keep_or_skip, updated_at_of, or_key_part,
  of_raw, robot_state, add, robot_states, list_robot_states,
}

abbrev raised_or : {A : Type 0} → Exn → Result A → Exn
raised_or x (ok a) = x
raised_or x (raise y) = y

abbrev found_or : RobotStatusResponse → Result (Option RobotStatusResponse) → RobotStatusResponse
found_or s (ok (some r)) = r
found_or s _ = s

module _ (env : Env) (fromisoformat : String → Option ℕ)
    (validate : Json → Json → Json → Json → Option ℕ → Result RobotStatusResponse) where
  -- Errors of the response model that the loop skips.
  module _
      (skips : (a x y s : Json) (t : Option ℕ) (e : Exn)
        → validate a x y s t ≡ raise e
        → is_skipped e ≡ true)
      (w : World) where
    keep_or_skip_returns :
        (out : Result RobotStatusResponse)
        → ((e : Exn) → out ≡ raise e → is_skipped e ≡ true)
        → (o : Option RobotStatusResponse) × (keep_or_skip out ≡ ok o)
    keep_or_skip_returns (ok s) h = (some s, refl)
    keep_or_skip_returns (raise e) h = (none, rw (h e refl) refl)

    updated_at_skips :
        (v : Json) (e : Exn)
        → updated_at_of env fromisoformat validate v ≡ raise e
        → is_skipped e ≡ true
    updated_at_skips (str s) e h = ground arith
    updated_at_skips null e h = ground arith
    updated_at_skips (boolean b) e h = ground arith
    updated_at_skips (int n) e h = ground arith
    updated_at_skips (float d) e h = ground arith
    updated_at_skips (arr vs) e h = ground arith
    updated_at_skips (obj fs) e h = ground arith

    to_schema_skips :
        (key : String) (payload : Fields) (e : Exn)
        → to_schema env fromisoformat validate key payload ≡ raise e
        → is_skipped e ≡ true
    unfolding to_schema
    to_schema_skips key payload e h =
        after (updated_at_of env fromisoformat validate (get_or_null "updatedAt" payload)) refl h
      where
        after :
            (o : Result (Option ℕ))
            → updated_at_of env fromisoformat validate (get_or_null "updatedAt" payload) ≡ o
            → (o >>= λ updated_at.
                validate
                  (or_key_part (get_or_null "amrCode" payload) key)
                  (get_or_null "x" payload)
                  (get_or_null "y" payload)
                  (get_or_null "state" payload)
                  updated_at)
              ≡ raise e
            → is_skipped e ≡ true
        after (ok t) same raised = skips _ _ _ _ t e raised
        after (raise x) same raised =
            subst (λ y. is_skipped y ≡ true) (ap (raised_or x) raised)
              (updated_at_skips (get_or_null "updatedAt" payload) x same)

    of_raw_returns :
        (key : String) (raw : Option String)
        → (o : Option RobotStatusResponse) × (of_raw env fromisoformat validate key raw ≡ ok o)
    of_raw_returns key none = (none, refl)
    of_raw_returns key (some raw) = elim (Bool-cases (is_empty raw)) [
      | inl e ↦ (none, rw e refl)
      | inr e ↦ rw e (decoded (decode env fromisoformat validate raw))
    ]
      where
        decoded :
            (o : Option Fields)
            → (p : Option RobotStatusResponse) × ((elim o [
              | none ↦ ok none
              | some payload ↦ keep_or_skip (to_schema env fromisoformat validate key payload)
            ])
                ≡ ok p)
        decoded none = (none, refl)
        decoded (some payload) =
            keep_or_skip_returns (to_schema env fromisoformat validate key payload)
              (to_schema_skips key payload)

    robot_state_returns :
        (key : String)
        → (o : Option RobotStatusResponse) × (robot_state env fromisoformat validate w key ≡ ok o)
    unfolding robot_state
    robot_state_returns key = of_raw_returns key (Redis.get w.now key w.redis)

    add-le :
        (o : Option RobotStatusResponse) (states : List RobotStatusResponse) (n : ℕ)
        → length states ≤ n
        → length (add o states) ≤ suc n
    add-le none states n h = omega arith
    add-le (some r) states n h = omega arith

    add-head :
        (o : Option RobotStatusResponse) (states : List RobotStatusResponse)
        (r : RobotStatusResponse)
        → ok o ≡ ok (some r)
        → Mem r (add o states)
    add-head none states r h = ground arith
    add-head (some s) states r h =
        let same : s ≡ r = ap (λ (x : Result (Option RobotStatusResponse)). found_or s x) h in
        subst (λ x. Mem r (x ∷ states)) (sym same) mem-cons_self

    add-tail :
        (o : Option RobotStatusResponse) (states : List RobotStatusResponse)
        (r : RobotStatusResponse)
        → Mem r states
        → Mem r (add o states)
    add-tail none states r m = m
    add-tail (some s) states r m = mem-cons_of_mem s m

    -- All of it for all keys.
    robot_states_return :
        (scanned : List String)
        → (states : List RobotStatusResponse) × (list_robot_states env fromisoformat validate
              scanned w
            ≡ (ok states, w))
          × (length states ≤ length scanned)
          × ((key : String) (r : RobotStatusResponse)
              → is_in key scanned ≡ true
              → robot_state env fromisoformat validate w key ≡ ok (some r)
              → Mem r states)
    unfolding list_robot_states robot_states
    robot_states_return [] = ([], refl, omega arith, λ key r there. ground arith)
    robot_states_return (key ∷ keys) =
        let (o, read) = robot_state_returns key in
        let (states, rest, few, shown) = robot_states_return keys in
        let states_read : robot_states env fromisoformat validate w keys ≡ ok states =
          ap (λ (out : Result (List RobotStatusResponse) × World). out.0) rest in
        (
          add o states,
          rw (read, states_read) refl,
          add-le o states (length keys) few,
          λ key' r there reads. elim (Bool-cases (str_eq key key')) [
            | inl same ↦
                let same_key = (eq_iff key key').0 same in
                add-head o states r (sym read ∙ rw same_key reads)
            | inr other ↦ add-tail o states r (shown key' r (rw other at there) reads)
          ],
        )

    -- When the response model fails only in ways that the loop skips, a listing returns whatever the cached texts are, with no more states than keys, and the state of a scanned key that reads well is in it.
    pub list_robot_states_returns :
        (scanned : List String) (key : String) (r : RobotStatusResponse)
        → is_in key scanned ≡ true
        → robot_state env fromisoformat validate w key ≡ ok (some r)
        → (states : List RobotStatusResponse) × (list_robot_states env fromisoformat validate
              scanned w
            ≡ (ok states, w))
          × (length states ≤ length scanned)
          × Mem r states
    list_robot_states_returns scanned key r there reads =
        let (states, returns, few, shown) = robot_states_return scanned in
        (states, returns, few, shown key r there reads)
