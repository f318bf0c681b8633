-- ===== src/Lifespan/Singletons.antt =====
-- However starts, requests and stops follow one another, there is at most one open client of each
-- kind, and it is the one that is given out.
use robo_control.Prelude.{
  ℕ, ◌<◌, ◌≡◌, refl, String, Bool, true, false, not, Option, none, some, List, ◌∷◌, arith, ◌==◌,
  inl, inr, Bool-cases,
}
use robo_control.Errors.{Result, ok, raise}
use robo_control.World.{Env}
use robo_control.Api.Endpoints.{Backend}
use robo_control.Api.{Request}
use robo_control.Lifespan.{
  Singleton, is_closed, make_if_none, init_rcs_client, aclose, shutdown_rcs_client, get_rcs_client,
  get_redis, close_redis, Process, finish_startup, startup, shutdown, with_client,
  serve_with_client, Step, starts, serves, stops, Reachable, here, next,
}

abbrev is_current : ℕ → Option ℕ → Bool
is_current i none = false
is_current i (some j) = i == j

-- Of the clients made, exactly the current one is open.
pub record IsTidy (s : Singleton) : Type 0 where
  pub one_open : (i : ℕ) → i < s.made → is_closed i s.closed ≡ not (is_current i s.current)
  pub closed_made : (i : ℕ) → is_closed i s.closed ≡ true → i < s.made
  pub current_made : (i : ℕ) → is_current i s.current ≡ true → i < s.made

eq_self : (i : ℕ) → (i == i) ≡ true
eq_self i = ground arith

module _ (n : ℕ) (cs : List ℕ) where
  abbrev state : Option ℕ → Singleton
  state c = record { current = c; made = n; closed = cs }

  make_if_none-IsTidy : (c : Option ℕ) → IsTidy (state c) → IsTidy (make_if_none (state c))
  make_if_none-IsTidy (some i) t = t
  make_if_none-IsTidy none t = record {
    one_open = λ i below. elim (Bool-cases (i == n)) [
      | inl same ↦
          let fresh : is_closed i cs ≡ false = elim (Bool-cases (is_closed i cs)) [
            | inl old ↦ let made = t.closed_made i old in ground arith
            | inr new ↦ new
          ] in
          rw (same, fresh) refl
      | inr other ↦ let old = t.one_open i (ground arith) in rw (other, old) refl
    ];
    closed_made = λ i old. let made = t.closed_made i old in omega arith;
    current_made = λ i same. ground arith;
  }

  close-IsTidy :
      (i : ℕ)
      → IsTidy (state (some i))
      → IsTidy (record { current = none; made = n; closed = i ∷ cs })
  close-IsTidy i t = record {
    one_open = λ j below.
        let before = t.one_open j below in
        elim (Bool-cases (j == i)) [
          | inl same ↦ rw same refl
          | inr other ↦ let old : is_closed j cs ≡ true = rw other at before in rw (other, old) refl
        ];
    closed_made = λ j old. elim (Bool-cases (j == i)) [
      | inl same ↦ t.current_made j same
      | inr other ↦ t.closed_made j (rw other at old)
    ];
    current_made = λ j same. ground arith;
  }

  -- The current client is open.
  current-open : (i : ℕ) → IsTidy (state (some i)) → is_closed i cs ≡ false
  current-open i t =
      let made = t.current_made i (eq_self i) in
      let now = t.one_open i made in rw (eq_self i) at now

  shutdown_rcs_client-IsTidy :
      (c : Option ℕ) → IsTidy (state c) → IsTidy (shutdown_rcs_client (state c))
  unfolding shutdown_rcs_client aclose
  shutdown_rcs_client-IsTidy none t = t
  shutdown_rcs_client-IsTidy (some i) t = rw (current-open i t) (close-IsTidy i t)

  close_redis-IsTidy : (c : Option ℕ) → IsTidy (state c) → IsTidy (close_redis (state c))
  unfolding close_redis
  close_redis-IsTidy none t = t
  close_redis-IsTidy (some i) t = close-IsTidy i t

open_if :
    (c : Option ℕ) (n : ℕ) (cs : List ℕ)
    → IsTidy (record { current = c; made = n; closed = cs })
    → (elim (get_rcs_client (record { current = c; made = n; closed = cs })) [
      | raise e ↦ true
      | ok i ↦ not (is_closed i cs)
    ])
      ≡ true
unfolding get_rcs_client
open_if none n cs t = refl
open_if (some j) n cs t = rw (current-open n cs j t) refl

abbrev pub AreTidy : Process → Type 0
AreTidy p = IsTidy p.rcs × IsTidy p.redis

-- A request that is given a client is given an open one.
abbrev pub given_open : Singleton → Bool
given_open s = elim (get_rcs_client s) [ raise e ↦ true | ok i ↦ not (is_closed i s.closed) ]

given_open_lem : (s : Singleton) → IsTidy s → given_open s ≡ true
unfolding get_rcs_client
given_open_lem s t = open_if s.current s.made s.closed t

module _ (env : Env) (backend : Backend) where
  init-AreTidy : (p : Process) → AreTidy p → AreTidy (finish_startup env p)
  unfolding init_rcs_client
  init-AreTidy p (rcs, redis) =
      (make_if_none-IsTidy p.rcs.made p.rcs.closed p.rcs.current rcs, redis)

  redis-AreTidy : (p : Process) → AreTidy p → AreTidy (record p { redis = get_redis p.redis })
  unfolding get_redis
  redis-AreTidy p (rcs, redis) =
      (rcs, make_if_none-IsTidy p.redis.made p.redis.closed p.redis.current redis)

  startup-AreTidy :
      (select_1 : Result (Unit {0})) (ping : Result Bool) (p : Process)
      → AreTidy p
      → AreTidy (startup env select_1 ping p).1
  unfolding startup
  startup-AreTidy (raise e) ping p t = t
  startup-AreTidy (ok _) (raise e) p t = redis-AreTidy p t
  startup-AreTidy (ok _) (ok pong) p t =
      init-AreTidy (record p { redis = get_redis p.redis }) (redis-AreTidy p t)

  serve-AreTidy :
      (request_id : String) (key : Option String) (r : Request) (p : Process) (c : Result ℕ)
      → AreTidy p
      → AreTidy (with_client env backend request_id key r p c).1
  serve-AreTidy request_id key r p (raise e) t = t
  serve-AreTidy request_id key r p (ok i) t = redis-AreTidy p t

  Step-AreTidy : (p q : Process) → Step env backend p q → AreTidy p → AreTidy q
  unfolding serve_with_client shutdown
  Step-AreTidy _ _ (starts select_1 ping p) t = startup-AreTidy select_1 ping p t
  Step-AreTidy _ _ (serves request_id key r p) t = serve-AreTidy request_id key r p _ t
  Step-AreTidy _ _ (stops p) (rcs, redis) = (
    shutdown_rcs_client-IsTidy p.rcs.made p.rcs.closed p.rcs.current rcs,
    close_redis-IsTidy p.redis.made p.redis.closed p.redis.current redis,
  )

  -- In every process reachable by starts, whose checks may fail, requests and stops in any order from one in which exactly the current clients are open, again exactly the current clients are open, one of each kind at most, and the RCS client that a request is given, if there is one, is open.
  pub Reachable-AreTidy :
      (p q : Process)
      → Reachable env backend p q
      → AreTidy p
      → AreTidy q × (given_open q.rcs ≡ true)
  Reachable-AreTidy p _ here t = (t, given_open_lem p.rcs t.0)
  Reachable-AreTidy p r (next {q} steps last) t =
      let (tidy, _) = Reachable-AreTidy p q steps t in
      let tidy' = Step-AreTidy q r last tidy in (tidy', given_open_lem r.rcs tidy'.0)
