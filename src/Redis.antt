-- ===== src/Redis.antt =====
-- Redis as the program uses it, and the key builders of app/utils/redis_helper.py. A key with an
-- expiry time is gone from that second on.
pub mod Laws
pub mod Keys
pub mod Read
use robo_control.Prelude.{
  ℕ, ◌+◌, String, Bool, true, false, Option, none, some, List, [], ◌∷◌, ltb, str_eq, if◌then◌else◌,
  is_none,
}

pub record Entry : Type 0 where
  pub value : String
  pub expires : Option ℕ

abbrev pub Store : Type 0
Store = List (String × Entry)

abbrev pub is_live : ℕ → Entry → Bool
is_live now e = elim e.expires [ none ↦ true | some t ↦ ltb now t ]

find : String → Store → Option Entry
find key [] = none
find key ((k, e) ∷ s) = if str_eq k key then some e else find key s

abbrev live_value : ℕ → Option Entry → Option String
live_value now none = none
live_value now (some e) = if is_live now e then some e.value else none

-- `GET`
unfoldable pub get : ℕ → String → Store → Option String
unfolding find
get now key s = live_value now (find key s)

put : String → Entry → Store → Store
put key e [] = (key, e) ∷ []
put key e ((k, old) ∷ s) = if str_eq k key then (key, e) ∷ s else (k, old) ∷ put key e s

-- `SET`, which also drops an expiry time
pub set : String → String → Store → Store
unfolding put
set key value s = put key (record { value = value; expires = none }) s

-- `SETEX`
pub setex : ℕ → String → ℕ → String → Store → Store
unfolding put
setex now key ttl value s = put key (record { value = value; expires = some (now + ttl) }) s

-- `SET key value NX EX ttl`: the answer says whether the key was set.
pub set_nx : ℕ → String → ℕ → String → Store → Bool × Store
unfolding get setex
set_nx now key ttl value s =
    if is_none (get now key s) then (true, setex now key ttl value s) else (false, s)
