-- ===== src/Redis/Laws.antt =====
-- What a key holds after a write, at any later time.
use robo_control.Prelude.{
  ℕ, ◌+◌, ◌<◌, String, ◌≡◌, ◌∙◌, refl, true, false, none, some, [], ◌∷◌, arith, ltb, str_eq, eq_iff,
  eq_refl, if◌then◌else◌,
}
use robo_control.Redis.{Entry, Store, find, get, put, set, setex, set_nx}

find-put :
    (k j : String) (e : Entry) (s : Store)
    → find j (put k e s) ≡ (if str_eq k j then some e else find j s)
unfolding find put
find-put k j e [] = refl
find-put k j e ((i, old) ∷ s) = ground (arith, eq_iff k j, eq_iff i k, eq_iff i j, find-put k j e s)

pub get-set :
    (now : ℕ) (k j v : String) (s : Store)
    → get now j (set k v s) ≡ (if str_eq k j then some v else get now j s)
unfolding get set
get-set now k j v s = rw find-put (ground arith)

pub get-setex :
    (now later : ℕ) (k j : String) (ttl : ℕ) (v : String) (s : Store)
    → get later j (setex now k ttl v s)
      ≡ (if str_eq k j then (if ltb later (now + ttl) then some v else none) else get later j s)
unfolding get setex
get-setex now later k j ttl v s = rw find-put (ground arith)

pub set_nx-fresh :
    (now : ℕ) (k : String) (ttl : ℕ) (v : String) (s : Store)
    → get now k s ≡ none
    → set_nx now k ttl v s ≡ (true, setex now k ttl v s)
unfolding set_nx
set_nx-fresh now k ttl v s h = rw h refl

pub set_nx-taken :
    (now : ℕ) (k : String) (ttl : ℕ) (v u : String) (s : Store)
    → get now k s ≡ some u
    → set_nx now k ttl v s ≡ (false, s)
unfolding set_nx
set_nx-taken now k ttl v u s h = rw h refl

-- Writing a key that is not there leaves the keys that are.
pub setex_other :
    (now later : ℕ) (k j : String) (ttl : ℕ) (v u : String) (s : Store)
    → get now k s ≡ none
    → get now j s ≡ some u
    → get later j s ≡ some u
    → get later j (setex now k ttl v s) ≡ some u
setex_other now later k j ttl v u s absent present kept =
    get-setex now later k j ttl v s ∙ ground (arith, eq_iff k j)

-- The value and its time of a key just written.
pub setex_self :
    (now later : ℕ) (k : String) (ttl : ℕ) (v : String) (s : Store)
    → later < now + ttl
    → get later k (setex now k ttl v s) ≡ some v
setex_self now later k ttl v s early = get-setex now later k k ttl v s ∙ ground (arith, eq_refl k)
