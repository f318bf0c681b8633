-- ===== src/Logging/Secrets.antt =====
-- What stands at a path of keys in a redacted log event.
use mathlib.Core.Option.{some-injective}
use robo_control.Prelude.{
  String, ◌≡◌, inl, inr, refl, sym, ap, Bool, true, false, Option, none, some, List, [], ◌∷◌, arith,
  str_eq, eq_iff, if◌then◌else◌, Bool-cases,
}
use robo_control.Json.{Json, str, obj, null, boolean, int, float, arr, Fields, end, field, find}
use robo_control.Logging.{is_sensitive, mask, mask_sensitive}
use robo_control.Logging.Redaction.{Unique, redact, redact_value, mask_sensitive_reference}

abbrev as_dict : Option Json → Option Fields
as_dict (some (obj fs)) = some fs
as_dict _ = none

abbrev bind : {A B : Type 0} → (A → Option B) → Option A → Option B
bind f none = none
bind f (some a) = f a

-- The value at a path of keys: a first key, then the keys in the dicts below it.
unfoldable pub walk : String → List String → Fields → Option Json
walk k [] fs = find k fs
walk k (k' ∷ ks) fs = let below = walk k' ks in bind below (as_dict (find k fs))

abbrev pub last : String → List String → String
last k [] = k
last k (k' ∷ ks) = last k' ks

-- `f` in an optional result.
abbrev pub over : {A B : Type 0} → (A → B) → Option A → Option B
over f none = none
over f (some a) = some (f a)

module _ (lower : String → String) where
  -- No key of the path is sensitive.
  abbrev pub AllPlain : String → List String → Type 0
  AllPlain k [] = is_sensitive lower k ≡ false
  AllPlain k (k' ∷ ks) = (is_sensitive lower k ≡ false) × AllPlain k' ks

  abbrev shown : Bool → Json → Json
  shown secret v = if secret then mask else redact_value lower v

  find-redact :
      (k : String) (fs : Fields)
      → find k (redact lower fs) ≡ over (shown (is_sensitive lower k)) (find k fs)
  unfolding find redact
  find-redact k end = refl
  find-redact k (field k' v rest) = elim (Bool-cases (str_eq k' k)) [
    | inl e ↦ rw e (ap (λ x. some (shown (is_sensitive lower x) v)) ((eq_iff k' k).0 e))
    | inr e ↦ rw e (find-redact k rest)
  ]

  -- A dict in the redacted event is a redacted dict, under a key that is not sensitive.
  as_dict-shown :
      (secret : Bool) (o : Option Json)
      → as_dict (over (shown secret) o) ≡ (if secret then none else over (redact lower) (as_dict o))
  unfolding redact
  as_dict-shown true none = refl
  as_dict-shown true (some v) = refl
  as_dict-shown false none = refl
  as_dict-shown false (some (obj fs)) = refl
  as_dict-shown false (some null) = refl
  as_dict-shown false (some (boolean b)) = refl
  as_dict-shown false (some (int n)) = refl
  as_dict-shown false (some (float d)) = refl
  as_dict-shown false (some (str s)) = refl
  as_dict-shown false (some (arr vs)) = refl

  bind-redact :
      (f : Fields → Option Json) (o : Option Fields) (v : Json)
      → ((inner : Fields) → f (redact lower inner) ≡ some v → v ≡ mask)
      → bind f (over (redact lower) o) ≡ some v
      → v ≡ mask
  bind-redact f none v below found = ground arith
  bind-redact f (some inner) v below found = below inner found

  redact_secret :
      (k : String) (ks : List String) (fs : Fields) (v : Json)
      → is_sensitive lower (last k ks) ≡ true
      → walk k ks (redact lower fs) ≡ some v
      → v ≡ mask
  unfolding walk
  redact_secret k [] fs v secret found =
      is_mask (find k fs) (rw (find-redact k fs, secret) at found)
    where
      is_mask : (o : Option Json) → over (shown true) o ≡ some v → v ≡ mask
      is_mask none e = ground arith
      is_mask (some u) e = sym (some-injective mask v e)
  redact_secret k (k' ∷ ks) fs v secret found =
      let e = rw (find-redact k fs, as_dict-shown (is_sensitive lower k) (find k fs)) at found in
      let below = λ (inner : Fields) (h : walk k' ks (redact lower inner) ≡ some v).
        redact_secret k' ks inner v secret h in
      elim (Bool-cases (is_sensitive lower k)) [
        | inl hidden ↦ let impossible : none ≡ some v = rw hidden at e in ground arith
        | inr plain ↦ bind-redact (walk k' ks) (as_dict (find k fs)) v below (rw plain at e)
      ]

  bind-over :
      (f : Fields → Option Json) (o : Option Fields)
      → ((inner : Fields) → f (redact lower inner) ≡ over (redact_value lower) (f inner))
      → bind f (over (redact lower) o) ≡ over (redact_value lower) (bind f o)
  bind-over f none h = refl
  bind-over f (some inner) h = h inner

  redact_plain :
      (k : String) (ks : List String) (fs : Fields)
      → AllPlain k ks
      → walk k ks (redact lower fs) ≡ over (redact_value lower) (walk k ks fs)
  unfolding walk
  redact_plain k [] fs plain = rw (find-redact k fs, plain) (over_ext (find k fs))
    where
      over_ext : (o : Option Json) → over (shown false) o ≡ over (redact_value lower) o
      over_ext none = refl
      over_ext (some v) = refl
  redact_plain k (k' ∷ ks) fs (plain, more) =
      let below = λ (inner : Fields). redact_plain k' ks inner more in
      rw (find-redact k fs, as_dict-shown (is_sensitive lower k) (find k fs), plain)
        (bind-over (walk k' ks) (as_dict (find k fs)) below)

  module _ (event_dict : Fields) (unique : Unique event_dict) (k : String) (ks : List String) where
    -- In a masked event, a value at a path of dict keys whose last key is sensitive is "***", at any depth of dicts; the event's dicts have each key once.
    pub mask_sensitive_secret :
        (v : Json)
        → is_sensitive lower (last k ks) ≡ true
        → walk k ks (mask_sensitive lower event_dict) ≡ some v
        → v ≡ mask
    mask_sensitive_secret v secret found =
        redact_secret k ks event_dict v secret
          (rw (mask_sensitive_reference lower event_dict unique) at found)

    -- At a path without a sensitive key stands what the event has there, with its own secrets
    -- replaced if it is a dict.
    pub mask_sensitive_plain :
        AllPlain k ks
        → walk k ks (mask_sensitive lower event_dict)
          ≡ over (redact_value lower) (walk k ks event_dict)
    mask_sensitive_plain plain =
        rw (mask_sensitive_reference lower event_dict unique) (redact_plain k ks event_dict plain)
