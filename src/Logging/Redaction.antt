-- ===== src/Logging/Redaction.antt =====
-- What the redaction of a log event keeps and what it hides: the two loops against a map over the
-- event, and the value at a path of keys.
use robo_control.Prelude.{
  String, ◌≡◌, inl, inr, refl, sym, ap, ◌∙◌, Bool, false, ◌||◌, some, arith, str_eq, is_in, eq_iff,
  eq_refl, if◌then◌else◌, Bool-cases,
}
use robo_control.Json.{Json, str, obj, null, boolean, int, float, arr, Fields, end, field, find}
use robo_control.Logging.{
  set, keys, is_sensitive, mask, mask_value, mask_into, mask_dict, mask_found, mask_key, mask_keys,
  mask_sensitive,
}

-- A dict has each of its keys once, and so have the dicts in it.
unfoldable mutual
  pub UniqueKeys : Json → Type 0
  UniqueKeys (obj fs) = Unique fs
  UniqueKeys _ = Unit

  pub Unique : Fields → Type 0
  Unique end = Unit
  Unique (field k v rest) = (is_in k (keys rest) ≡ false) × UniqueKeys v × Unique rest

abbrev append : Fields → Fields → Fields
append end gs = gs
append (field k v fs) gs = field k v (append fs gs)

append_assoc : (fs gs hs : Fields) → append (append fs gs) hs ≡ append fs (append gs hs)
append_assoc end gs hs = refl
append_assoc (field k v fs) gs hs = ap (field k v) (append_assoc fs gs hs)

append_end : (fs : Fields) → append fs end ≡ fs
append_end end = refl
append_end (field k v fs) = ap (field k v) (append_end fs)

str_eq_comm : (s t : String) → str_eq s t ≡ false → str_eq t s ≡ false
str_eq_comm s t h = ground (arith, eq_iff s t, eq_iff t s)

or-false : (a b : Bool) → a || b ≡ false → (a ≡ false) × (b ≡ false)
or-false a b h = (ground arith, ground arith)

-- The key is not among those before it.
module _ (k : String) (v : Json) where
  set-append :
      (pre rest : Fields) (u : Json)
      → is_in k (keys pre) ≡ false
      → set k v (append pre (field k u rest)) ≡ append pre (field k v rest)
  unfolding set
  set-append end rest u fresh = rw (eq_refl k) refl
  set-append (field k' v' pre) rest u fresh =
      let (other, fresh') = or-false (str_eq k' k) (is_in k (keys pre)) fresh in
      rw other (ap (field k' v') (set-append pre rest u fresh'))

  set_fresh : (pre : Fields) → is_in k (keys pre) ≡ false → set k v pre ≡ append pre (field k v end)
  unfolding set
  set_fresh end fresh = refl
  set_fresh (field k' v' pre) fresh =
      let (other, fresh') = or-false (str_eq k' k) (is_in k (keys pre)) fresh in
      rw other (ap (field k' v') (set_fresh pre fresh'))

  find-append :
      (pre rest : Fields)
      → is_in k (keys pre) ≡ false
      → find k (append pre (field k v rest)) ≡ some v
  unfolding find
  find-append end rest fresh = rw (eq_refl k) refl
  find-append (field k' v' pre) rest fresh =
      let (other, fresh') = or-false (str_eq k' k) (is_in k (keys pre)) fresh in
      rw other (find-append pre rest fresh')

-- No key of the second dict is among those of the first.
abbrev Fresh : Fields → Fields → Type 0
Fresh pre end = Unit
Fresh pre (field k v rest) = (is_in k (keys pre) ≡ false) × Fresh pre rest

is_in-append :
    (k k' : String) (v : Json) (pre : Fields)
    → is_in k (keys pre) ≡ false
    → str_eq k' k ≡ false
    → is_in k (keys (append pre (field k' v end))) ≡ false
is_in-append k k' v end fresh other = ground arith
is_in-append k k' v (field k0 v0 pre) fresh other =
    let (other0, fresh') = or-false (str_eq k0 k) (is_in k (keys pre)) fresh in
    let more = is_in-append k k' v pre fresh' other in rw other0 more

append-Fresh :
    (k : String) (v : Json) (pre rest : Fields)
    → Fresh pre rest
    → is_in k (keys rest) ≡ false
    → Fresh (append pre (field k v end)) rest
append-Fresh k v pre end fresh new = tt
append-Fresh k v pre (field k' v' rest) (fresh, more) new =
    let (other, new') = or-false (str_eq k' k) (is_in k (keys rest)) new in
    (is_in-append k' k v pre fresh (str_eq_comm k' k other), append-Fresh k v pre rest more new')

Fresh-end : (fs : Fields) → Fresh end fs
Fresh-end end = tt
Fresh-end (field k v fs) = (refl, Fresh-end fs)

module _ (lower : String → String) where
  -- Reference: what stands under a sensitive key is replaced, at every depth of dicts.
  unfoldable mutual
    pub redact_value : Json → Json
    redact_value (obj fs) = obj (redact fs)
    redact_value v = v

    pub redact : Fields → Fields
    redact end = end
    redact (field k v rest) =
        field k (if is_sensitive lower k then mask else redact_value v) (redact rest)

  mutual
    unfolding mask_value redact_value UniqueKeys

    mask_value_lem : (v : Json) → UniqueKeys v → mask_value lower v ≡ redact_value v
    mask_value_lem (obj fs) u = ap obj (mask_into_lem end fs (Fresh-end fs) u)
    mask_value_lem null u = refl
    mask_value_lem (boolean b) u = refl
    mask_value_lem (int n) u = refl
    mask_value_lem (float d) u = refl
    mask_value_lem (str s) u = refl
    mask_value_lem (arr vs) u = refl

    mask_into_lem :
        (masked fs : Fields)
        → Fresh masked fs
        → Unique fs
        → mask_into lower masked fs ≡ append masked (redact fs)
    mask_into_lem masked end fresh u = sym (append_end masked)
    mask_into_lem masked (field k v rest) (fresh, more) (new, uv, u) =
        let v' = if is_sensitive lower k then mask else mask_value lower v in
        let r = if is_sensitive lower k then mask else redact_value v in
        let value : v' ≡ r =
          ap (λ x. if is_sensitive lower k then mask else x) (mask_value_lem v uv) in
        let rest' =
          mask_into_lem (append masked (field k v' end)) rest
            (append-Fresh k v' masked rest more new) u in
        ap (λ m. mask_into lower m rest) (set_fresh k v' masked fresh)
        ∙ rest'
        ∙ append_assoc masked (field k v' end) (redact rest)
        ∙ ap (λ x. append masked (field k x (redact rest))) value

  -- The loop over the event's own keys, from a point where the fields before are done.
  module _ (pre rest : Fields) (k : String) where
    mask_found_lem :
        (v : Json)
        → is_in k (keys pre) ≡ false
        → UniqueKeys v
        → mask_found lower k (some v) (append pre (field k v rest))
          ≡ append pre (field k (redact_value v) rest)
    unfolding mask_found mask_dict redact UniqueKeys
    mask_found_lem (obj fs) fresh u =
        let masked = ap obj (mask_into_lem end fs (Fresh-end fs) u) in
        set-append k (obj (mask_into lower end fs)) pre rest (obj fs) fresh
        ∙ ap (λ x. append pre (field k x rest)) masked
    mask_found_lem null fresh u = refl
    mask_found_lem (boolean b) fresh u = refl
    mask_found_lem (int n) fresh u = refl
    mask_found_lem (float d) fresh u = refl
    mask_found_lem (str s) fresh u = refl
    mask_found_lem (arr vs) fresh u = refl

    mask_key_lem :
        (v : Json)
        → is_in k (keys pre) ≡ false
        → UniqueKeys v
        → mask_key lower k (append pre (field k v rest))
          ≡ append pre (field k (if is_sensitive lower k then mask else redact_value v) rest)
    unfolding mask_key
    mask_key_lem v fresh u = elim (Bool-cases (is_sensitive lower k)) [
      | inl e ↦ rw e (set-append k mask pre rest v fresh)
      | inr e ↦ rw (e, find-append k v pre rest fresh) (mask_found_lem v fresh u)
    ]

  mask_keys_lem :
      (pre fs : Fields)
      → Fresh pre fs
      → Unique fs
      → mask_keys lower (keys fs) (append pre fs) ≡ append pre (redact fs)
  unfolding mask_keys redact Unique
  mask_keys_lem pre end fresh u = refl
  mask_keys_lem pre (field k v rest) (fresh, more) (new, uv, u) =
      let r = if is_sensitive lower k then mask else redact_value v in
      let first =
        mask_key_lem pre rest k v fresh uv ∙ sym (append_assoc pre (field k r end) rest) in
      ap (mask_keys lower (keys rest)) first
      ∙ mask_keys_lem (append pre (field k r end)) rest (append-Fresh k r pre rest more new) u
      ∙ append_assoc pre (field k r end) (redact rest)

  -- The two loops are a map over the event.
  pub mask_sensitive_reference :
      (event_dict : Fields)
      → Unique event_dict
      → mask_sensitive lower event_dict ≡ redact event_dict
  unfolding mask_sensitive
  mask_sensitive_reference event_dict u = mask_keys_lem end event_dict (Fresh-end event_dict) u
