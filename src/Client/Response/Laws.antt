-- ===== src/Client/Response/Laws.antt =====
-- Which responses are values, and which errors the others become.
use robo_control.Prelude.{
  ℕ, ◌≤◌, ◌<◌, String, ◌≡◌, ◌≢◌, ◌↔◌, ◌⊎◌, inl, inr, refl, true, false, Option, none, some, arith,
  leb, Option-cases, Bool-cases, ap, ◌∙◌,
}
use robo_control.Json.{Json, obj, Fields, find, truthy}
use robo_control.Errors.{Exn, Result, ok, raise, ◌>>=◌}
use robo_control.World.{Env}
use robo_control.Client.Response.{
  as_object, is_success_code, check_code, check_envelope, parse_response,
}

-- No code, one that is falsy, or one of the success codes.
abbrev pub IsAccepted : Option Json → Type 0
IsAccepted none = Unit
IsAccepted (some code) = (truthy code ≡ false) ⊎ (is_success_code code ≡ true)

leb→le : (a b : ℕ) → leb a b ≡ true → a ≤ b
leb→le a b h = ground arith

not-leb→lt : (a b : ℕ) → leb a b ≡ false → b < a
not-leb→lt a b h = ground arith

pub raise-ne-ok : {A : Type 0} {e : Exn} {a : A} → ◌≢◌ {A = Result A} (raise e) (ok a)
raise-ne-ok h = cc

not_server_error : {status : ℕ} → status < 400 → leb 500 status ≡ false
not_server_error h = ground arith

as_object-ok :
    {A : Type 0} (j : Json) (k : Fields → Result A) {a : A}
    → (as_object j >>= k) ≡ ok a
    → (fs : Fields) × (j ≡ obj fs) × (k fs ≡ ok a)
unfolding as_object
as_object-ok (obj fs) k h = (fs, refl, h)
as_object-ok _ k h = absurd (raise-ne-ok h)

module _ (env : Env) where
  check_code_iff :
      (fs : Fields) (code : Option Json) (v : Json)
      → (check_code env fs code ≡ ok v) ↔ ((v ≡ obj fs) × IsAccepted code)
  unfolding check_code
  check_code_iff fs none v = (λ h. (cc, tt), λ h. cc (h.0))
  check_code_iff fs (some code) v = (λ h. ground arith, λ h. ground arith)

  check_envelope_iff :
      (status : ℕ) (fs : Fields) (v : Json)
      → (check_envelope env status fs ≡ ok v)
        ↔ ((status < 400) × (v ≡ obj fs) × IsAccepted (find "code" fs))
  unfolding check_envelope
  check_envelope_iff status fs v = elim (Bool-cases (leb 400 status)) [
    | inl bad ↦ (
      λ h. absurd (raise-ne-ok (rw bad at h)),
      λ h. absurd (omega (arith, leb→le 400 status bad)),
    )
    | inr fine ↦ (
      λ h.
          let (same, accepted) = (check_code_iff fs (find "code" fs) v).0 (rw fine at h) in
          (omega (arith, not-leb→lt 400 status), same, accepted),
      λ h. rw fine ((check_code_iff fs (find "code" fs) v).1 (h.1, h.2)),
    )
  ]

  -- A response gives a value exactly if its status is below 400, its text is a JSON object, and the
  -- object's code is absent, falsy or one of the success codes; the value is that object.
  pub parse_response_iff :
      (path : String) (status : ℕ) (text : String) (v : Json)
      → (parse_response env path status text ≡ ok v) ↔ (
          (fs : Fields) × (env.loads text ≡ some (obj fs))
          × (v ≡ obj fs)
          × (status < 400)
          × IsAccepted (find "code" fs))
  unfolding parse_response
  parse_response_iff path status text v = (λ h. forward h, λ h. backward h)
    where
      forward :
          parse_response env path status text ≡ ok v
          → (fs : Fields) × (env.loads text ≡ some (obj fs))
            × (v ≡ obj fs)
            × (status < 400)
            × IsAccepted (find "code" fs)
      forward h = elim (Bool-cases (leb 500 status)) [
        | inl bad ↦ absurd (raise-ne-ok (rw bad at h))
        | inr fine ↦ elim (Option-cases (env.loads text)) [
          | inl e ↦ absurd (raise-ne-ok (rw (fine, e) at h))
          | inr (j, e) ↦
              let (fs, is_obj, checked) =
                as_object-ok j (check_envelope env status) (rw (fine, e) at h) in
              let (low, same, accepted) = (check_envelope_iff status fs v).0 checked in
              (fs, e ∙ ap some is_obj, same, low, accepted)
        ]
      ]

      backward :
          ((fs : Fields) × (env.loads text ≡ some (obj fs))
            × (v ≡ obj fs)
            × (status < 400)
            × IsAccepted (find "code" fs))
          → parse_response env path status text ≡ ok v
      backward (fs, e, same, low, accepted) =
          rw (not_server_error low, e) ((check_envelope_iff status fs v).1 (low, same, accepted))
