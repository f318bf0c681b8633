-- ===== src/Signing/Canonical.antt =====
-- What the canonical string determines.
use Prim.Native.Char.{Char, code}
use Prim.Native.String
use Prim.Native.String.{[], ◌∷◌}
use text.Mathlib.TextLemmas.{
  nil-append, cons-append, append-nil, head-eq_of_cons-eq, tail-eq_of_cons-eq,
}
use robo_control.Prelude.{String, ◌≡◌, ◌≢◌, ap, sym, refl, ◌∙◌}
use mathlib.Core.Path.{ap₂}
use robo_control.Text.{upper}
use robo_control.World.{Env}
use robo_control.Signing.{canonical_string}

-- No line feed.
abbrev pub IsLine : String → Type 0
IsLine [] = Unit
IsLine (c ∷ s) = (code c ≢ 10) × IsLine s

abbrev newline : Char
newline = "\n"

break : (u : String) → String.◌++◌ "\n" u ≡ newline ∷ u
break u = cons-append newline [] u ∙ ap (λ s. newline ∷ s) (nil-append u)

-- Two texts that begin with a line each agree on the line and on the rest.
line_inj :
    (s t u v : String)
    → IsLine s
    → IsLine t
    → String.◌++◌ s (String.◌++◌ "\n" u) ≡ String.◌++◌ t (String.◌++◌ "\n" v)
    → (s ≡ t) × (u ≡ v)
line_inj [] [] u v hs ht e =
    (refl, tail-eq_of_cons-eq (rw (break u, break v, nil-append, nil-append) at e))
line_inj [] (d ∷ t) u v hs ht e =
    let e' = rw (break u, nil-append, cons-append d t) at e in
    absurd (ht.0 (sym (ap code (head-eq_of_cons-eq e'))))
line_inj (c ∷ s) [] u v hs ht e =
    let e' = rw (break v, nil-append, cons-append c s) at e in
    absurd (hs.0 (ap code (head-eq_of_cons-eq e')))
line_inj (c ∷ s) (d ∷ t) u v hs ht e =
    let e' = rw (cons-append c s, cons-append d t) at e in
    let (same, rest) = line_inj s t u v hs.1 ht.1 (tail-eq_of_cons-eq e') in
    (ap₂ (λ x y. x ∷ y) (head-eq_of_cons-eq e') same, rest)

module _ (env : Env) where
  -- Where no part in front of the hash holds a line feed, the canonical string determines every
  -- part: two requests are signed over the same text only if they have the same timestamp, nonce,
  -- method in capitals, path and body hash.
  pub canonical_string_inj :
      (m p b n t m' p' b' n' t' : String)
      → IsLine t × IsLine n × IsLine (upper m) × IsLine p
      → IsLine t' × IsLine n' × IsLine (upper m') × IsLine p'
      → canonical_string env m p b n t ≡ canonical_string env m' p' b' n' t'
      → (t ≡ t') × (n ≡ n') × (upper m ≡ upper m') × (p ≡ p') × (env.md5 b ≡ env.md5 b')
  unfolding canonical_string
  canonical_string_inj m p b n t m' p' b' n' t' (ht, hn, hm, hp) (kt, kn, km, kp) e =
      let (same_t, e₁) = line_inj t t' _ _ ht kt e in
      let (same_n, e₂) = line_inj n n' _ _ hn kn e₁ in
      let (same_m, e₃) = line_inj (upper m) (upper m') _ _ hm km e₂ in
      let (same_p, e₄) = line_inj p p' _ _ hp kp e₃ in
      (same_t, same_n, same_m, same_p, simp append-nil at e₄)
