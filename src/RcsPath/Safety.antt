-- ===== src/RcsPath/Safety.antt =====
-- What a normalised and validated path looks like, whatever the client sent.
use Prim.Native.Char.{code}
use Prim.Native.String.{[], ◌∷◌}
use robo_control.Prelude.{
  ℕ, String, true, false, ◌||◌, Option, ◌≡◌, ◌≢◌, ◌↔◌, ◌⊎◌, inl, inr, refl, arith, ◌==◌,
  if◌then◌else◌, Bool-cases, Option-cases, if-cases,
}
use mathlib.Core.Path.{subst}
use robo_control.Text.{is_empty, strip, starts_with, contains, before}
use robo_control.Errors.{Result, ok, raise}
use robo_control.RcsPath.{
  rcs_path_prefix, without_breaks, authority, after_authority, without_params, drop_prefix,
  url_path, slash_or, scheme_of, path_of_url, path_of, cut_query, normalize_rcs_path,
  validate_rcs_path,
}

-- Empty, or a "/" in front.
abbrev pub IsRooted : String → Type 0
IsRooted [] = Unit
IsRooted (c ∷ _) = code c ≡ b'/'

-- Empty, or one of "/?#" in front.
abbrev IsTail : String → Type 0
IsTail [] = Unit
IsTail (c ∷ _) = (code c ≡ b'/') ⊎ (code c ≡ b'?') ⊎ (code c ≡ b'#')

after_authority-IsTail : (s : String) → IsTail (after_authority s)
unfolding after_authority
after_authority-IsTail [] = tt
after_authority-IsTail (c ∷ s) = ground (arith, after_authority-IsTail s)

-- The query and the fragment cut off, a tail is a rooted path.
before_tail : (s : String) → IsTail s → IsRooted (before b'?' (before b'#' s))
unfolding before
before_tail [] h = tt
before_tail (c ∷ s) h =
    let rest = before b'#' s in
    elim (Bool-cases (code c == b'#')) [
      | inl hash ↦ rw hash tt
      | inr other ↦ rw other (
          if-cases IsRooted (code c == b'?') [] (c ∷ before b'?' rest) (λ _. tt)
            (λ e. ground arith))
    ]

without_params-IsRooted : (s : String) → IsRooted s → IsRooted (without_params s)
unfolding without_params
without_params-IsRooted [] h = tt
without_params-IsRooted (c ∷ s) h = ground arith

before-IsRooted : (ch : ℕ) (s : String) → IsRooted s → IsRooted (before ch s)
unfolding before
before-IsRooted ch [] h = tt
before-IsRooted ch (c ∷ s) h =
    if-cases IsRooted (code c == ch) [] (c ∷ before ch s) (λ _. tt) (λ _. h)

slash_or-IsRooted : (s : String) → IsRooted s → IsRooted (slash_or s)
slash_or-IsRooted [] h = refl
slash_or-IsRooted (c ∷ s) h = h

url_path-IsRooted : (rest : String) → IsRooted (url_path rest)
unfolding url_path
url_path-IsRooted rest =
    without_params-IsRooted _ (before_tail (after_authority rest) (after_authority-IsTail rest))

rooted : (s : String) → IsRooted (if starts_with "/" s then s else "/" ∷ s)
unfolding starts_with
rooted [] = refl
rooted (c ∷ s) = ground arith

-- The character does not occur.
abbrev pub Lacks : ℕ → String → Type 0
Lacks ch [] = Unit
Lacks ch (c ∷ s) = (code c ≢ ch) × Lacks ch s

before-Lacks : (ch : ℕ) (s : String) → Lacks ch (before ch s)
unfolding before
before-Lacks ch [] = tt
before-Lacks ch (c ∷ s) =
    if-cases (Lacks ch) (code c == ch) [] (c ∷ before ch s) (λ _. tt)
      (λ e. (ground arith, before-Lacks ch s))

module _ (netloc_error : String → Option String) where
  path_of_url-IsRooted :
      (rest path : String) → path_of_url netloc_error rest ≡ ok path → IsRooted path
  unfolding path_of_url
  path_of_url-IsRooted rest path h = elim (Option-cases (netloc_error (authority rest))) [
    | inl fine ↦
        let same : ok (slash_or (url_path rest)) ≡ ok path = rw (fine, path_of_url) at h in
        subst IsRooted (cc same) (slash_or-IsRooted _ (url_path-IsRooted rest))
    | inr (reason, e) ↦ ground arith
  ]

  path_of-IsRooted : (raw path : String) → path_of netloc_error raw ≡ ok path → IsRooted path
  unfolding path_of
  path_of-IsRooted raw path h =
      elim (Bool-cases (starts_with "http://" raw || starts_with "https://" raw)) [
        | inl url ↦
            path_of_url-IsRooted (drop_prefix (scheme_of raw) (without_breaks raw)) path
              (rw url at h)
        | inr plain ↦
            let same : ok (if starts_with "/" raw then raw else "/" ∷ raw) ≡ ok path =
              rw plain at h in
            subst IsRooted (cc same) (rooted raw)
      ]

  cut_query-IsRooted :
      (r : Result String) (path : String)
      → ((p : String) → r ≡ ok p → IsRooted p)
      → cut_query r ≡ ok path
      → IsRooted path × Lacks b'?' path
  cut_query-IsRooted (ok p) path h e =
      let same : before b'?' p ≡ path = cc e in
      rw (← same) (before-IsRooted b'?' p (h p refl), before-Lacks b'?' p)
  cut_query-IsRooted (raise x) path h e = cc

  -- Whatever text the client sends, a path that comes back is empty or begins with "/", and holds
  -- no "?".
  pub normalize_rcs_path-IsRooted :
      (path_or_url : String) {path : String}
      → normalize_rcs_path netloc_error path_or_url ≡ ok path
      → IsRooted path × Lacks b'?' path
  unfolding normalize_rcs_path
  normalize_rcs_path-IsRooted p {path} h = elim (Bool-cases (is_empty (strip p))) [
    | inl e ↦
        let same : ok "" ≡ ok path = rw e at h in
        let empty : "" ≡ path = cc same in rw (← empty) (tt, tt)
    | inr e ↦ cut_query-IsRooted _ path (path_of-IsRooted (strip p)) (rw e at h)
  ]

-- A path is let through exactly if it begins with the RCS prefix and holds no "..".
pub validate_rcs_path_iff :
    (path : String)
    → (validate_rcs_path path ≡ ok tt)
      ↔ ((starts_with rcs_path_prefix path ≡ true) × (contains ".." path ≡ false))
unfolding validate_rcs_path
validate_rcs_path_iff path = (λ h. ground arith, λ h. ground arith)
