-- ===== src/RcsSubmit/Address.antt =====
-- The address that the preview shows is the one that the client sends to.
use Prim.Native.Char.{code}
use Prim.Native.String.{[], ◌∷◌}
use Prim.Native.String
use text.Mathlib.TextLemmas.{nil-append, cons-append, append-nil, append_assoc}
use robo_control.Prelude.{String, ◌≡◌, refl, sym, ◌∙◌, Bool, true, false, ◌&&◌, ◌==◌}
use robo_control.Text.{is_empty, rstrip_slash}
use robo_control.Json.{ℤ}
use robo_control.Json.Print.{print_int, print_int-not-empty}
use robo_control.Json.Print.NoSlash.{print_int-rstrip_slash}
use robo_control.Errors.{ok}
use robo_control.Redis
use robo_control.Redis.Keys.{sysconfig_key}
use robo_control.World.{Env, World, pure}
use robo_control.World.Rules.{bind-ok}
use robo_control.Client.Request.{full_url}
use robo_control.Config.{get_connection_settings}
use robo_control.Config.Connection.{Holds, connection, get_connection_settings-held, url_of_held}
use robo_control.RcsSubmit.Preview.{RcsSubmitPreviewData, default_submit_path, preview_of, preview}

and-false : (b : Bool) → b && false ≡ false
and-false true = refl
and-false false = refl

append-not-empty : (s t : String) → is_empty t ≡ false → is_empty (String.◌++◌ s t) ≡ false
append-not-empty [] t filled = rw (nil-append t) filled
append-not-empty (c ∷ s) t filled = rw (cons-append c s t) refl

-- A text that keeps its end when slashes are stripped keeps it behind any other text.
rstrip_slash-append :
    (s t : String)
    → is_empty t ≡ false
    → rstrip_slash t ≡ t
    → rstrip_slash (String.◌++◌ s t) ≡ String.◌++◌ s t
unfolding rstrip_slash
rstrip_slash-append [] t filled kept = rw (nil-append t) kept
rstrip_slash-append (c ∷ s) t filled kept =
    rw
      (
        cons-append c s t,
        rstrip_slash-append s t filled kept,
        append-not-empty s t filled,
        and-false (code c == b'/'),
      )
      refl

-- The address ends in the port, so that no slash is stripped from it.
kept_behind :
    (a b c p : String)
    → is_empty p ≡ false
    → rstrip_slash p ≡ p
    → rstrip_slash (String.◌++◌ a (String.◌++◌ b (String.◌++◌ c (String.◌++◌ p ""))))
      ≡ String.◌++◌ a (String.◌++◌ b (String.◌++◌ c p))
kept_behind a b c p filled kept =
    let cp = String.◌++◌ c p in
    let bcp = String.◌++◌ b cp in
    let filled_cp = append-not-empty c p filled in
    let kept_cp = rstrip_slash-append c p filled kept in
    rw (append-nil p) (
      rstrip_slash-append a bcp (append-not-empty b cp filled_cp)
        (rstrip_slash-append b cp filled_cp kept_cp))

address-rstrip_slash :
    (ip path : String) (port : ℤ)
    → String.◌++◌
        (rstrip_slash (
          String.◌++◌ "http://"
            (String.◌++◌ ip (String.◌++◌ ":" (String.◌++◌ (print_int port) "")))))
        (String.◌++◌ path "")
      ≡ String.◌++◌ "http://"
          (String.◌++◌ ip (String.◌++◌ ":" (String.◌++◌ (print_int port) (String.◌++◌ path ""))))
address-rstrip_slash ip path port =
    rw
      (
        kept_behind "http://" ip ":" (print_int port) (print_int-not-empty port)
            (print_int-rstrip_slash port),
        append_assoc,
        append_assoc,
        append_assoc,
      )
      refl

module _ (env : Env) where
  -- When Redis holds a non-empty address and a port, the preview returns, changes nothing, and shows the URL to which the client sends a request for the path that the preview shows.
  pub preview-full_url :
      (ip : String) (port : ℤ) (w : World)
      → is_empty ip ≡ false
      → Holds env ip port w
      → (shown : RcsSubmitPreviewData) × (preview env w ≡ (ok shown, w))
        × (full_url env
              (Redis.get w.now (sysconfig_key "rcs_ip") w.redis)
              (Redis.get w.now (sysconfig_key "rcs_port") w.redis)
              shown.path
            ≡ shown.full_url_without_sign)
  unfolding preview
  preview-full_url ip port w filled held = (
    preview_of (connection env ip port),
    bind-ok (get_connection_settings env) (λ conn. pure (preview_of conn)) w w
        (connection env ip port) (get_connection_settings-held env ip port w filled held),
    url_of_held env ip port default_submit_path w filled held
        ∙ sym (address-rstrip_slash ip default_submit_path port),
  )
