-- ===== src/Tests/LogEvents.antt =====
-- The redaction of a log event on concrete inputs, in lower case.
use robo_control.Prelude.{String, ◌≡◌, refl, some, [], ◌∷◌}
use robo_control.Json.{Json, str, obj, Fields, object}
use robo_control.Logging.{mask, mask_sensitive, add_request_context}
use robo_control.Logging.Redaction.{Unique}
use robo_control.Logging.Secrets.{mask_sensitive_secret}

abbrev lower : String → String
lower s = s

abbrev body : Fields
body = object (("token", str "t") ∷ ("robot", str "R7") ∷ [])

abbrev event_dict : Fields
event_dict = object (("event", str "sent") ∷ ("my_secret_key", str "k") ∷ ("body", obj body) ∷ [])

masked_dict :
    mask_sensitive lower event_dict
    ≡ object (
        ("event", str "sent")
        ∷ ("my_secret_key", mask)
        ∷ ("body", obj (object (("token", mask) ∷ ("robot", str "R7") ∷ [])))
        ∷ [])
unfolding mask_sensitive robo_control.Logging.mask_keys robo_control.Logging.mask_key
    robo_control.Logging.is_sensitive robo_control.Text.contains robo_control.Logging.mask_found
    robo_control.Json.find robo_control.Logging.set robo_control.Logging.mask_dict
    robo_control.Logging.mask_into
masked_dict = refl

-- Dicts in a list keep their secrets.
secret_in_list :
    mask_sensitive lower
      (object (("items", Json.arr (robo_control.Json.cons (obj body) robo_control.Json.nil)) ∷ []))
    ≡ object (("items", Json.arr (robo_control.Json.cons (obj body) robo_control.Json.nil)) ∷ [])
unfolding mask_sensitive robo_control.Logging.mask_keys robo_control.Logging.mask_key
    robo_control.Logging.is_sensitive robo_control.Text.contains robo_control.Logging.mask_found
    robo_control.Json.find
secret_in_list = refl

with_request_id :
    add_request_context (some "r1") (some "t1") (object (("trace_id", str "own") ∷ []))
    ≡ object (("trace_id", str "own") ∷ ("request_id", str "r1") ∷ [])
unfolding add_request_context robo_control.Logging.add_if_set robo_control.Logging.setdefault
    robo_control.Json.find robo_control.Logging.set
with_request_id = refl

unique : Unique event_dict
unfolding Unique
unique = (refl, tt, (refl, tt, (refl, (refl, tt, (refl, tt, tt)), tt)))

mask_sensitive_secret_example : mask ≡ mask
unfolding robo_control.Logging.is_sensitive robo_control.Logging.Secrets.walk robo_control.Json.find
    mask_sensitive robo_control.Logging.mask_keys robo_control.Logging.mask_key
    robo_control.Text.contains robo_control.Logging.mask_found robo_control.Logging.set
    robo_control.Logging.mask_dict robo_control.Logging.mask_into
mask_sensitive_secret_example =
    mask_sensitive_secret lower event_dict unique "body" ("token" ∷ []) mask refl refl
