-- ===== src/Agent/Handler.antt =====
-- internal/agent/handler.go, middleware.go, server.go and xkey.go: the agent's HTTP server. The
-- decoding of JSON, the clean form of a path, varnishd and the answers to a PURGE are parameters.
use cloud_vinyl.Prelude.{
  ℕ, suc, Bool, ◌||◌, Option, none, some, List, [], ◌∷◌, ◌==◌, if◌then◌else◌, Text, codes, text_eq,
  ℤ,
}
use cloud_vinyl.Agent.Admin.{
  World, AdminError, Outcome, done, failed, panicked, Active, named, unknown, broken,
}

pub record Request : Type 0 where
  pub method : Text
  pub path : Text
  pub authorization : Text
  pub body : Text

-- The decoded bodies; `none` for what does not parse.
pub record Json : Type 0 where
  pub decode_push : Text → Option (Text × Text)
  pub decode_validate : Text → Option Text
  pub decode_ban : Text → Option Text
  pub decode_xkey : Text → Option (List Text × Bool)

pub data Response : Type 0 where
  method_not_allowed invalid_json name_and_vcl_required vcl_required expression_required : Response
  keys_required unauthorized invalid_token not_found redirected : Response
  call_failed : AdminError → Response
  no_active_vcl : Response
  purge_failed : Text → Response
  invalid_vcl : Text → ℤ → Response
  ok_status alive metrics : Response
  active : Text → Response
  purged : ℕ → Response
  not_responding waiting_for_push : Response
  running : Text → Response
  -- A panic: net/http closes the connection.
  aborted : Response

unfoldable pub response_code : Response → Option ℕ
response_code method_not_allowed = some 405
response_code unauthorized = some 401
response_code invalid_token = some 401
response_code not_found = some 404
response_code redirected = some 301
response_code (call_failed e) = some 500
response_code no_active_vcl = some 500
response_code (purge_failed key) = some 500
response_code ok_status = some 200
response_code alive = some 200
response_code metrics = some 200
response_code (active name) = some 200
response_code (purged n) = some 200
response_code not_responding = some 503
response_code waiting_for_push = some 503
response_code (running name) = some 200
response_code aborted = none
response_code _ = some 400

-- The response, varnishd and what it was told, and the keys that a PURGE was sent for.
pub record Handled (S : Type 0) : Type 0 where
  pub response : Response
  pub world : World S
  pub asked : List Text

unfoldable pub of_outcome : Outcome → Response
of_outcome done = ok_status
of_outcome (failed e) = call_failed e
of_outcome panicked = aborted

unfoldable pub of_active : Active → Response
of_active (named name) = active name
of_active unknown = no_active_vcl
of_active broken = aborted

unfoldable pub of_health : Active → Response
of_health (named name) = if text_eq name (codes "boot") then waiting_for_push else running name
of_health unknown = not_responding
of_health broken = aborted

-- What follows a prefix.
unfoldable pub after_prefix : Text → Text → Option Text
after_prefix s [] = some s
after_prefix [] (b ∷ p) = none
after_prefix (a ∷ s) (b ∷ p) = if a == b then after_prefix s p else none

-- `strings.Cut(s, sep)`: what follows the first `sep`.
unfoldable pub cut_after : Text → Text → Option Text
unfolding after_prefix
cut_after [] sep = after_prefix [] sep
cut_after (c ∷ s) sep = elim (after_prefix (c ∷ s) sep) [
  | some after ↦ some after
  | none ↦ cut_after s sep
]

pub data Purges : Type 0 where
  all_sent : ℕ → Purges
  stopped_at : Text → Purges

unfoldable pub took_purge : ℕ → Bool
took_purge status = status == 200 || status == 204

-- `XkeyPurger.Purge`; `ask soft key` is the status of the PURGE for a key.
module _ (ask : Bool → Text → Option ℕ) (soft : Bool) where
  unfoldable pub purge_keys : List Text → Purges
  unfolding took_purge
  purge_keys [] = all_sent 0
  purge_keys (key ∷ keys) = elim (ask soft key) [
    | none ↦ stopped_at key
    | some status ↦ elim (purge_keys keys) [
      | stopped_at k ↦ stopped_at k
      | all_sent n ↦ all_sent (if took_purge status then suc n else n)
    ]
  ]

  -- The keys that a PURGE went out for.
  unfoldable pub asked_keys : List Text → List Text
  asked_keys [] = []
  asked_keys (key ∷ keys) = elim (ask soft key) [
    | none ↦ key ∷ []
    | some status ↦ key ∷ asked_keys keys
  ]

unfoldable pub of_purges : Purges → Response
of_purges (all_sent n) = purged n
of_purges (stopped_at key) = purge_failed key
