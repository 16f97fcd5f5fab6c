-- ===== src/Agent/Server.antt =====
-- internal/agent/handler.go, middleware.go and server.go: the handlers, the authentication and the
-- routes of the agent's HTTP server.
pub mod Laws
use cloud_vinyl.Prelude.{
  pos, negsuc, ℕ, zero, suc, ◌+◌, ◌-◌, ◌*◌, ◌/◌, ◌%◌, ◌^◌, ◌≤◌, ◌<◌, ◌≡◌, refl, sym, ap, ◌∙◌, ◌≢◌,
  ◌↔◌, ◌⊎◌, inl, inr, ite, if_pos, if_neg, Bool, true, false, not, ◌&&◌, ◌||◌, Option, none, some,
  List, [], ◌∷◌, ◌++◌, map, append-nil, append_assoc, map-append, arith, ℕ_discrete, ltb, leb, ◌==◌,
  if◌then◌else◌, ltb→lt, leb→le, le→leb, Bool-cases, is_some, Option-cases, ◌>>=◌, if_both, length,
  length-append, keep, length-keep-le, count, count-append, keep-append, keep-length_split, All,
  All-append, elem, Distinct, elem-append, Distinct-snoc, Text, codes, text_dec, text_eq,
  text_eq_refl, text_eq→≡, has_prefix, contains, is_space, is_regexp_space, fields_by, fields,
  trim_left, trim_right, trim_space, is_digit, u64_mod, digits_value, parse_uint, ℤ, i64_max,
  positive_int, atoi, IsToken, fields_by-token, lookup, delete, insert, lookup-delete,
  lookup-insert, lookup-insert_self, lookup-insert_ne, next_digits, digits, printed, decimal,
  IsDigits, decimal-IsDigits, decimal-ne-nil, parse_uint-decimal, atoi-decimal,
}
use cloud_vinyl.Agent.Admin.{
  Varnishd, World, Answer, answered, no_answer, crashes, is_code, AdminError, no_reply, Outcome,
  done, failed, panicked, Active, vcl_inline, send, active_vcl, ban, push_vcl,
}
use cloud_vinyl.Agent.Handler.{
  Request, Json, Response, method_not_allowed, invalid_json, name_and_vcl_required, vcl_required,
  expression_required, keys_required, unauthorized, invalid_token, not_found, redirected,
  call_failed, invalid_vcl, ok_status, alive, metrics, aborted, Handled, of_outcome, of_active,
  of_health, after_prefix, cut_after, purge_keys, asked_keys, of_purges,
}

abbrev method_post : Text
method_post = codes "POST"

abbrev method_get : Text
method_get = codes "GET"

-- varnishd, the hash, the secret and the token of the pod, and package encoding/json.
pub record Agent (S : Type 0) : Type 0 where
  pub varnishd : Varnishd S
  pub sha256_hex : Text → Text
  pub secret : Text
  pub token : Text
  pub json : Json
  -- The status that varnishd answers to a PURGE for a key.
  pub ask : Bool → Text → Option ℕ
  -- `fmt.Sscanf(s, "%d", &line)`, 0 for no number.
  pub scan_number : Text → ℤ
  -- The clean form that net/http redirects a path to.
  pub clean_path : Text → Text

unfoldable pub line_in : (Text → ℤ) → Text → ℤ
unfolding cut_after
line_in scan message = elim (cut_after message (codes "Line ")) [
  | none ↦ pos 0
  | some after ↦ scan after
]

unfoldable pub check_provided : Text → Option Text → Option Response
check_provided token none = some unauthorized
check_provided token (some provided) = if text_eq provided token then none else some invalid_token

-- The token of an `Authorization` header.
unfoldable pub check_bearer : Text → Text → Option Response
unfolding check_provided after_prefix
check_bearer token header = check_provided token (after_prefix header (codes "Bearer "))

abbrev pub respond : {S : Type 0} → Response → World S → Handled S
respond r w = record { response = r; world = w; asked = [] }

module _ {S : Type 0} (a : Agent S) where
  abbrev finish : Outcome × World S → Handled S
  finish (o, w) = respond (of_outcome o) w

  unfoldable pub push_decoded : Option (Text × Text) → World S → Handled S
  unfolding of_outcome
  push_decoded none w = respond invalid_json w
  push_decoded (some (name, vcl)) w =
      if text_eq name [] || text_eq vcl []
      then respond name_and_vcl_required w
      else finish (push_vcl a.varnishd a.sha256_hex a.secret name vcl w)

  unfoldable pub handle_push : Request → World S → Handled S
  unfolding push_decoded
  handle_push r w =
      if not (text_eq r.method method_post)
      then respond method_not_allowed w
      else push_decoded (a.json.decode_push r.body) w

  unfoldable pub validated : Answer × World S → Handled S
  unfolding is_code line_in
  validated (answered code message, w) =
      if is_code code 200
      then respond ok_status w
      else respond (invalid_vcl message (line_in a.scan_number message)) w
  validated (no_answer, w) = respond (call_failed (no_reply [])) w
  validated (crashes, w) = respond aborted w

  unfoldable pub validate_decoded : Text → Option Text → World S → Handled S
  unfolding validated
  validate_decoded temp_name none w = respond invalid_json w
  validate_decoded temp_name (some vcl) w =
      if text_eq vcl []
      then respond vcl_required w
      else validated (send a.varnishd a.sha256_hex a.secret (vcl_inline temp_name vcl) w)

  -- `temp_name` is "validate_<time>".
  unfoldable pub handle_validate : Text → Request → World S → Handled S
  unfolding validate_decoded
  handle_validate temp_name r w =
      if not (text_eq r.method method_post)
      then respond method_not_allowed w
      else validate_decoded temp_name (a.json.decode_validate r.body) w

  unfoldable pub handle_active : Request → World S → Handled S
  unfolding of_active
  handle_active r w =
      if not (text_eq r.method method_get)
      then respond method_not_allowed w
      else (let x = active_vcl a.varnishd a.sha256_hex a.secret w in respond (of_active x.0) x.1)

  unfoldable pub ban_decoded : Option Text → World S → Handled S
  unfolding of_outcome
  ban_decoded none w = respond invalid_json w
  ban_decoded (some expression) w =
      if text_eq expression []
      then respond expression_required w
      else finish (ban a.varnishd a.sha256_hex a.secret expression w)

  unfoldable pub handle_ban : Request → World S → Handled S
  unfolding ban_decoded
  handle_ban r w =
      if not (text_eq r.method method_post)
      then respond method_not_allowed w
      else ban_decoded (a.json.decode_ban r.body) w

  unfoldable pub xkey_decoded : Option (List Text × Bool) → World S → Handled S
  unfolding purge_keys asked_keys of_purges
  xkey_decoded none w = respond invalid_json w
  xkey_decoded (some ([], soft)) w = respond keys_required w
  xkey_decoded (some (key ∷ keys, soft)) w = record {
    response = of_purges (purge_keys a.ask soft (key ∷ keys));
    world = w;
    asked = asked_keys a.ask soft (key ∷ keys);
  }

  unfoldable pub handle_xkey : Request → World S → Handled S
  unfolding xkey_decoded
  handle_xkey r w =
      if not (text_eq r.method method_post)
      then respond method_not_allowed w
      else xkey_decoded (a.json.decode_xkey r.body) w

  unfoldable pub handle_health : World S → Handled S
  unfolding of_health
  handle_health w =
      let x = active_vcl a.varnishd a.sha256_hex a.secret w in respond (of_health x.0) x.1

  -- The routes behind the authentication.
  unfoldable pub authed_mux : Text → Request → World S → Handled S
  unfolding handle_push handle_validate handle_active handle_ban handle_xkey
  authed_mux temp_name r w =
      if text_eq r.path (codes "/vcl/push")
      then handle_push r w
      else if text_eq r.path (codes "/vcl/validate")
      then handle_validate temp_name r w
      else if text_eq r.path (codes "/vcl/active")
      then handle_active r w
      else if text_eq r.path (codes "/ban")
      then handle_ban r w
      else if text_eq r.path (codes "/purge/xkey")
      then handle_xkey r w
      else respond not_found w

  -- `BearerAuthMiddleware`, without paths to skip.
  unfoldable pub bearer_auth : Text → Request → World S → Handled S
  unfolding check_bearer authed_mux
  bearer_auth temp_name r w = elim (check_bearer a.token r.authorization) [
    | some refusal ↦ respond refusal w
    | none ↦ authed_mux temp_name r w
  ]

  abbrev is_authed_path : Text → Bool
  is_authed_path path =
      has_prefix path (codes "/vcl/")
      || text_eq path (codes "/ban")
      || has_prefix path (codes "/purge/")

  -- The routes of the server. A path that is not clean, and a tree without its slash, redirect.
  unfoldable pub serve : Text → Request → World S → Handled S
  unfolding bearer_auth handle_health
  serve temp_name r w =
      if not (text_eq (a.clean_path r.path) r.path)
      then respond redirected w
      else if text_eq r.path (codes "/livez")
      then respond alive w
      else if text_eq r.path (codes "/health")
      then handle_health w
      else if text_eq r.path (codes "/metrics")
      then respond metrics w
      else if is_authed_path r.path
      then bearer_auth temp_name r w
      else if text_eq r.path (codes "/vcl") || text_eq r.path (codes "/purge")
      then respond redirected w
      else respond not_found w
