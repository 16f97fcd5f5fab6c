-- ===== src/Agent/Tests.antt =====
-- Runs of the agent, and its theorems at concrete inputs.
mod Stub
use cloud_vinyl.Prelude.{
  pos, negsuc, ℕ, zero, suc, ◌+◌, ◌-◌, ◌*◌, ◌/◌, ◌%◌, ◌^◌, ◌≤◌, ◌<◌, ◌≡◌, refl, sym, ap, ◌∙◌, ◌≢◌,
  ◌↔◌, ◌⊎◌, inl, inr, ite, if_pos, if_neg, Bool, true, false, not, ◌&&◌, ◌||◌, Option, none, some,
  List, [], ◌∷◌, ◌++◌, map, append-nil, append_assoc, map-append, arith, ℕ_discrete, ltb, leb, ◌==◌,
  if◌then◌else◌, ltb→lt, leb→le, le→leb, Bool-cases, is_some, Option-cases, ◌>>=◌, bind_some,
  if_both, length, length-append, keep, length-keep-le, count, count-append, keep-append,
  keep-length_split, All, All-append, elem, Distinct, elem-append, Distinct-snoc, Text, codes,
  text_dec, text_eq, text_eq_refl, text_eq→≡, has_prefix, contains, is_space, is_regexp_space,
  fields_by, fields, trim_left, trim_right, trim_space, trim_right_start, is_digit, u64_mod,
  digits_value, parse_uint, ℤ, i64_max, positive_int, atoi, IsToken, fields_by-token, lookup,
  delete, insert, lookup-delete, lookup-insert, lookup-insert_self, lookup-insert_ne, next_digits,
  digits, printed, decimal, IsDigits, decimal-IsDigits, decimal-ne-nil, parse_uint-decimal,
  atoi-decimal,
}
use cloud_vinyl.Agent.Protocol.{Read, response, read_response, print_response}
use cloud_vinyl.Agent.Protocol.Laws.{read_response-print_response}
use cloud_vinyl.Agent.VclList.{active_name, split_lines}
use cloud_vinyl.Agent.VclList.Laws.{
  Row, columns, IsColumn, print_rows, active_row, active_name-print_rows,
}
use cloud_vinyl.Agent.Admin.{
  Varnishd, World, vcl_list, vcl_inline, vcl_use, ban_command, named, done, failed, failed_code,
  failure_text, active_vcl, load_vcl, push_vcl,
}
use cloud_vinyl.Agent.Admin.Laws.{Speaks, read_response-printed, push_vcl-active_vcl}
use cloud_vinyl.Agent.Admin.Laws.Sent.{push_vcl-sent}
use cloud_vinyl.Agent.Admin.Injection.{two_line_ban, ban_command-splits}
use cloud_vinyl.Agent.Admin.Duplicate.{push_vcl-duplicate}
use cloud_vinyl.Agent.Handler.{Response, active, Request, Json, running, ok_status, response_code}
use cloud_vinyl.Agent.Server.{Agent, serve, handle_health, handle_push}
use cloud_vinyl.Agent.Server.Laws.{serve-IsHarmless, handle_push-handle_health}
use cloud_vinyl.Proxy.BanExpression.{validate_ban_expression}
use cloud_vinyl.Controller.Convergence.{observed, handle_push-pods_needing_vcl}
use cloud_vinyl.Controller.Peers.{PeerBackend, pods_needing_vcl, observe_vcl_names}
use cloud_vinyl.Controller.Push.{took}
use cloud_vinyl.Controller.AgentClient.{replied, limited, push_reply}
use cloud_vinyl.Agent.Tests.Stub.{
  Daemon, app, daemon_rows, already, daemon, hash, calling_agent, daemon_columns, daemon_speaks,
  booted, loaded, used, Varnish, daemon-Refuses,
}

pushed_app : (push_vcl daemon hash (codes "s") app (codes "vcl 4.1;") booted).0 ≡ done
unfolding calling_agent
pushed_app = refl

push_vcl-active_vcl_example :
    (active_vcl daemon hash
      (codes "s")
      (push_vcl daemon hash (codes "s") app (codes "vcl 4.1;") booted).1).0
    ≡ named app
push_vcl-active_vcl_example =
    push_vcl-active_vcl daemon hash (codes "s") app (codes "vcl 4.1;") daemon_speaks booted
      pushed_app

push_vcl-sent_example :
    (early : List Text) × ((early ≡ []) ⊎ (early ≡ vcl_list ∷ []))
    × ((push_vcl daemon hash (codes "s") app (codes "vcl 4.1;") booted).1.sent
        ≡ (early ++ (vcl_inline app (codes "vcl 4.1;") ∷ [])) ++ (vcl_use app ∷ []))
push_vcl-sent_example =
    push_vcl-sent daemon hash (codes "s") app (codes "vcl 4.1;") booted pushed_app

abbrev loaded_once : World Varnish
loaded_once = record { daemon = (loaded, true); sent = [] }

abbrev quoted : Text → Text
quoted m = b'"' ∷ (m ++ (b'"' ∷ []))

abbrev already_body : Text
already_body = quoted (failure_text (codes "vcl.inline") (pos 106) already)

already_read : contains (limited 4096 already_body) (codes "Already a VCL named") ≡ true
unfolding calling_agent failure_text limited contains has_prefix cloud_vinyl.Agent.Admin.itoa
already_read = refl

app_unused : active_row (daemon_rows loaded) ≢ some app
unfolding text_dec
app_unused = λ e. ground (arith, e)

push_vcl-duplicate_example :
    ((push_vcl daemon hash (codes "s") app (codes "vcl 4.1;") loaded_once).0
      ≡ failed (failed_code (codes "vcl.inline") (pos 106) already))
    × ((active_vcl daemon hash
          (codes "s")
          (push_vcl daemon hash (codes "s") app (codes "vcl 4.1;") loaded_once).1).0
        ≡ (active_vcl daemon hash (codes "s") loaded_once).0)
    × ((active_vcl daemon hash
          (codes "s")
          (push_vcl daemon hash (codes "s") app (codes "vcl 4.1;") loaded_once).1).0
        ≢ named app)
    × (took (push_reply (codes "10.0.0.1") (replied 500 already_body)) ≡ true)
unfolding text_dec daemon_speaks
push_vcl-duplicate_example =
    push_vcl-duplicate daemon hash (codes "s") app (codes "vcl 4.1;") (codes "10.0.0.1") [] quoted
      daemon_speaks daemon-Refuses loaded_once refl app_unused already_read

read_response-print_response_example :
    read_response (print_response 3 200 (codes "boot") ++ codes "107 5")
    ≡ response (pos 200) (codes "boot") (codes "107 5")
read_response-print_response_example =
    read_response-print_response 3 200 (codes "boot") (codes "107 5") (omega arith) (omega arith)

-- Rows of varnishd 8.0 with a label, and how it prints them.
abbrev labelled_rows : List Row
labelled_rows =
    record {
      status = codes "active";
      state = codes "auto";
      temperature = codes "warm";
      busy = codes "0";
      name = codes "boot";
      trailing = codes "<-" ∷ codes "(1" ∷ codes "label)" ∷ [];
      gaps = 5 ∷ 3 ∷ 2 ∷ 2 ∷ 5 ∷ 2 ∷ [];
    }
    ∷ record {
      status = codes "available";
      state = codes "label";
      temperature = codes "warm";
      busy = codes "0";
      name = codes "mylabel";
      trailing = codes "->" ∷ codes "boot" ∷ [];
      gaps = 2 ∷ 2 ∷ 2 ∷ 2 ∷ 2 ∷ 2 ∷ [];
    }
    ∷ []

labelled_text :
    print_rows labelled_rows
    ≡ codes "active      auto    warm   0   boot      <-   (1 label)"
      ++ (10 ∷ (codes "available   label   warm   0   mylabel   ->   boot" ++ (10 ∷ [])))
labelled_text = refl

labelled_columns : All (λ r. All IsColumn (columns r)) labelled_rows
unfolding calling_agent
labelled_columns = ground arith

active_name-print_rows_example : active_name (print_rows labelled_rows) ≡ some (codes "boot")
unfolding calling_agent
active_name-print_rows_example = active_name-print_rows labelled_rows labelled_columns

header_word : IsToken is_regexp_space (codes "X-Site")
unfolding is_regexp_space
header_word = ground arith

stop_word : IsToken is_regexp_space (codes "stop")
unfolding is_regexp_space
stop_word = ground arith

ban_command-splits_example :
    (validate_ban_expression (two_line_ban (codes "X-Site") (codes "stop")) ≡ none)
    × (split_lines (ban_command (two_line_ban (codes "X-Site") (codes "stop")))
        ≡ codes "ban obj.http.X-Site ~" ∷ codes "stop" ∷ [] ∷ [])
unfolding calling_agent cloud_vinyl.Proxy.BanExpression.is_wildcard
ban_command-splits_example =
    ban_command-splits (codes "X-Site") b's' (codes "top") header_word stop_word refl

abbrev plain_json : Json
plain_json = record {
  decode_push = λ body. some (app, body);
  decode_validate = λ body. some body;
  decode_ban = λ body. some body;
  decode_xkey = λ body. some (body ∷ [], false);
}

abbrev pod_agent : Agent Varnish
pod_agent = record {
  varnishd = daemon;
  sha256_hex = hash;
  secret = codes "s";
  token = codes "t0";
  json = plain_json;
  ask = λ soft key. some 200;
  scan_number = λ s. pos 0;
  clean_path = λ path. path;
}

abbrev post_to : Text → Text → Text → Request
post_to path authorization body = record {
  method = codes "POST";
  path = path;
  authorization = authorization;
  body = body;
}

wrong_token : codes "Bearer t1" ≢ codes "Bearer t0"
wrong_token = λ e. ground (arith, e)

abbrev purge_request : Request
purge_request = post_to (codes "/purge/xkey") (codes "Bearer t1") (codes "k")

serve-IsHarmless_example :
    ((serve pod_agent [] purge_request booted).asked ≡ [])
    × (((serve pod_agent [] purge_request booted).world.sent ≡ [])
        ⊎ ((serve pod_agent [] purge_request booted).world.sent ≡ vcl_list ∷ []))
serve-IsHarmless_example = serve-IsHarmless pod_agent [] purge_request booted wrong_token

abbrev push_request : Request
push_request = post_to (codes "/vcl/push") (codes "Bearer t0") (codes "vcl 4.1;")

push_answered : (handle_push pod_agent push_request booted).response ≡ ok_status
unfolding calling_agent handle_push cloud_vinyl.Agent.Server.push_decoded
    cloud_vinyl.Agent.Handler.of_outcome
push_answered = refl

handle_push-handle_health_example :
    (handle_health pod_agent (handle_push pod_agent push_request booted).world).response
    ≡ running app
unfolding calling_agent
handle_push-handle_health_example =
    handle_push-handle_health pod_agent push_request app (codes "vcl 4.1;") daemon_speaks refl refl
      booted push_answered

abbrev encode_name : Response → Text
encode_name (active name) = name
encode_name other = []

abbrev only_pod : PeerBackend
only_pod = record { name = codes "shop-0"; ip = codes "10.0.0.1"; port = 8080 }

abbrev token_secret : List (Text × Text)
token_secret = (codes "agent-token", codes "t0") ∷ []

abbrev read_back : Option Text
read_back =
    observed pod_agent [] encode_name some (codes "prod") token_secret
      (handle_push pod_agent push_request booted).world

handle_push-pods_needing_vcl_example :
    (read_back ≡ some app)
    × (pods_needing_vcl (only_pod ∷ []) (observe_vcl_names (λ ip. read_back) (only_pod ∷ [])) app
        ≡ [])
unfolding lookup text_dec
handle_push-pods_needing_vcl_example =
    handle_push-pods_needing_vcl pod_agent push_request app (codes "vcl 4.1;") daemon_speaks refl []
      encode_name some (codes "prod") token_secret refl refl refl booted push_answered only_pod
