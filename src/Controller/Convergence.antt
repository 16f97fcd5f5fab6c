-- ===== src/Controller/Convergence.antt =====
-- A push from the controller to an agent and what the controller then observes: vcl_push.go and
-- agent_client.go of internal/controller, with the server of internal/agent. `encode` is what the
-- agent writes of a response, `decode` the field `name` that the controller reads of it.
use cloud_vinyl.Prelude.{
  ℕ, ◌≡◌, refl, ap, ◌∙◌, not, Option, none, some, List, [], ◌∷◌, ◌++◌, ℕ_discrete, keep, Text,
  codes, text_dec, text_eq, text_eq_refl, has_prefix, lookup,
}
use cloud_vinyl.Agent.Admin.{World, named, active_vcl}
use cloud_vinyl.Agent.Admin.Laws.{Speaks}
use cloud_vinyl.Agent.Handler.{Request, Response, active, ok_status, response_code, of_active}
use cloud_vinyl.Agent.Server.{Agent, bearer_auth, authed_mux, handle_active, handle_push, serve}
use cloud_vinyl.Agent.Server.Laws.{check_bearer_lem, handle_push-active_vcl}
use cloud_vinyl.Controller.AgentClient.{
  Replied, replied, send_error, secret_data, token_of, read_token, name_in, name_with,
  active_vcl_name,
}
use cloud_vinyl.Controller.Peers.{PeerBackend, pods_needing_vcl, observe_vcl_names, answer_of}
use cloud_vinyl.Controller.Push.{pods_needing_vcl-observe_vcl_names}

-- The request of `ActiveVCLName`.
abbrev pub get_active : Text → Request
get_active authorization = record {
  method = codes "GET";
  path = codes "/vcl/active";
  authorization = authorization;
  body = [];
}

-- A response on the wire; a panic closes the connection.
abbrev pub with_status : Option ℕ → Text → Replied
with_status none body = send_error []
with_status (some status) body = replied status body

abbrev pub on_wire : (Response → Text) → Response → Replied
on_wire encode r = with_status (response_code r) (encode r)

module _ {S : Type 0} (a : Agent S) where
  -- What `ActiveVCLName` reads of the agent in the state `w`.
  abbrev pub observed :
      Text
      → (Response → Text)
      → (Text → Option Text)
      → Text
      → List (Text × Text)
      → World S
      → Option Text
  observed temp_name encode decode place secret w =
      active_vcl_name decode place (secret_data secret)
        (λ authorization. on_wire encode (serve a temp_name (get_active authorization) w).response)

  served_active :
      (temp_name : Text) (w : World S)
      → a.clean_path (codes "/vcl/active") ≡ codes "/vcl/active"
      → (serve a temp_name (get_active (codes "Bearer " ++ a.token)) w).response
        ≡ of_active (active_vcl a.varnishd a.sha256_hex a.secret w).0
  unfolding serve bearer_auth authed_mux handle_active text_dec ℕ_discrete has_prefix
  served_active temp_name w clean =
      rw (clean, (check_bearer_lem a.token (codes "Bearer " ++ a.token)).1 refl, bearer_auth) refl

  observed_name_of :
      (temp_name : Text) (encode : Response → Text) (decode : Text → Option Text) (place : Text)
      (secret : List (Text × Text)) (w : World S) (name : Text)
      → a.clean_path (codes "/vcl/active") ≡ codes "/vcl/active"
      → decode (encode (active name)) ≡ some name
      → lookup text_dec (codes "agent-token") secret ≡ some a.token
      → (active_vcl a.varnishd a.sha256_hex a.secret w).0 ≡ named name
      → observed temp_name encode decode place secret w ≡ some name
  unfolding active_vcl_name read_token token_of name_with name_in of_active response_code
  observed_name_of temp_name encode decode place secret w name clean json t e =
      rw (t, served_active temp_name w clean, e) json

  -- A push that the agent answered "ok" is observed: with a varnishd that speaks the documented
  -- protocol, the controller, which has the token of the pod and decodes the name that the agent
  -- encodes, reads the pushed name from the agent, so that the pod is no target of the next push of
  -- that VCL.
  pub handle_push-pods_needing_vcl :
      (r : Request) (name vcl : Text)
      → Speaks a.varnishd a.sha256_hex a.secret name
      → a.json.decode_push r.body ≡ some (name, vcl)
      → (temp_name : Text) (encode : Response → Text) (decode : Text → Option Text) (place : Text)
        (secret : List (Text × Text))
      → a.clean_path (codes "/vcl/active") ≡ codes "/vcl/active"
      → decode (encode (active name)) ≡ some name
      → lookup text_dec (codes "agent-token") secret ≡ some a.token
      → (w : World S) → (handle_push a r w).response ≡ ok_status
      → (pod : PeerBackend)
      → let read = observed temp_name encode decode place secret (handle_push a r w).world in
        (read ≡ some name)
        × (pods_needing_vcl (pod ∷ []) (observe_vcl_names (λ ip. read) (pod ∷ [])) name ≡ [])
  unfolding answer_of
  handle_push-pods_needing_vcl r name vcl p d temp_name encode decode place secret clean json t w ok
        pod =
      let done_ =
        observed_name_of temp_name encode decode place secret (handle_push a r w).world name clean
          json t (handle_push-active_vcl a r name vcl p d w ok) in
      let read = observed temp_name encode decode place secret (handle_push a r w).world in
      (
        done_,
        pods_needing_vcl-observe_vcl_names (λ ip. read) (pod ∷ []) name
            ∙ ap (λ o. keep (λ q. not (text_eq (answer_of o) name)) (pod ∷ [])) done_
            ∙ rw (text_eq_refl name) refl,
      )
