-- ===== src/Controller/AgentClient.antt =====
-- internal/controller/agent_client.go: what the controller makes of an agent's response. The
-- Secret, the transport and package encoding/json are parameters.
use cloud_vinyl.Prelude.{
  ℕ, zero, suc, ◌≡◌, true, false, ◌||◌, Option, none, some, List, [], ◌∷◌, ◌++◌, arith, ◌==◌,
  if◌then◌else◌, Text, codes, text_dec, contains, lookup, decimal,
}
use cloud_vinyl.Controller.Push.{PushReply, pushed, push_error, took}

-- The Secret with the token: its data, or the error of reading it.
pub data Secret : Type 0 where
  secret_data : List (Text × Text) → Secret
  secret_error : Text → Secret

pub data Token : Type 0 where
  token : Text → Token
  no_token : Text → Token

-- A response with its status and body, or the error of sending.
pub data Replied : Type 0 where
  replied : ℕ → Text → Replied
  send_error : Text → Replied

unfoldable pub token_of : Text → Option Text → Token
token_of place (some t) = token t
token_of place none =
    no_token (codes "agent secret " ++ (place ++ codes " missing 'agent-token' key"))

-- `readToken`; `place` is "<namespace>/cloud-vinyl-agent-token".
unfoldable pub read_token : Text → Secret → Token
unfolding token_of
read_token place (secret_data d) = token_of place (lookup text_dec (codes "agent-token") d)
read_token place (secret_error e) =
    no_token (codes "reading agent secret " ++ (place ++ (codes ": " ++ e)))

-- `io.LimitReader`
unfoldable pub limited : ℕ → Text → Text
limited zero s = []
limited (suc n) [] = []
limited (suc n) (c ∷ s) = c ∷ limited n s

unfoldable pub push_reply : Text → Replied → PushReply
unfolding limited
push_reply pod_ip (replied status body) =
    if status == 200 || status == 201 || status == 204
    then pushed
    else push_error
        (codes "agent push returned HTTP " ++ (decimal status ++ (codes ": " ++ limited 4096 body)))
push_reply pod_ip (send_error e) =
    push_error (codes "sending push request to " ++ (pod_ip ++ (codes ": " ++ e)))

unfoldable pub push_with : Text → Token → (Text → Replied) → PushReply
unfolding push_reply
push_with pod_ip (token t) post = push_reply pod_ip (post (codes "Bearer " ++ t))
push_with pod_ip (no_token e) post = push_error e

-- `PushVCL`; `post` sends the request with the given Authorization header.
unfoldable pub client_push_vcl : Text → Secret → Text → (Text → Replied) → PushReply
unfolding read_token push_with
client_push_vcl place secret pod_ip post = push_with pod_ip (read_token place secret) post

unfoldable pub name_in : (Text → Option Text) → Replied → Option Text
name_in decode (replied status body) = if status == 200 then decode body else none
name_in decode (send_error e) = none

unfoldable pub name_with : (Text → Option Text) → Token → (Text → Replied) → Option Text
unfolding name_in
name_with decode (token t) get = name_in decode (get (codes "Bearer " ++ t))
name_with decode (no_token e) get = none

-- `ActiveVCLName`; `decode` reads the field `name`, and an error is `none`.
unfoldable pub active_vcl_name :
    (Text → Option Text) → Text → Secret → (Text → Replied) → Option Text
unfolding read_token name_with
active_vcl_name decode place secret get = name_with decode (read_token place secret) get

contains-append : (s t p : Text) → contains t p ≡ true → contains (s ++ t) p ≡ true
unfolding contains
contains-append [] t p h = h
contains-append (c ∷ s) t p h = ground (arith, contains-append s t p h)

-- An agent that refuses is counted as carrying the VCL when the start of its body says so.
pub push_reply-took :
    (pod_ip body : Text) (status : ℕ)
    → (status == 200 || status == 201 || status == 204) ≡ false
    → contains (limited 4096 body) (codes "Already a VCL named") ≡ true
    → took (push_reply pod_ip (replied status body)) ≡ true
unfolding took push_reply
push_reply-took pod_ip body status no_ h = rw (no_) (
    contains-append (codes "agent push returned HTTP ")
      (decimal status ++ (codes ": " ++ limited 4096 body)) (codes "Already a VCL named")
      (contains-append (decimal status) (codes ": " ++ limited 4096 body)
        (codes "Already a VCL named")
        (contains-append (codes ": ") (limited 4096 body) (codes "Already a VCL named") h)))
