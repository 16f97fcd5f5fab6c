-- ===== src/Agent/Admin.antt =====
-- internal/agent/admin.go: the client of varnishd's admin protocol. varnishd itself, the hash and
-- the time are parameters. Every command opens a connection of its own; what varnishd is told
-- behind the authentication is recorded in order.
pub mod Laws
pub mod Injection
pub mod Duplicate
use cloud_vinyl.Prelude.{
  pos, negsuc, ℕ, zero, suc, ◌+◌, ◌-◌, ◌*◌, ◌/◌, ◌%◌, ◌^◌, ◌≤◌, ◌<◌, ◌≡◌, refl, sym, ap, ◌∙◌, ◌≢◌,
  ◌↔◌, ◌⊎◌, inl, inr, ite, if_pos, if_neg, Bool, true, false, not, ◌&&◌, ◌||◌, Option, none, some,
  List, [], ◌∷◌, ◌++◌, map, append-nil, append_assoc, map-append, arith, ℕ_discrete, ltb, leb, ◌==◌,
  if◌then◌else◌, ltb→lt, leb→le, le→leb, Bool-cases, is_some, Option-cases, ◌>>=◌, length,
  length-append, keep, length-keep-le, count, count-append, keep-append, keep-length_split, All,
  All-append, elem, Distinct, elem-append, Distinct-snoc, Text, codes, text_dec, text_eq,
  has_prefix, contains, is_space, is_regexp_space, fields_by, fields, trim_left, trim_right,
  trim_space, is_digit, u64_mod, digits_value, parse_uint, ℤ, i64_max, positive_int, atoi, IsToken,
  fields_by-token, lookup, delete, insert, lookup-delete, lookup-insert, lookup-insert_self,
  lookup-insert_ne, next_digits, digits, printed, decimal, IsDigits, decimal-IsDigits,
  decimal-ne-nil, parse_uint-decimal, atoi-decimal,
}
use cloud_vinyl.Agent.Protocol.{Read, response, malformed, panics, read_response}
use cloud_vinyl.Agent.VclList.{split_lines, active_name}

-- varnishd at the other end: the banner that a new connection reads, and what it answers to the
-- bytes that the client writes; `none` for an error of the network.
pub record Varnishd (S : Type 0) : Type 0 where
  pub dial : S → Option Text
  pub hear : S → Text → Option (Text × S)

pub record World (S : Type 0) : Type 0 where
  pub daemon : S
  pub sent : List Text

pub data Connection : Type 0 where
  connected : Text → Connection
  unreachable panicking : Connection

-- The code and the body of an answer, an error, or a panic of the client.
pub data Answer : Type 0 where
  answered : ℤ → Text → Answer
  no_answer crashes : Answer

unfoldable pub is_code : ℤ → ℕ → Bool
is_code (pos n) k = n == k
is_code (negsuc n) k = false

unfoldable pub first_line : List Text → Text
first_line [] = []
first_line (line ∷ lines) = line

-- The challenge in the banner's body.
unfoldable pub challenge_of : Text → Text
unfolding first_line split_lines
challenge_of body = trim_space (first_line (split_lines (trim_space body)))

unfoldable pub answer_of : Read → Answer
answer_of (response code body rest) = answered code body
answer_of malformed = no_answer
answer_of panics = crashes

-- The payloads.
unfoldable pub command : Text → Text → Text
command verb operand = verb ++ (b' ' ∷ (operand ++ (10 ∷ [])))

abbrev pub vcl_list : Text
vcl_list = codes "vcl.list" ++ (10 ∷ [])

unfoldable pub vcl_inline : Text → Text → Text
vcl_inline name vcl =
    codes "vcl.inline "
    ++ (name ++ (codes " << EOF" ++ (10 ∷ (vcl ++ (10 ∷ (codes "EOF" ++ (10 ∷ [])))))))

unfoldable pub vcl_use : Text → Text
unfolding command
vcl_use name = command (codes "vcl.use") name

unfoldable pub vcl_discard : Text → Text
unfolding command
vcl_discard name = command (codes "vcl.discard") name

unfoldable pub ban_command : Text → Text
unfolding command
ban_command expression = command (codes "ban") expression

-- Why a call failed: no answer to a command, or one with another code than 200.
pub data AdminError : Type 0 where
  no_reply : Text → AdminError
  failed_code : Text → ℤ → Text → AdminError

unfoldable pub itoa : ℤ → Text
itoa (pos n) = decimal n
itoa (negsuc n) = b'-' ∷ decimal (suc n)

-- "%s failed (code %d): %s"
unfoldable pub failure_text : Text → ℤ → Text → Text
unfolding itoa
failure_text verb code message =
    verb ++ (codes " failed (code " ++ (itoa code ++ (codes "): " ++ message)))

pub data Outcome : Type 0 where
  done : Outcome
  failed : AdminError → Outcome
  panicked : Outcome

unfoldable pub outcome_of : Text → Answer → Outcome
unfolding is_code
outcome_of verb (answered code body) =
    if is_code code 200 then done else failed (failed_code verb code body)
outcome_of verb no_answer = failed (no_reply verb)
outcome_of verb crashes = panicked

-- `ActiveVCL`: the name, an error, or a panic.
pub data Active : Type 0 where
  named : Text → Active
  unknown broken : Active

unfoldable pub active_of : Answer → Active
unfolding is_code active_name
active_of (answered code body) =
    if is_code code 200
    then elim (active_name body) [ some name ↦ named name | none ↦ unknown ]
    else unknown
active_of no_answer = unknown
active_of crashes = broken

-- The VCL to discard later: the one that was active, if it is another one.
unfoldable pub superseded : Active → Text → Option Text
superseded (named old) name =
    if not (text_eq old []) && not (text_eq old name) then some old else none
superseded unknown name = none
superseded broken name = none

module _ {S : Type 0} (v : Varnishd S) (sha256_hex : Text → Text) (secret : Text) where
  unfoldable pub auth_line : Text → Text
  unfolding command
  auth_line challenge =
      command (codes "auth") (sha256_hex (challenge ++ (10 ∷ (secret ++ (challenge ++ (10 ∷ []))))))

  -- A write and the response, read behind what is still unread.
  unfoldable pub talk : Text → Text → S → Option (Read × S)
  talk unread payload s =
      v.hear s payload >>= λ heard. some (read_response (unread ++ heard.0), heard.1)

  unfoldable pub authenticated : Option (Read × S) → S → Connection × S
  unfolding is_code
  authenticated none s = (unreachable, s)
  authenticated (some (response code body rest, s')) s =
      if is_code code 200 then (connected rest, s') else (unreachable, s')
  authenticated (some (malformed, s')) s = (unreachable, s')
  authenticated (some (panics, s')) s = (panicking, s')

  unfoldable pub greet : Read → S → Connection × S
  unfolding talk auth_line authenticated challenge_of is_code
  greet (response code body rest) s =
      if is_code code 107
      then authenticated (talk rest (auth_line (challenge_of body)) s) s
      else (unreachable, s)
  greet malformed s = (unreachable, s)
  greet panics s = (panicking, s)

  unfoldable pub connect : S → Connection × S
  unfolding greet
  connect s = elim (v.dial s) [
    | none ↦ (unreachable, s)
    | some banner ↦ greet (read_response banner) s
  ]

  unfoldable pub reply : Option (Read × S) → Text → World S → Answer × World S
  unfolding answer_of
  reply none payload w = (no_answer, w)
  reply (some (r, s)) payload w =
      (answer_of r, record { daemon = s; sent = w.sent ++ (payload ∷ []) })

  unfoldable pub send_on : Connection × S → Text → World S → Answer × World S
  unfolding talk reply
  send_on (connected unread, s) payload w =
      reply (talk unread payload s) payload (record { daemon = s; sent = w.sent })
  send_on (unreachable, s) payload w = (no_answer, record { daemon = s; sent = w.sent })
  send_on (panicking, s) payload w = (crashes, record { daemon = s; sent = w.sent })

  -- `sendCommand` and `sendInlineVCL`, which differ in the payload.
  unfoldable pub send : Text → World S → Answer × World S
  unfolding connect send_on
  send payload w = send_on (connect w.daemon) payload w

  unfoldable pub active_vcl : World S → Active × World S
  unfolding send active_of
  active_vcl w = let r = send vcl_list w in (active_of r.0, r.1)

  unfoldable pub ban : Text → World S → Outcome × World S
  unfolding send outcome_of
  ban expression w = let r = send (ban_command expression) w in (outcome_of (codes "ban") r.0, r.1)

  unfoldable pub discard_vcl : Text → World S → Outcome × World S
  unfolding send outcome_of
  discard_vcl name w =
      let r = send (vcl_discard name) w in (outcome_of (codes "vcl.discard") r.0, r.1)

  unfoldable pub use_vcl : Outcome × World S → Text → Outcome × World S
  unfolding send outcome_of
  use_vcl (done, w) name = let r = send (vcl_use name) w in (outcome_of (codes "vcl.use") r.0, r.1)
  use_vcl (failed e, w) name = (failed e, w)
  use_vcl (panicked, w) name = (panicked, w)

  unfoldable pub load_vcl : Active × World S → Text → Text → Outcome × World S
  unfolding send outcome_of
  load_vcl (broken, w) name vcl = (panicked, w)
  load_vcl (named old, w) name vcl =
      let r = send (vcl_inline name vcl) w in (outcome_of (codes "vcl.inline") r.0, r.1)
  load_vcl (unknown, w) name vcl =
      let r = send (vcl_inline name vcl) w in (outcome_of (codes "vcl.inline") r.0, r.1)

  -- `PushVCL`, up to its return.
  unfoldable pub push_vcl : Text → Text → World S → Outcome × World S
  unfolding active_vcl load_vcl use_vcl
  push_vcl name vcl w = use_vcl (load_vcl (active_vcl w) name vcl) name

  -- What a successful `PushVCL` discards five seconds later.
  unfoldable pub discards_later : Text → World S → Option Text
  unfolding active_vcl superseded
  discards_later name w = superseded (active_vcl w).0 name
