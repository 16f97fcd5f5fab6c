-- ===== src/Agent/Admin/Laws.antt =====
-- The admin client with a varnishd that speaks the documented protocol.
pub mod Sent
use cloud_vinyl.Prelude.{
  pos, negsuc, ℕ, zero, suc, ◌+◌, ◌-◌, ◌*◌, ◌/◌, ◌%◌, ◌^◌, ◌≤◌, ◌<◌, ◌≡◌, refl, sym, ap, ◌∙◌, ◌≢◌,
  ◌↔◌, ◌⊎◌, inl, inr, ite, if_pos, if_neg, Bool, true, false, not, ◌&&◌, ◌||◌, Option, none, some,
  List, [], ◌∷◌, ◌++◌, map, append-nil, append_assoc, map-append, arith, ℕ_discrete, ltb, leb, ◌==◌,
  if◌then◌else◌, ltb→lt, leb→le, le→leb, Bool-cases, is_some, Option-cases, ◌>>=◌, bind_some,
  if_both, length, length-append, keep, length-keep-le, count, count-append, keep-append,
  keep-length_split, All, All-append, elem, Distinct, elem-append, Distinct-snoc, Text, codes,
  text_dec, text_eq, text_eq_refl, text_eq→≡, has_prefix, contains, is_space, is_regexp_space,
  fields_by, fields, trim_left, trim_right, trim_space, is_digit, u64_mod, digits_value, parse_uint,
  ℤ, i64_max, positive_int, atoi, IsToken, fields_by-token, lookup, delete, insert, lookup-delete,
  lookup-insert, lookup-insert_self, lookup-insert_ne, next_digits, digits, printed, decimal,
  IsDigits, decimal-IsDigits, decimal-ne-nil, parse_uint-decimal, atoi-decimal,
}
use cloud_vinyl.Agent.Protocol.{Read, response, malformed, panics, read_response, print_response}
use cloud_vinyl.Agent.Protocol.Laws.{read_response-print_response}
use cloud_vinyl.Agent.VclList.{active_name}
use cloud_vinyl.Agent.VclList.Laws.{
  Row, columns, IsColumn, print_rows, active_row, active_name-print_rows,
}
use cloud_vinyl.Agent.Admin.{
  Varnishd, World, Connection, connected, unreachable, panicking, Answer, answered, no_answer,
  crashes, is_code, challenge_of, answer_of, vcl_list, vcl_inline, vcl_use, Outcome, done, failed,
  panicked, outcome_of, Active, named, unknown, broken, active_of, auth_line, talk, authenticated,
  greet, connect, reply, send_on, send, active_vcl, use_vcl, load_vcl, push_vcl,
}

pub read_response-printed :
    (padding code : ℕ) (body : Text)
    → code ≤ i64_max
    → length body < i64_max
    → read_response (print_response padding code body) ≡ response (pos code) body []
read_response-printed padding code body hc hb =
    ap read_response (sym (append-nil (print_response padding code body)))
    ∙ read_response-print_response padding code body [] hc hb

outcome_of-done :
    (verb : Text) (r : Read)
    → outcome_of verb (answer_of r) ≡ done
    → (body : Text) × (rest : Text) × (r ≡ response (pos 200) body rest)
unfolding outcome_of answer_of is_code
outcome_of-done verb (response (pos n) body rest) h = (body, rest, ground (arith, h))
outcome_of-done verb (response (negsuc n) body rest) h = absurd (ground (arith, h))
outcome_of-done verb malformed h = absurd (ground (arith, h))
outcome_of-done verb panics h = absurd (ground (arith, h))

abbrev pub named_or_unknown : Option Text → Active
named_or_unknown none = unknown
named_or_unknown (some n) = named n

active_of-print_rows :
    (body : Text) (o : Option Text)
    → active_name body ≡ o
    → active_of (answered (pos 200) body) ≡ named_or_unknown o
unfolding active_of is_code
active_of-print_rows body none e = rw (e) refl
active_of-print_rows body (some n) e = rw (e) refl

module _ {S : Type 0} (v : Varnishd S) (sha256_hex : Text → Text) (secret : Text) where
  -- An answer of varnishd that leaves the list of its VCLs.
  pub record Answers (rows : S → List Row) (s : S) (line : Text) (code : ℕ) (body : Text)
      : Type 0 where
    pub padding : ℕ
    pub later : S
    pub hears : v.hear s line ≡ some (print_response padding code body, later)
    pub fits : length body < i64_max
    pub kept : rows later ≡ rows s

  -- The documented protocol: a banner with the code 107, which may be another one for every
  -- connection; the authentication by its challenge; a list of rows, one for each VCL; and that
  -- the VCL `name` is active once a vcl.use of it was answered with the code 200. Neither the
  -- authentication nor the listing changes the list; what else they change is left open, and how
  -- each response is padded.
  pub record Speaks (name : Text) : Type 0 where
    pub rows : S → List Row
    pub banner : S → Text
    pub banner_padding : S → ℕ
    pub welcome : S → Text
    pub greets : (s : S) → v.dial s ≡ some (print_response (banner_padding s) 107 (banner s))
    pub admits :
        (s : S)
        → Answers rows s (auth_line v sha256_hex secret (challenge_of (banner s))) 200 (welcome s)
    pub lists : (s : S) → Answers rows s vcl_list 200 (print_rows (rows s))
    pub uses :
        (s s' : S) (bytes body rest : Text)
        → v.hear s (vcl_use name) ≡ some (bytes, s')
        → read_response bytes ≡ response (pos 200) body rest
        → active_row (rows s') ≡ some name
    pub has_columns : (s : S) → All (λ r. All IsColumn (columns r)) (rows s)
    pub banner_fits : (s : S) → length (banner s) < i64_max

  -- varnishd behind the authentication.
  abbrev pub admitted : (name : Text) (p : Speaks name) → World S → World S
  admitted name p w = record w { daemon = (p.admits w.daemon).later }

  connect-Speaks :
      (name : Text) (p : Speaks name) (s : S)
      → connect v sha256_hex secret s ≡ (connected [], (p.admits s).later)
  unfolding connect greet authenticated talk is_code
  connect-Speaks name p s =
      rw
        (
          connect,
          p.greets s,
          read_response-printed (p.banner_padding s) 107 (p.banner s) (omega arith)
              (p.banner_fits s),
          greet,
          (p.admits s).hears,
          read_response-printed (p.admits s).padding 200 (p.welcome s) (omega arith)
              (p.admits s).fits,
          authenticated,
          talk,
        )
        refl

  send-Speaks :
      (name : Text) (p : Speaks name) (payload : Text) (w : World S)
      → send v sha256_hex secret payload w
        ≡ reply v sha256_hex secret
            (talk v sha256_hex secret [] payload (admitted name p w).daemon)
            payload
            (admitted name p w)
  unfolding send
  send-Speaks name p payload w = rw (connect-Speaks name p w.daemon, send_on) refl

  pub reply_of :
      (name : Text) (p : Speaks name) (payload : Text) (w : World S) (bytes : Text) (s : S)
      → v.hear (admitted name p w).daemon payload ≡ some (bytes, s)
      → send v sha256_hex secret payload w
        ≡ (answer_of (read_response bytes), record { daemon = s; sent = w.sent ++ (payload ∷ []) })
  unfolding talk reply
  reply_of name p payload w bytes s e =
      send-Speaks name p payload w ∙ rw (talk, e, ◌>>=◌, reply) refl

  no_reply_of :
      (name : Text) (p : Speaks name) (payload : Text) (w : World S)
      → v.hear (admitted name p w).daemon payload ≡ none
      → (send v sha256_hex secret payload w).0 ≡ no_answer
  unfolding talk reply
  no_reply_of name p payload w e =
      ap (λ r. r.0) (send-Speaks name p payload w) ∙ rw (talk, e, ◌>>=◌, reply) refl

  -- What is answered, behind the authentication, with the list as it is.
  pub answer-kept :
      (name : Text) (p : Speaks name) (payload : Text) (w : World S) (code : ℕ) (body : Text)
      → code ≤ i64_max
      → Answers p.rows (admitted name p w).daemon payload code body
      → ((send v sha256_hex secret payload w).0 ≡ answered (pos code) body)
        × (p.rows (send v sha256_hex secret payload w).1.daemon ≡ p.rows w.daemon)
  unfolding answer_of
  answer-kept name p payload w code body small a =
      let sent = reply_of name p payload w (print_response a.padding code body) a.later a.hears in
      (
        ap (λ r. r.0) sent ∙ ap answer_of (read_response-printed a.padding code body small a.fits),
        ap (λ r. p.rows r.1.daemon) sent ∙ a.kept ∙ (p.admits w.daemon).kept,
      )

  pub active_vcl-rows :
      (name : Text) (p : Speaks name) (w : World S)
      → ((active_vcl v sha256_hex secret w).0 ≡ named_or_unknown (active_row (p.rows w.daemon)))
        × (p.rows (active_vcl v sha256_hex secret w).1.daemon ≡ p.rows w.daemon)
  unfolding active_vcl
  active_vcl-rows name p w =
      let s = (admitted name p w).daemon in
      let k = answer-kept name p vcl_list w 200 (print_rows (p.rows s)) (omega arith) (p.lists s) in
      (
        ap active_of k.0
            ∙ active_of-print_rows (print_rows (p.rows s)) (active_row (p.rows s))
                (active_name-print_rows (p.rows s) (p.has_columns s))
            ∙ ap (λ rows. named_or_unknown (active_row rows)) (p.admits w.daemon).kept,
        k.1,
      )

  use-active :
      (name : Text) (p : Speaks name) (w : World S)
      → outcome_of (codes "vcl.use") (send v sha256_hex secret (vcl_use name) w).0 ≡ done
      → active_row (p.rows (send v sha256_hex secret (vcl_use name) w).1.daemon) ≡ some name
  unfolding outcome_of
  use-active name p w h = elim (Option-cases (v.hear (admitted name p w).daemon (vcl_use name))) [
    | inl e ↦ absurd (ground (arith, h, no_reply_of name p (vcl_use name) w e))
    | inr ((bytes, s), e) ↦
        let sent = reply_of name p (vcl_use name) w bytes s e in
        let d =
          outcome_of-done (codes "vcl.use") (read_response bytes)
            (sym (ap (λ r. outcome_of (codes "vcl.use") r.0) sent) ∙ h) in
        ap (λ r. active_row (p.rows r.1.daemon)) sent
        ∙ p.uses (admitted name p w).daemon s bytes d.0 d.1 e d.2
  ]

  used-active :
      (name : Text) (p : Speaks name) (r : Outcome × World S)
      → (use_vcl v sha256_hex secret r name).0 ≡ done
      → active_row (p.rows (use_vcl v sha256_hex secret r name).1.daemon) ≡ some name
  unfolding use_vcl
  used-active name p (done, w) h = use-active name p w h
  used-active name p (failed e, w) h = absurd (ground (arith, h))
  used-active name p (panicked, w) h = absurd (ground (arith, h))

  -- With a varnishd that speaks the documented protocol, with a challenge of its own for every
  -- connection and any padding of its responses and of the columns of vcl.list, a push that reports
  -- success leaves the pushed VCL active: the agent itself reads its name back from the list.
  pub push_vcl-active_vcl :
      (name vcl : Text)
      → Speaks name
      → (w : World S) → (push_vcl v sha256_hex secret name vcl w).0 ≡ done
      → (active_vcl v sha256_hex secret (push_vcl v sha256_hex secret name vcl w).1).0 ≡ named name
  unfolding push_vcl
  push_vcl-active_vcl name vcl p w h =
      (active_vcl-rows name p (push_vcl v sha256_hex secret name vcl w).1).0
      ∙ ap named_or_unknown (
          used-active name p
            (load_vcl v sha256_hex secret (active_vcl v sha256_hex secret w) name vcl) h)
