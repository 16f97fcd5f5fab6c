-- ===== src/Agent/Admin/Duplicate.antt =====
-- A push of a VCL that varnishd has loaded already, from the agent (internal/agent/admin.go) to
-- what the controller counts (internal/controller/vcl_push.go).
use cloud_vinyl.Prelude.{
  pos, ◌≡◌, refl, sym, ap, ◌∙◌, ◌≢◌, Bool, true, false, ◌||◌, Option, none, some, List, [], ◌∷◌,
  ◌++◌, arith, Text, codes, text_eq, contains,
}
use cloud_vinyl.Agent.VclList.Laws.{Row, active_row}
use cloud_vinyl.Agent.Admin.{
  Varnishd, World, Answer, answered, is_code, vcl_inline, failed_code, failure_text, failed,
  outcome_of, Active, named, unknown, broken, send, active_vcl, use_vcl, load_vcl, push_vcl,
}
use cloud_vinyl.Agent.Admin.Laws.{
  Answers, Speaks, admitted, answer-kept, active_vcl-rows, named_or_unknown,
}
use cloud_vinyl.Controller.Push.{took}
use cloud_vinyl.Controller.AgentClient.{replied, limited, push_reply, push_reply-took}

named_only : (o : Option Text) (name : Text) → named_or_unknown o ≡ named name → o ≡ some name
named_only none name h = absurd (ground (arith, h))
named_only (some n) name h = ground (arith, h)

-- Whether one of the rows is of the VCL `name`.
abbrev pub is_listed : Text → List Row → Bool
is_listed name [] = false
is_listed name (r ∷ rs) = text_eq r.name name || is_listed name rs

module _ {S : Type 0} (v : Varnishd S) (sha256_hex : Text → Text) (secret : Text) where
  -- The documented refusal: a name that is listed is not loaded again, whatever the VCL, and the
  -- list stays. `more` is what may stand behind the name.
  pub record Refuses (name more : Text) (rows : S → List Row) : Type 0 where
    pub refuses :
        (s : S) (vcl : Text)
        → is_listed name (rows s) ≡ true
        → Answers v sha256_hex secret rows s
            (vcl_inline name vcl)
            106
            (codes "Already a VCL named " ++ (name ++ more))

  refused_use :
      (a : Answer) (w : World S) (name message : Text)
      → a ≡ answered (pos 106) message
      → use_vcl v sha256_hex secret (outcome_of (codes "vcl.inline") a, w) name
        ≡ (failed (failed_code (codes "vcl.inline") (pos 106) message), w)
  unfolding use_vcl outcome_of is_code
  refused_use a w name message e = rw (e) refl

  load_refused :
      (x : Active × World S) (o : Option Text) (name vcl message : Text)
      → x.0 ≡ named_or_unknown o
      → (send v sha256_hex secret (vcl_inline name vcl) x.1).0 ≡ answered (pos 106) message
      → use_vcl v sha256_hex secret (load_vcl v sha256_hex secret x name vcl) name ≡ (
        failed (failed_code (codes "vcl.inline") (pos 106) message),
        (send v sha256_hex secret (vcl_inline name vcl) x.1).1,
      )
  unfolding load_vcl
  load_refused (named old, w) o name vcl message e r =
      refused_use (send v sha256_hex secret (vcl_inline name vcl) w).0
        (send v sha256_hex secret (vcl_inline name vcl) w).1 name message r
  load_refused (unknown, w) o name vcl message e r =
      refused_use (send v sha256_hex secret (vcl_inline name vcl) w).0
        (send v sha256_hex secret (vcl_inline name vcl) w).1 name message r
  load_refused (broken, w) none name vcl message e r = absurd (ground (arith, e))
  load_refused (broken, w) (some n) name vcl message e r = absurd (ground (arith, e))

  -- A VCL that varnishd lists but does not use is not activated by a push of it, when varnishd
  -- refuses to load a listed name again: the agent stops at the refusal, the active VCL stays what
  -- it was and is not the pushed one. But the controller, which finds "Already a VCL named" in the
  -- agent's answer if the encoding of the error keeps it, counts the pod as carrying the VCL.
  pub push_vcl-duplicate :
      (name vcl pod_ip more : Text) (encode : Text → Text) (p : Speaks v sha256_hex secret name)
      → Refuses name more p.rows
      → (w : World S) → is_listed name (p.rows w.daemon) ≡ true
      → active_row (p.rows w.daemon) ≢ some name
      → let message = codes "Already a VCL named " ++ (name ++ more) in
        let error = failure_text (codes "vcl.inline") (pos 106) message in
        contains (limited 4096 (encode error)) (codes "Already a VCL named") ≡ true
        → ((push_vcl v sha256_hex secret name vcl w).0
            ≡ failed (failed_code (codes "vcl.inline") (pos 106) message))
          × ((active_vcl v sha256_hex secret (push_vcl v sha256_hex secret name vcl w).1).0
              ≡ (active_vcl v sha256_hex secret w).0)
          × ((active_vcl v sha256_hex secret (push_vcl v sha256_hex secret name vcl w).1).0
              ≢ named name)
          × (took (push_reply pod_ip (replied 500 (encode error))) ≡ true)
  unfolding push_vcl
  push_vcl-duplicate name vcl pod_ip more encode p q w l u c =
      let message = codes "Already a VCL named " ++ (name ++ more) in
      let x = active_vcl v sha256_hex secret w in
      let before = active_vcl-rows v sha256_hex secret name p w in
      let s = (admitted v sha256_hex secret name p x.1).daemon in
      let same = (p.admits x.1.daemon).kept ∙ before.1 in
      let loading =
        answer-kept v sha256_hex secret name p (vcl_inline name vcl) x.1 106 message (omega arith)
          (q.refuses s vcl (ap (is_listed name) same ∙ l)) in
      let e = load_refused x (active_row (p.rows w.daemon)) name vcl message before.0 loading.0 in
      let after =
        (active_vcl-rows v sha256_hex secret name p (push_vcl v sha256_hex secret name vcl w).1).0
        ∙ ap (λ y. named_or_unknown (active_row (p.rows y.1.daemon))) e
        ∙ ap (λ rows. named_or_unknown (active_row rows)) (loading.1 ∙ before.1) in
      (
        ap (λ y. y.0) e,
        after ∙ sym before.0,
        λ h. u (named_only (active_row (p.rows w.daemon)) name (sym after ∙ h)),
        push_reply-took pod_ip (encode (failure_text (codes "vcl.inline") (pos 106) message)) 500
            refl c,
      )
