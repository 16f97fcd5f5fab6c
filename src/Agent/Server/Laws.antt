-- ===== src/Agent/Server/Laws.antt =====
-- Who reaches what through the agent's HTTP server.
use cloud_vinyl.Prelude.{
  ◌≡◌, refl, ◌≢◌, ◌↔◌, ◌⊎◌, inl, inr, false, not, ◌||◌, Option, none, some, List, [], ◌∷◌, ◌++◌,
  arith, Bool-cases, Option-cases, if_both, Text, codes, text_eq, text_eq_refl, text_eq→≡,
  has_prefix,
}
use cloud_vinyl.Agent.Admin.{
  push_vcl, Outcome, unknown, broken, failed, panicked, done, named, active_vcl, Active, World,
  vcl_list,
}
use cloud_vinyl.Agent.Admin.Laws.{Speaks, push_vcl-active_vcl}
use cloud_vinyl.Agent.Admin.Laws.Sent.{active_vcl-sent}
use cloud_vinyl.Agent.Handler.{
  running, ok_status, of_outcome, of_health, response_code, Request, unauthorized, Handled,
  after_prefix,
}
use cloud_vinyl.Agent.Server.{
  method_post, push_decoded, handle_push, Agent, check_bearer, check_provided, respond, bearer_auth,
  handle_health, serve,
}

after_prefix-append : (s p t : Text) → after_prefix s p ≡ some t → s ≡ p ++ t
unfolding after_prefix
after_prefix-append s [] t h = ground (arith, h)
after_prefix-append [] (b ∷ p) t h = absurd (ground (arith, h))
after_prefix-append (a ∷ s) (b ∷ p) t h = ground (arith, h, after_prefix-append s p t)

check_provided-none :
    (token : Text) (o : Option Text) → check_provided token o ≡ none → o ≡ some token
unfolding check_provided
check_provided-none token none h = absurd (ground (arith, h))
check_provided-none token (some provided) h = ground (arith, h, text_eq→≡ provided token)

-- The token is checked as a whole: a header passes if and only if it is "Bearer " and the token.
pub check_bearer_lem :
    (token header : Text) → (check_bearer token header ≡ none) ↔ (header ≡ codes "Bearer " ++ token)
unfolding check_bearer check_provided after_prefix
check_bearer_lem token header = (
  λ h.
      after_prefix-append header (codes "Bearer ") token
        (check_provided-none token (after_prefix header (codes "Bearer ")) h),
  λ e. rw (e, text_eq_refl token) refl,
)

module _ {S : Type 0} (a : Agent S) where
  -- The keys asked, and what varnishd was told: nothing, or to list the VCLs.
  abbrev IsHarmless : List Text → Handled S → Type 0
  IsHarmless before h =
      (h.asked ≡ []) × ((h.world.sent ≡ before) ⊎ (h.world.sent ≡ before ++ (vcl_list ∷ [])))

  health-IsHarmless : (w : World S) → IsHarmless w.sent (handle_health a w)
  unfolding handle_health
  health-IsHarmless w = (refl, active_vcl-sent a.varnishd a.sha256_hex a.secret w)

  bearer-IsHarmless :
      (temp_name : Text) (r : Request) (w : World S)
      → r.authorization ≢ codes "Bearer " ++ a.token
      → IsHarmless w.sent (bearer_auth a temp_name r w)
  unfolding bearer_auth
  bearer-IsHarmless temp_name r w ne = elim (Option-cases (check_bearer a.token r.authorization)) [
    | inl e ↦ absurd (ne ((check_bearer_lem a.token r.authorization).0 e))
    | inr (refusal, e) ↦ rw (e) (refl, inl refl)
  ]

  -- Without the token of the pod, a request purges nothing, and at most makes the agent read the
  -- list of VCLs: no VCL is loaded, used or discarded, and no ban is sent, on whatever route.
  pub serve-IsHarmless :
      (temp_name : Text) (r : Request) (w : World S)
      → r.authorization ≢ codes "Bearer " ++ a.token
      → IsHarmless w.sent (serve a temp_name r w)
  unfolding serve
  serve-IsHarmless temp_name r w ne =
      let P = IsHarmless w.sent in
      let still : IsHarmless w.sent (respond unauthorized w) = (refl, inl refl) in
      if_both P (not (text_eq (a.clean_path r.path) r.path)) _ _ still (
        if_both P (text_eq r.path (codes "/livez")) _ _ still (
          if_both P (text_eq r.path (codes "/health")) _ _ (health-IsHarmless w) (
            if_both P (text_eq r.path (codes "/metrics")) _ _ still (
              if_both P
                (has_prefix r.path (codes "/vcl/")
                  || text_eq r.path (codes "/ban")
                  || has_prefix r.path (codes "/purge/"))
                _ _ (bearer-IsHarmless temp_name r w ne)
                (if_both P (text_eq r.path (codes "/vcl") || text_eq r.path (codes "/purge")) _ _
                  still still)))))

  of_health-200 :
      (x : Active)
      → (response_code (of_health x) ≡ some 200)
        ↔ ((name : Text) × (x ≡ named name) × (text_eq name (codes "boot") ≡ false))
  unfolding of_health response_code
  of_health-200 (named name) =
      (λ h. (name, refl, ground (arith, h)), λ (n, e, ne). ground (arith, e, ne))
  of_health-200 unknown =
      (λ h. absurd (ground (arith, h)), λ (n, e, ne). absurd (ground (arith, e)))
  of_health-200 broken = (λ h. absurd (ground (arith, h)), λ (n, e, ne). absurd (ground (arith, e)))

  -- The readiness probe is answered 200 if and only if the agent reads the name of the active VCL
  -- from varnishd, and that is not the one varnishd starts with.
  handle_health-ready :
      (w : World S)
      → (response_code (handle_health a w).response ≡ some 200) ↔ (
          (name : Text) × ((active_vcl a.varnishd a.sha256_hex a.secret w).0 ≡ named name)
          × (text_eq name (codes "boot") ≡ false))
  unfolding handle_health
  handle_health-ready w = of_health-200 (active_vcl a.varnishd a.sha256_hex a.secret w).0

  of_outcome-ok : (o : Outcome) → of_outcome o ≡ ok_status → o ≡ done
  unfolding of_outcome
  of_outcome-ok done h = refl
  of_outcome-ok (failed e) h = absurd (ground (arith, h))
  of_outcome-ok panicked h = absurd (ground (arith, h))

  push_decoded-active_vcl :
      (name vcl : Text)
      → Speaks a.varnishd a.sha256_hex a.secret name
      → (w : World S) → (push_decoded a (some (name, vcl)) w).response ≡ ok_status
      → (active_vcl a.varnishd a.sha256_hex a.secret (push_decoded a (some (name, vcl)) w).world).0
        ≡ named name
  unfolding push_decoded
  push_decoded-active_vcl name vcl p w h = elim (Bool-cases (text_eq name [] || text_eq vcl [])) [
    | inl e ↦ absurd (ground (arith, h, e))
    | inr e ↦ rw (e) (
        push_vcl-active_vcl a.varnishd a.sha256_hex a.secret name vcl p w (
          of_outcome-ok (push_vcl a.varnishd a.sha256_hex a.secret name vcl w).0
            (ground (arith, h, e))))
  ]

  -- Behind a push that was answered "ok" the agent reads the name of the pushed VCL.
  pub handle_push-active_vcl :
      (r : Request) (name vcl : Text)
      → Speaks a.varnishd a.sha256_hex a.secret name
      → a.json.decode_push r.body ≡ some (name, vcl)
      → (w : World S) → (handle_push a r w).response ≡ ok_status
      → (active_vcl a.varnishd a.sha256_hex a.secret (handle_push a r w).world).0 ≡ named name
  unfolding handle_push
  handle_push-active_vcl r name vcl p d w h = elim (Bool-cases (text_eq r.method method_post)) [
    | inl e ↦ rw (e, d) (push_decoded-active_vcl name vcl p w (ground (arith, h, e, d)))
    | inr e ↦ absurd (ground (arith, h, e))
  ]

  -- With a varnishd that speaks the documented protocol, a pod is ready behind a push that was
  -- answered "ok": the probe reads the name of the pushed VCL, which is not "boot".
  pub handle_push-handle_health :
      (r : Request) (name vcl : Text)
      → Speaks a.varnishd a.sha256_hex a.secret name
      → text_eq name (codes "boot") ≡ false
      → a.json.decode_push r.body ≡ some (name, vcl)
      → (w : World S) → (handle_push a r w).response ≡ ok_status
      → (handle_health a (handle_push a r w).world).response ≡ running name
  unfolding handle_health of_health
  handle_push-handle_health r name vcl p ne d w h =
      rw (handle_push-active_vcl r name vcl p d w h, ne) refl
