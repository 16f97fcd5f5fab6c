-- ===== src/Agent/Admin/Laws/Sent.antt =====
-- What the admin client tells varnishd, in order, whatever varnishd answers.
use mathlib.Core.Path.{subst}
use cloud_vinyl.Prelude.{
  ◌≡◌, refl, sym, ap, ◌∙◌, ◌≢◌, ◌⊎◌, inl, inr, Option, none, some, List, [], ◌∷◌, ◌++◌, arith, Text,
  codes,
}
use cloud_vinyl.Agent.Protocol.{Read}
use cloud_vinyl.Agent.Admin.{
  broken, unknown, panicked, named, failed, vcl_inline, vcl_use, Outcome, Active, done, vcl_list,
  active_vcl, push_vcl, load_vcl, use_vcl, outcome_of, Varnishd, World, Connection, connected,
  unreachable, panicking, Answer, no_answer, crashes, talk, connect, reply, send_on, send,
}

-- One payload more, or none and no answer.
pub data Told (before : List Text) (payload : Text) : Answer → List Text → Type 0 where
  told : {a : Answer} → Told before payload a (before ++ (payload ∷ []))
  untold_error : Told before payload no_answer before
  untold_panic : Told before payload crashes before

module _ {S : Type 0} (v : Varnishd S) (sha256_hex : Text → Text) (secret : Text) where
  reply-Told :
      (h : Option (Read × S)) (payload : Text) (w : World S)
      → Told w.sent payload
          (reply v sha256_hex secret h payload w).0
          (reply v sha256_hex secret h payload w).1.sent
  unfolding reply
  reply-Told none payload w = untold_error
  reply-Told (some (r, s)) payload w = told

  send_on-Told :
      (c : Connection × S) (payload : Text) (w : World S)
      → Told w.sent payload
          (send_on v sha256_hex secret c payload w).0
          (send_on v sha256_hex secret c payload w).1.sent
  unfolding send_on
  send_on-Told (connected unread, s) payload w =
      reply-Told (talk v sha256_hex secret unread payload s) payload
        (record { daemon = s; sent = w.sent })
  send_on-Told (unreachable, s) payload w = untold_error
  send_on-Told (panicking, s) payload w = untold_panic

  pub send-Told :
      (payload : Text) (w : World S)
      → Told w.sent payload
          (send v sha256_hex secret payload w).0
          (send v sha256_hex secret payload w).1.sent
  unfolding send
  send-Told payload w = send_on-Told (connect v sha256_hex secret w.daemon) payload w

pub Told-cases :
    {before : List Text} {p : Text} {a : Answer} {after : List Text}
    → Told before p a after
    → (after ≡ before) ⊎ (after ≡ before ++ (p ∷ []))
Told-cases told = inr refl
Told-cases untold_error = inl refl
Told-cases untold_panic = inl refl

Told-done :
    {before : List Text} {p : Text} {a : Answer} {after : List Text} (verb : Text)
    → Told before p a after
    → outcome_of verb a ≡ done
    → after ≡ before ++ (p ∷ [])
unfolding outcome_of
Told-done verb told h = refl
Told-done verb untold_error h = absurd (ground (arith, h))
Told-done verb untold_panic h = absurd (ground (arith, h))

module _ {S : Type 0} (v : Varnishd S) (sha256_hex : Text → Text) (secret : Text) where
  pub active_vcl-sent :
      (w : World S)
      → ((active_vcl v sha256_hex secret w).1.sent ≡ w.sent)
        ⊎ ((active_vcl v sha256_hex secret w).1.sent ≡ w.sent ++ (vcl_list ∷ []))
  unfolding active_vcl
  active_vcl-sent w = Told-cases (send-Told v sha256_hex secret vcl_list w)

  load-sent :
      (x : Active × World S) (name vcl : Text)
      → ((load_vcl v sha256_hex secret x name vcl).1.sent ≡ x.1.sent)
        ⊎ ((load_vcl v sha256_hex secret x name vcl).1.sent
            ≡ x.1.sent ++ (vcl_inline name vcl ∷ []))
  unfolding load_vcl
  load-sent (named old, w) name vcl =
      Told-cases (send-Told v sha256_hex secret (vcl_inline name vcl) w)
  load-sent (unknown, w) name vcl =
      Told-cases (send-Told v sha256_hex secret (vcl_inline name vcl) w)
  load-sent (broken, w) name vcl = inl refl

  load-done :
      (x : Active × World S) (name vcl : Text)
      → (load_vcl v sha256_hex secret x name vcl).0 ≡ done
      → (load_vcl v sha256_hex secret x name vcl).1.sent ≡ x.1.sent ++ (vcl_inline name vcl ∷ [])
  unfolding load_vcl
  load-done (named old, w) name vcl h =
      Told-done (codes "vcl.inline") (send-Told v sha256_hex secret (vcl_inline name vcl) w) h
  load-done (unknown, w) name vcl h =
      Told-done (codes "vcl.inline") (send-Told v sha256_hex secret (vcl_inline name vcl) w) h
  load-done (broken, w) name vcl h = absurd (ground (arith, h))

  use-sent :
      (r : Outcome × World S) (name : Text)
      → ((use_vcl v sha256_hex secret r name).0 ≡ done
          → (r.0 ≡ done)
            × ((use_vcl v sha256_hex secret r name).1.sent ≡ r.1.sent ++ (vcl_use name ∷ [])))
        × ((r.0 ≢ done) → (use_vcl v sha256_hex secret r name).1.sent ≡ r.1.sent)
  unfolding use_vcl
  use-sent (done, w) name = (
    λ h. (refl, Told-done (codes "vcl.use") (send-Told v sha256_hex secret (vcl_use name) w) h),
    λ ne. absurd (ne refl),
  )
  use-sent (failed e, w) name = (λ h. absurd (ground (arith, h)), λ ne. refl)
  use-sent (panicked, w) name = (λ h. absurd (ground (arith, h)), λ ne. refl)

  -- A push that reports success told varnishd, behind at most the vcl.list with which it reads
  -- the active VCL, to load the VCL and then to use it, in this order and nothing else.
  pub push_vcl-sent :
      (name vcl : Text) (w : World S)
      → (push_vcl v sha256_hex secret name vcl w).0 ≡ done
      → (early : List Text) × ((early ≡ w.sent) ⊎ (early ≡ w.sent ++ (vcl_list ∷ [])))
        × ((push_vcl v sha256_hex secret name vcl w).1.sent
            ≡ (early ++ (vcl_inline name vcl ∷ [])) ++ (vcl_use name ∷ []))
  unfolding push_vcl
  push_vcl-sent name vcl w h =
      let x = active_vcl v sha256_hex secret w in
      let used = use-sent (load_vcl v sha256_hex secret x name vcl) name in
      (
        x.1.sent,
        active_vcl-sent w,
        (used.0 h).1 ∙ ap (λ s. s ++ (vcl_use name ∷ [])) (load-done x name vcl (used.0 h).0),
      )

  -- When the VCL did not load, no vcl.use is sent, and the push reports no success.
  pub push_vcl-unloaded :
      (name vcl : Text) (w : World S)
      → (load_vcl v sha256_hex secret (active_vcl v sha256_hex secret w) name vcl).0 ≢ done
      → (early : List Text) × ((early ≡ w.sent) ⊎ (early ≡ w.sent ++ (vcl_list ∷ [])))
        × (((push_vcl v sha256_hex secret name vcl w).1.sent ≡ early)
            ⊎ ((push_vcl v sha256_hex secret name vcl w).1.sent
                ≡ early ++ (vcl_inline name vcl ∷ [])))
        × ((push_vcl v sha256_hex secret name vcl w).0 ≢ done)
  unfolding push_vcl
  push_vcl-unloaded name vcl w ne =
      let x = active_vcl v sha256_hex secret w in
      let used = use-sent (load_vcl v sha256_hex secret x name vcl) name in
      (
        x.1.sent,
        active_vcl-sent w,
        subst (λ (s : List Text). (s ≡ x.1.sent) ⊎ (s ≡ x.1.sent ++ (vcl_inline name vcl ∷ [])))
            (sym (used.1 ne)) (load-sent x name vcl),
        λ h. ne (used.0 h).0,
      )
