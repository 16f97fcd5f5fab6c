-- ===== src/Controller/Push.antt =====
-- internal/controller/vcl_push.go, `pushVCL`, and how pushes converge over reconciles. The agent
-- of a pod answers by `push`, a parameter; the goroutines write to slots of their own.
use cloud_vinyl.Prelude.{
  ℕ, ◌≤◌, ◌<◌, ◌≡◌, refl, ap, ◌↔◌, inl, inr, Bool, true, false, not, Option, some, List, [], ◌∷◌,
  arith, ◌==◌, if◌then◌else◌, Bool-cases, length, keep, count, All, Text, codes, text_dec, text_eq,
  contains, lookup, insert, lookup-insert, lookup-insert_self,
}
use cloud_vinyl.Controller.Peers.{
  PeerBackend, answer_of, observe_from, observe_vcl_names, observed_name, pods_needing_vcl,
}

pub data PushReply : Type 0 where
  pushed : PushReply
  push_error : Text → PushReply

-- A pod that has this VCL already counts as pushed to.
unfoldable pub took : PushReply → Bool
took pushed = true
took (push_error message) = contains message (codes "Already a VCL named")

pub data PushResult : Type 0 where
  pushed_to : List PeerBackend → PushResult
  failed_on_all : ℕ → PushResult

-- What the caller counts as carrying the VCL.
abbrev pub carriers : PushResult → List PeerBackend
carriers (pushed_to ps) = ps
carriers (failed_on_all n) = []

-- `push ip name vcl` is `AgentClient.PushVCL`.
module _ (push : Text → Text → Text → PushReply) (vcl_name vcl : Text) where
  unfoldable pub accepts : PeerBackend → Bool
  unfolding took
  accepts p = took (push p.ip vcl_name vcl)

  unfoldable pub fail_count : List PeerBackend → ℕ
  unfolding accepts
  fail_count peers = count (λ p. not (accepts p)) peers

  unfoldable pub push_vcl : List PeerBackend → PushResult
  unfolding fail_count
  push_vcl [] = pushed_to []
  push_vcl (p ∷ ps) =
      if fail_count (p ∷ ps) == length (p ∷ ps)
      then failed_on_all (length (p ∷ ps))
      else pushed_to (keep accepts (p ∷ ps))

  all_fail : (ps : List PeerBackend) → fail_count ps ≡ length ps → keep accepts ps ≡ []
  unfolding fail_count
  all_fail [] h = refl
  all_fail (p ∷ ps) h = ground (arith, all_fail ps, fail_le ps)
    where
      fail_le : (xs : List PeerBackend) → count (λ q. not (accepts q)) xs ≤ length xs
      fail_le [] = omega arith
      fail_le (x ∷ xs) = ground (arith, fail_le xs)

  -- With at least one pod: an error if and only if every pod refused, and what is counted as
  -- carrying the VCL are exactly the pods that took it. Without pods, neither error nor carrier.
  push_vcl_lem :
      (peers : List PeerBackend)
      → (carriers (push_vcl peers) ≡ keep accepts peers)
        × ((push_vcl peers ≡ failed_on_all (length peers))
            ↔ ((fail_count peers ≡ length peers) × (0 < length peers)))
  unfolding push_vcl fail_count
  push_vcl_lem [] = (refl, (λ e. cc, λ (_, lt). absurd (omega (arith, lt))))
  push_vcl_lem (p ∷ ps) =
      (ground (arith, all_fail (p ∷ ps)), (λ e. ground (arith, e), λ (e, _). ground (arith, e)))

module _ (active : Text → Option Text) where
  observe_from-kept :
      (q : Text) (observed : List (Text × Text)) (ps : List PeerBackend)
      → lookup text_dec q observed ≡ some (answer_of (active q))
      → lookup text_dec q (observe_from active observed ps) ≡ some (answer_of (active q))
  unfolding observe_from
  observe_from-kept q observed [] h = h
  observe_from-kept q observed (p ∷ ps) h =
      observe_from-kept q (insert text_dec p.ip (answer_of (active p.ip)) observed) ps
        (ground (arith, h, lookup-insert text_dec q p.ip (answer_of (active p.ip)) observed))

  observe_from-All :
      (observed : List (Text × Text)) (ps : List PeerBackend)
      → All (λ p. observed_name (observe_from active observed ps) p.ip ≡ answer_of (active p.ip)) ps
  unfolding observe_from observed_name
  observe_from-All observed [] = tt
  observe_from-All observed (p ∷ ps) =
      let m = insert text_dec p.ip (answer_of (active p.ip)) observed in
      (
        ap answer_of (
            observe_from-kept p.ip m ps
              (lookup-insert_self text_dec p.ip (answer_of (active p.ip)) observed)),
        observe_from-All m ps,
      )

  needing :
      (observed : List (Text × Text)) (desired : Text) (ps : List PeerBackend)
      → All (λ p. observed_name observed p.ip ≡ answer_of (active p.ip)) ps
      → pods_needing_vcl ps observed desired
        ≡ keep (λ p. not (text_eq (answer_of (active p.ip)) desired)) ps
  unfolding pods_needing_vcl
  needing observed desired [] h = refl
  needing observed desired (p ∷ ps) (e, h) = rw (e, needing observed desired ps h) refl

  -- The push targets of a reconcile are exactly the reachable pods whose agent does not report
  -- the desired VCL, be it another name or no answer.
  pub pods_needing_vcl-observe_vcl_names :
      (reachable : List PeerBackend) (desired : Text)
      → pods_needing_vcl reachable (observe_vcl_names active reachable) desired
        ≡ keep (λ p. not (text_eq (answer_of (active p.ip)) desired)) reachable
  unfolding observe_vcl_names
  pods_needing_vcl-observe_vcl_names reachable desired =
      needing (observe_from active [] reachable) desired reachable (observe_from-All [] reachable)

module _ (push : Text → Text → Text → PushReply) (active : Text → Option Text) where
  left_over :
      (vcl_name vcl : Text) (ps : List PeerBackend)
      → ((ip : Text) → took (push ip vcl_name vcl) ≡ true → active ip ≡ some vcl_name)
      → All
          (λ p. accepts push vcl_name vcl p ≡ false)
          (keep (λ p. not (text_eq (answer_of (active p.ip)) vcl_name)) ps)
  unfolding accepts answer_of
  left_over vcl_name vcl [] loaded = tt
  left_over vcl_name vcl (p ∷ ps) loaded =
      let ih = left_over vcl_name vcl ps loaded in
      elim (Bool-cases (accepts push vcl_name vcl p)) [
        | inl yes_ ↦ ground (arith, loaded p.ip yes_, ih)
        | inr no_ ↦ ground (arith, no_, ih)
      ]

  -- Pushes converge: if an agent that took a VCL reports it afterwards, then the targets of the
  -- next reconcile with the same VCL are at most the pods that refused this push.
  pods_needing_vcl-push :
      (vcl_name vcl : Text) (reachable : List PeerBackend)
      → ((ip : Text) → took (push ip vcl_name vcl) ≡ true → active ip ≡ some vcl_name)
      → All
          (λ p. accepts push vcl_name vcl p ≡ false)
          (pods_needing_vcl reachable (observe_vcl_names active reachable) vcl_name)
  pods_needing_vcl-push vcl_name vcl reachable loaded =
      rw (pods_needing_vcl-observe_vcl_names active reachable vcl_name)
        (left_over vcl_name vcl reachable loaded)
