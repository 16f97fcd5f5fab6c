-- ===== src/Proxy/Handlers/FanOut.antt =====
-- A purge or an xkey purge is several broadcasts; what their one response says.
use cloud_vinyl.Prelude.{
  ℕ, suc, ◌+◌, ◌*◌, ◌≡◌, refl, ap, ◌≢◌, List, [], ◌∷◌, map, arith, length, count, Text,
}
use cloud_vinyl.Proxy.Broadcast.{
  BroadcastRequest, Reply, BroadcastResult, broadcast, merge_from, merge_results, summarise,
  status_string,
}
use cloud_vinyl.Proxy.Broadcast.Laws.{took_it, broadcast_lem, broadcast-status}
use cloud_vinyl.Proxy.PurgeHosts.{Choice, named, from_routing, refused, purge_hosts, hosts_of}
use cloud_vinyl.Proxy.Handlers.{
  Request, result, Handled, with_port, varnish_port, header_of, purge_host_header, purge_request,
  purge_each, purges, no_purge_host_warning, purge_chosen, handle_purge,
}

length-with_port : (port : Text) (ips : List Text) → length (with_port port ips) ≡ length ips
unfolding with_port
length-with_port port [] = refl
length-with_port port (ip ∷ ips) = ap suc (length-with_port port ips)

-- What a response says of `calls` calls, of which `taken` were taken.
pub record Tells (calls taken : ℕ) (res : BroadcastResult) : Type 0 where
  pub total : res.total ≡ calls
  pub succeeded : res.succeeded ≡ taken
  pub status : res.status ≡ status_string calls taken

module _ (send : Text → BroadcastRequest → Reply) where
  -- The calls that were taken, over a list of requests to the same pods.
  abbrev pub total_taken : List Text → List BroadcastRequest → ℕ
  total_taken addrs [] = 0
  total_taken addrs (q ∷ qs) = count (took_it send q) addrs + total_taken addrs qs

  broadcast-Tells :
      (addrs : List Text) (q : BroadcastRequest)
      → Tells (length addrs) (count (took_it send q) addrs) (broadcast send addrs q)
  broadcast-Tells addrs q =
      let (_, total, succeeded, _, _) = broadcast_lem send q addrs in
      record { total = total; succeeded = succeeded; status = broadcast-status send q addrs }

  each-Tells :
      (r : Request) (addrs hs : List Text)
      → let m = merge_from (purge_each send r addrs hs) in
        (m.0 ≡ length hs * length addrs) × (m.1 ≡ total_taken addrs (map (purge_request send r) hs))
  unfolding merge_from purge_each
  each-Tells r addrs [] = (omega arith, refl)
  each-Tells r addrs (h ∷ hs) =
      let (t, k) = each-Tells r addrs hs in
      let b = broadcast-Tells addrs (purge_request send r h) in
      (omega (arith, b.total), omega (arith, b.succeeded))

  merged-Tells :
      (r : Request) (addrs hs : List Text)
      → Tells
          (length hs * length addrs)
          (total_taken addrs (map (purge_request send r) hs))
          (merge_results (purge_each send r addrs hs))
  unfolding merge_results purge_each summarise
  merged-Tells r addrs (h ∷ []) =
      let b = broadcast-Tells addrs (purge_request send r h) in
      let t : 1 * length addrs ≡ length addrs = omega arith in
      let k : count (took_it send (purge_request send r h)) addrs + 0
          ≡ count (took_it send (purge_request send r h)) addrs =
        omega arith in
      rw (t, k) b
  merged-Tells r addrs [] = record { total = omega arith; succeeded = refl; status = ground arith }
  merged-Tells r addrs (h ∷ i ∷ hs) =
      let (t, k) = each-Tells r addrs (h ∷ i ∷ hs) in
      record { total = t; succeeded = k; status = cc }

  purges-map :
      (r : Request) (addrs hs : List Text)
      → purges send r addrs hs ≡ map (λ host. (addrs, purge_request send r host)) hs
  unfolding purges
  purges-map r addrs [] = refl
  purges-map r addrs (h ∷ hs) = ap (◌∷◌ (addrs, purge_request send r h)) (purges-map r addrs hs)

  -- The response of a purge to these hosts.
  abbrev pub Purged : Request → List Text → List Text → Handled → Type 0
  Purged r pods hs h =
      let addrs = with_port varnish_port pods in
      (res : BroadcastResult) × (h.response ≡ result res)
      × (h.sent ≡ map (λ host. (addrs, purge_request send r host)) hs)
      × Tells (length hs * length pods) (total_taken addrs (map (purge_request send r) hs)) res

  pods-Tells :
      (r : Request) (pods hs : List Text)
      → let addrs = with_port varnish_port pods in
        Tells
          (length hs * length pods)
          (total_taken addrs (map (purge_request send r) hs))
          (merge_results (purge_each send r addrs hs))
  pods-Tells r pods hs =
      rw (← length-with_port varnish_port pods) (merged-Tells r (with_port varnish_port pods) hs)

  chosen-Purged :
      (r : Request) (pods : List Text) (c : Choice)
      → hosts_of c ≢ []
      → Purged r pods (hosts_of c) (purge_chosen send r pods c)
  unfolding purge_chosen
  chosen-Purged r pods (refused e) ne = absurd (ne refl)
  chosen-Purged r pods (named hs) ne =
      let addrs = with_port varnish_port pods in
      (
        merge_results (purge_each send r addrs hs),
        refl,
        purges-map r addrs hs,
        pods-Tells r pods hs,
      )
  chosen-Purged r pods (from_routing h) ne =
      let addrs = with_port varnish_port pods in
      let merged = merge_results (purge_each send r addrs (h ∷ [])) in
      let t = pods-Tells r pods (h ∷ []) in
      (
        record merged { warning = no_purge_host_warning },
        refl,
        purges-map r addrs (h ∷ []),
        record { total = t.total; succeeded = t.succeeded; status = t.status },
      )

  -- Unless its hosts are refused, a purge is sent once for every site host, each time to every
  -- pod, and its response counts all of these calls and those that were taken; its status is that
  -- of these two numbers.
  pub handle_purge-Purged :
      (r : Request) (configured pods : List Text)
      → let hs = hosts_of (purge_hosts (header_of r purge_host_header) configured r.host) in
        hs ≢ [] → Purged r pods hs (handle_purge send r configured pods)
  unfolding handle_purge
  handle_purge-Purged r configured pods ne =
      chosen-Purged r pods (purge_hosts (header_of r purge_host_header) configured r.host) ne
