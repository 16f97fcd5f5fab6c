-- ===== src/Lib.antt =====
-- cloud-vinyl is an operator for clusters of Vinyl Cache, an HTTP cache. This library models the
-- parts of it that carry its own logic, in these files:
--
--   Tracer     cmd/tracer turns the log of varnishd into OpenTelemetry spans. Tracer/Vsl is
--              internal/tracer/vsl: the transaction group, and in Vsl/Lines and Vsl/Parser its
--              parser; Tracer/Spans and Tracer/Traceparent are internal/tracer/spans/spans.go
--              (BuildWithOutcome, buildChildren, parseTraceparent), and Tracer/VxidCache and
--              Tracer/Linker are internal/tracer/spans/linker.go (vxidCache, Linker.Build, park,
--              resolveParked, releaseAgedParked, Flush). Tracer/Batcher is
--              internal/tracer/export/batcher.go, whose callers and loop are a step relation, and
--              Tracer/Supervise cmd/tracer/supervise.go.
--   Proxy      internal/proxy passes invalidations on to the pods of a cache. Proxy/Router and
--              Proxy/PodMap are the tables the controller fills; Proxy/Server is ServeHTTP, which
--              asks them, Proxy/Acl and Proxy/RateLimit before Proxy/Handlers acts by
--              Proxy/Broadcast; Proxy/BanExpression is ban_allowlist.go, Proxy/PurgeHosts the
--              choice of site hosts and Proxy/Throttle that of log lines.
--   Controller internal/controller drives a cluster to its desired VCL. Controller/Peers and
--              Controller/Push are vcl_push.go and vcl_observe.go, Controller/Debounce is
--              debounce.go, Controller/Conditions, Controller/Settings, Controller/Status and
--              Controller/Runtime are status.go and flavor.go, Controller/Endpoints is
--              endpoints.go, Controller/AgentClient is agent_client.go, and Controller/Cluster and
--              Controller/Reconcile are vinylcache_controller.go and finalizer.go. Reconcile fills
--              the tables of the proxy (Reconcile/Tables, Reconcile/Deletion).
--   Catalog    internal/catalog: the catalog of runtime images, Parse, Resolve and Versions.
--   Webhook    internal/webhook: Webhook/Defaults is vinylcache_defaulter.go, Webhook/Paths and
--              Webhook/Validate are vinylcache_validator.go, and Webhook/Runtime is runtime.go.
--   Agent      internal/agent is the sidecar of each pod. Agent/Protocol, Agent/VclList and
--              Agent/Admin are admin.go, the client of varnishd's admin protocol; Agent/Handler and
--              Agent/Server are handler.go, middleware.go, server.go and xkey.go.
--              Agent/Admin/Injection follows a ban from the proxy's check to varnishd, and
--              Agent/Admin/Duplicate a push from varnishd's answer to what the controller counts;
--              Controller/Convergence follows a push to what the controller then observes. What the
--              theorems assume of varnishd are the records Speaks (Agent/Admin/Laws), the
--              documented protocol, and Refuses (Agent/Admin/Duplicate).
--   Prelude    the shared types and lemmas: tests on numbers, lists, texts as byte lists, and maps
--              as association lists.
--
-- Times are numbers of nanoseconds, and `now.Sub(t) <= d` is `now ≤ t + d`, which is the same as
-- long as a duration does not saturate. Texts are byte lists; TrimSpace, Fields and EqualFold are
-- those of ASCII texts. An id is a number and 0 the invalid id; `ids k` is the k-th id that the
-- IDSource mints. Packages that the code calls are parameters: net, golang.org/x/time/rate and
-- encoding/json as the records NetPackage, RatePackage and Json, the YAML decoder as `unmarshal`,
-- the HTTP transport as `send`, the token store as `token_of`, the agents of the pods as `push`
-- and `active`, and the parsing of a decimal epoch as `parse_time`. A method under a mutex is one
-- step. The goroutines of a broadcast write to slots of their own, so the broadcast is a map over
-- the pods. The parser's list of pointers into the pending group is the list of the nodes that are
-- open, each without its open child. The calls of `Parser.Next` run on fuel, of which one for each
-- line and one more is enough (Tracer/Vsl/Fuel); all other loops are recursions on their lists. A
-- Scanner is the list of the lines that it yields.
--
-- Not modelled: metrics and logging except the counters that the code keeps itself; the HTTP
-- listener; the operator's builders of Kubernetes objects, which a reconcile meets as writes that
-- may fail; the VCL templates; the probe.
pub mod Prelude
pub mod Tracer
pub mod Proxy
pub mod Controller
pub mod Catalog
pub mod Webhook
pub mod Agent
