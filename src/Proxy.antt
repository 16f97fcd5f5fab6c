-- ===== src/Proxy.antt =====
-- The invalidation proxy (internal/proxy): it routes a purge or ban by Host to a cache, checks it
-- and sends it to every pod of the cache.
pub mod PodMap
pub mod Router
pub mod Broadcast
pub mod PurgeHosts
pub mod BanExpression
pub mod Throttle
pub mod Acl
pub mod RateLimit
pub mod Handlers
pub mod Server
mod Tests
