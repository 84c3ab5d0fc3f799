-- ===== src/Tests.antt =====
-- Concrete runs: the theorems applied where their conditions hold, and small computations.
mod Breaker
mod Writers
mod Tokens
mod Pages
mod Routing
mod Filters
mod Caching
mod Upstreams
mod Policies
mod Fences
mod Keys
mod Headers
mod Rates
mod Logins
mod Boot
mod Retries
mod Arrivals
