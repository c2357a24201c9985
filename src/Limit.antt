-- ===== src/Limit.antt =====
-- pkg/resilience/xlimit: the rate limiter. Texts are the bytes of their UTF-8.
pub mod Wildcard
pub mod Asked
pub mod Buckets
pub mod Cap
pub mod Core
pub mod Decided
pub mod Deciding
pub mod Effective
mod Examples
pub mod Fallback
pub mod Known
pub mod Matching
pub mod Outage
pub mod Rendering
pub mod Rules
pub mod Template
use xkit.Prelude.{ℕ, List}

abbrev pub Bytes : Type 0
Bytes = List ℕ
