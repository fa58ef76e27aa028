-- ===== src/Feeds.antt =====
-- Feeds (src/worker/feeds): the policy on their addresses.
pub mod Ipv4
pub mod Ipv6
pub mod Policy
mod Tests
