-- ===== src/Tests.antt =====
-- The theorems at concrete inputs.
pub mod Wire
pub mod Ports
pub mod Timers
pub mod Workflow
pub mod Packets
pub mod Datagrams
pub mod Answers
pub mod Submissions
pub mod Reports
pub mod Responders
pub mod Resolvers
