-- ===== src/Client.antt =====
-- The client (src/r_client.c): requests in flight, replicas and their answers. This file only
-- names the parts; `Machine` has the state that they share.
pub mod Machine
pub mod Servers
pub mod Candidate
pub mod Send
pub mod Round
pub mod Discovery
pub mod Complete
pub mod Submit
pub mod Report
