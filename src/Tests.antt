-- ===== src/Tests.antt =====
-- Runs of the model at concrete inputs, and the theorems applied to them.
pub mod Sample
pub mod Served
pub mod Listen
pub mod Protocol
pub mod Codec
pub mod Creds
pub mod Client
pub mod Session
pub mod Transport
pub mod Http
pub mod MailId
pub mod NotifyCast
pub mod Requests
pub mod Events
pub mod Cli
