-- ===== src/Client.antt =====
-- `ClientLogic` of device-agent/src/moonlight_codec.rs: the client's state, its operations and what
-- holds of them.
pub mod Txns
pub mod State
pub mod Messages
pub mod Commands
pub mod Responses
pub mod Events
pub mod Start
pub mod Pending
pub mod Owed
pub mod Conservation
pub mod Keeps
pub mod Keys
pub mod Waiting
pub mod Panics
pub mod Authentication
