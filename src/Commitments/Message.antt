-- ===== src/Commitments/Message.antt =====
-- modules/commitments/src/message.rs: the messages that the enclave proves.
pub mod UpdateState
pub mod Misbehaviour
pub mod VerifyMembership
pub mod Proxy
