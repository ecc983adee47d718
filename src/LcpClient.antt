-- ===== src/LcpClient.antt =====
-- modules/lcp-client: the client that a downstream chain runs for an enclave's light client.
pub mod Errors
pub mod ClientState
pub mod ConsensusState
pub mod Message
pub mod Reader
pub mod Client
