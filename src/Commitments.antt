-- ===== src/Commitments.antt =====
-- modules/commitments: the messages that the enclave proves, their ABI encoding, the validation
-- context, and the commitment proof.
pub mod Errors
pub mod StateId
pub mod Abi
pub mod Context
pub mod Message
pub mod Proof
