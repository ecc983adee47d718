-- ===== src/Commitments/Abi.antt =====
-- The `sol!` structs of modules/commitments. The ABI coder itself is alloy's, and the protobuf coder
-- of `Any` is prost's: both are the parameter `Libs`.
use lcp.Base.{ℕ, ◌^◌, ◌<◌, Bool, ◌&&◌, List, All, Option, none, some, if◌then◌else◌}
use lcp.Base.Equality.{◌==◌, ℕ_PartialEq}
use lcp.Base.Bytes.{Bytes, IsBytes, IsArray}
use lcp.Base.Codec.{Codec}
use lcp.Base.Decimal.{u64_bound}
use lcp.Types.Any.{IsAny}
use lcp.Types.Height.{Height, zero_height}

pub record EthAbiValidationContext : Type 0 where
  pub header : Bytes
  pub context_bytes : Bytes

abbrev pub IsEthAbiValidationContext : EthAbiValidationContext → Type 0
IsEthAbiValidationContext c = IsArray 32 c.header × IsBytes c.context_bytes

pub record EthAbiTrustingPeriodContext : Type 0 where
  pub timestamps : Bytes
  pub params : Bytes

abbrev pub IsEthAbiTrustingPeriodContext : EthAbiTrustingPeriodContext → Type 0
IsEthAbiTrustingPeriodContext c = IsArray 32 c.timestamps × IsArray 32 c.params

pub record EthAbiHeight : Type 0 where
  pub revision_number : ℕ
  pub revision_height : ℕ

abbrev pub IsEthAbiHeight : EthAbiHeight → Type 0
IsEthAbiHeight h = (h.revision_number < u64_bound) × (h.revision_height < u64_bound)

pub record EthAbiEmittedState : Type 0 where
  pub height : EthAbiHeight
  pub state : Bytes

abbrev pub IsEthAbiEmittedState : EthAbiEmittedState → Type 0
IsEthAbiEmittedState s = IsEthAbiHeight s.height × IsBytes s.state

pub record EthAbiUpdateStateProxyMessage : Type 0 where
  pub prev_height : EthAbiHeight
  pub prev_state_id : Bytes
  pub post_height : EthAbiHeight
  pub post_state_id : Bytes
  pub timestamp : ℕ
  pub context : Bytes
  pub emitted_states : List EthAbiEmittedState

abbrev pub IsEthAbiUpdateStateProxyMessage : EthAbiUpdateStateProxyMessage → Type 0
IsEthAbiUpdateStateProxyMessage m =
    IsEthAbiHeight m.prev_height
    × IsArray 32 m.prev_state_id
    × IsEthAbiHeight m.post_height
    × IsArray 32 m.post_state_id
    × (m.timestamp < 2 ^ 128)
    × IsBytes m.context
    × All IsEthAbiEmittedState m.emitted_states

pub record EthAbiPrevState : Type 0 where
  pub height : EthAbiHeight
  pub state_id : Bytes

abbrev pub IsEthAbiPrevState : EthAbiPrevState → Type 0
IsEthAbiPrevState s = IsEthAbiHeight s.height × IsArray 32 s.state_id

pub record EthAbiMisbehaviourProxyMessage : Type 0 where
  pub prev_states : List EthAbiPrevState
  pub context : Bytes
  pub client_message : Bytes

abbrev pub IsEthAbiMisbehaviourProxyMessage : EthAbiMisbehaviourProxyMessage → Type 0
IsEthAbiMisbehaviourProxyMessage m =
    All IsEthAbiPrevState m.prev_states × IsBytes m.context × IsBytes m.client_message

pub record EthAbiVerifyMembershipProxyMessage : Type 0 where
  pub prefix : Bytes
  pub path : Bytes
  pub value : Bytes
  pub height : EthAbiHeight
  pub state_id : Bytes

abbrev pub IsEthAbiVerifyMembershipProxyMessage : EthAbiVerifyMembershipProxyMessage → Type 0
IsEthAbiVerifyMembershipProxyMessage m =
    IsBytes m.prefix
    × IsBytes m.path
    × IsArray 32 m.value
    × IsEthAbiHeight m.height
    × IsArray 32 m.state_id

pub record EthAbiHeaderedMessage : Type 0 where
  pub header : Bytes
  pub message : Bytes

abbrev pub IsEthAbiHeaderedMessage : EthAbiHeaderedMessage → Type 0
IsEthAbiHeaderedMessage m = IsArray 32 m.header × IsBytes m.message

pub record EthAbiCommitmentProof : Type 0 where
  pub message : Bytes
  pub signer : Bytes
  pub signature : Bytes

abbrev pub IsEthAbiCommitmentProof : EthAbiCommitmentProof → Type 0
IsEthAbiCommitmentProof p = IsBytes p.message × IsArray 20 p.signer × IsBytes p.signature

-- `abi_encode` and `abi_decode(_, true)` of each struct, and prost's coder of `Any`.
pub record Libs : Type 0 where
  pub validation_context : Codec IsEthAbiValidationContext
  pub trusting_period_context : Codec IsEthAbiTrustingPeriodContext
  pub update_state : Codec IsEthAbiUpdateStateProxyMessage
  pub misbehaviour : Codec IsEthAbiMisbehaviourProxyMessage
  pub verify_membership : Codec IsEthAbiVerifyMembershipProxyMessage
  pub headered_message : Codec IsEthAbiHeaderedMessage
  pub commitment_proof : Codec IsEthAbiCommitmentProof
  pub prost_any : Codec IsAny

-- `From<Height> for EthABIHeight`, `From<EthABIHeight> for Height`
abbrev pub from_height : Height → EthAbiHeight
from_height h = record { revision_number = h.revision_number; revision_height = h.revision_height }

abbrev pub to_height : EthAbiHeight → Height
to_height h = record { revision_number = h.revision_number; revision_height = h.revision_height }

abbrev pub is_zero : EthAbiHeight → Bool
is_zero h = h.revision_number == 0 && h.revision_height == 0

-- `From<Option<Height>> for EthABIHeight`: a missing height is written as zero.
abbrev pub from_option : Option Height → EthAbiHeight
from_option none = from_height zero_height
from_option (some h) = from_height h

-- `From<EthABIHeight> for Option<Height>`: zero is read as a missing height.
abbrev pub to_option : EthAbiHeight → Option Height
to_option h = if is_zero h then none else some (to_height h)
