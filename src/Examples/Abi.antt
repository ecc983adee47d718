-- ===== src/Examples/Abi.antt =====
-- Concrete coders for the structs of modules/commitments and modules/lcp-client.
use lcp.Base.{
  ℕ, zero, suc, ◌^◌, ◌<◌, ◌≡◌, refl, Bool, true, false, Option, none, some, List, [], ◌∷◌, All,
  arith,
}
use lcp.Base.Bytes.{Bytes, IsBytes}
use lcp.Base.Codec.{Codec}
use lcp.Types.Any.{IsAny}
use lcp.Types.Height.{Height}
use lcp.Commitments.Abi.{
  IsEthAbiValidationContext, IsEthAbiTrustingPeriodContext, EthAbiHeight, IsEthAbiHeight,
  IsEthAbiEmittedState, IsEthAbiUpdateStateProxyMessage, IsEthAbiPrevState,
  IsEthAbiMisbehaviourProxyMessage, IsEthAbiVerifyMembershipProxyMessage, IsEthAbiHeaderedMessage,
  IsEthAbiCommitmentProof, Libs,
}
use lcp.LcpClient.ClientState.{IsRawClientState, IsOptionHeight}
use lcp.LcpClient.ConsensusState.{IsRawConsensusState}
use lcp.Examples.Format.{Format, codec, bytes, number, via, pair, list}

abbrev two : Format (λ (p : Bytes × Bytes). IsBytes p.0 × IsBytes p.1)
two = pair bytes bytes

abbrev height : Format IsEthAbiHeight
height =
    via (pair (number 8) (number 8)) (λ h. (h.revision_number, h.revision_height))
      (λ p. record { revision_number = p.0; revision_height = p.1 }) (λ h. refl) (λ h v. v)

abbrev emitted : Format IsEthAbiEmittedState
emitted =
    via (pair height bytes) (λ s. (s.height, s.state)) (λ p. record { height = p.0; state = p.1 })
      (λ s. refl) (λ s v. v)

abbrev prev_state : Format IsEthAbiPrevState
prev_state =
    via (pair height bytes) (λ s. (s.height, s.state_id))
      (λ p. record { height = p.0; state_id = p.1 }) (λ s. refl) (λ s v. (v.0, v.1.1))

abbrev any : Format IsAny
any =
    via two (λ a. (a.type_url, a.value)) (λ p. record { type_url = p.0; value = p.1 }) (λ a. refl)
      (λ a v. (v.0, v.1))

abbrev validation_context : Format IsEthAbiValidationContext
validation_context =
    via two (λ c. (c.header, c.context_bytes)) (λ p. record { header = p.0; context_bytes = p.1 })
      (λ c. refl) (λ c v. (v.0.1, v.1))

abbrev trusting_period_context : Format IsEthAbiTrustingPeriodContext
trusting_period_context =
    via two (λ c. (c.timestamps, c.params)) (λ p. record { timestamps = p.0; params = p.1 })
      (λ c. refl) (λ c v. (v.0.1, v.1.1))

abbrev headered_message : Format IsEthAbiHeaderedMessage
headered_message =
    via two (λ m. (m.header, m.message)) (λ p. record { header = p.0; message = p.1 }) (λ m. refl)
      (λ m v. (v.0.1, v.1))

abbrev commitment_proof : Format IsEthAbiCommitmentProof
commitment_proof =
    via (pair two bytes) (λ c. ((c.message, c.signer), c.signature))
      (λ p. record { message = p.0.0; signer = p.0.1; signature = p.1 }) (λ c. refl)
      (λ c v. ((v.0, v.1.1), v.2))

abbrev update_state : Format IsEthAbiUpdateStateProxyMessage
update_state =
    via
      (pair (pair (pair height bytes) (pair height bytes))
        (pair (number 16) (pair bytes (list emitted))))
      (λ m. (
        ((m.prev_height, m.prev_state_id), (m.post_height, m.post_state_id)),
        (m.timestamp, (m.context, m.emitted_states)),
      ))
      (λ p. record {
        prev_height = p.0.0.0;
        prev_state_id = p.0.0.1;
        post_height = p.0.1.0;
        post_state_id = p.0.1.1;
        timestamp = p.1.0;
        context = p.1.1.0;
        emitted_states = p.1.1.1;
      })
      (λ m. refl) (λ m v. (((v.0, v.1.1), (v.2, v.3.1)), (v.4, (v.5, v.6))))

abbrev misbehaviour : Format IsEthAbiMisbehaviourProxyMessage
misbehaviour =
    via (pair (list prev_state) two) (λ m. (m.prev_states, (m.context, m.client_message)))
      (λ p. record { prev_states = p.0; context = p.1.0; client_message = p.1.1 }) (λ m. refl)
      (λ m v. (v.0, (v.1, v.2)))

abbrev verify_membership : Format IsEthAbiVerifyMembershipProxyMessage
verify_membership =
    via (pair (pair two bytes) (pair height bytes))
      (λ m. (((m.prefix, m.path), m.value), (m.height, m.state_id)))
      (λ p. record {
        prefix = p.0.0.0;
        path = p.0.0.1;
        value = p.0.1;
        height = p.1.0;
        state_id = p.1.1;
      })
      (λ m. refl) (λ m v. (((v.0, v.1), v.2.1), (v.3, v.4.1)))

abbrev pub libs : Libs
libs = record {
  validation_context = codec validation_context;
  trusting_period_context = codec trusting_period_context;
  update_state = codec update_state;
  misbehaviour = codec misbehaviour;
  verify_membership = codec verify_membership;
  headered_message = codec headered_message;
  commitment_proof = codec commitment_proof;
  prost_any = codec any;
}

abbrev pub bincode : Codec IsAny
bincode = codec any

abbrev pub raw_consensus_state : Codec IsRawConsensusState
raw_consensus_state = codec (
    via (pair bytes (number 8)) (λ c. (c.state_id, c.timestamp))
      (λ p. record { state_id = p.0; timestamp = p.1 }) (λ c. refl) (λ c v. v))

-- A flag in a byte, and a height that may be missing as a list of one.
abbrev of_bool : Bool → ℕ
of_bool false = 0
of_bool true = 1

abbrev to_bool : ℕ → Bool
to_bool zero = false
to_bool (suc n) = true

abbrev of_option : Option Height → List EthAbiHeight
of_option none = []
of_option (some h) =
    record { revision_number = h.revision_number; revision_height = h.revision_height } ∷ []

abbrev to_option : List EthAbiHeight → Option Height
to_option [] = none
to_option (h ∷ hs) =
    some (record { revision_number = h.revision_number; revision_height = h.revision_height })

pub to_bool-of_bool : (b : Bool) → to_bool (of_bool b) ≡ b
to_bool-of_bool false = refl
to_bool-of_bool true = refl

pub of_bool-small : (b : Bool) → of_bool b < 256 ^ 1
of_bool-small false = omega arith
of_bool-small true = omega arith

pub to_option-of_option : (o : Option Height) → to_option (of_option o) ≡ o
to_option-of_option none = refl
to_option-of_option (some h) = refl

pub of_option-All : (o : Option Height) → IsOptionHeight o → All IsEthAbiHeight (of_option o)
of_option-All none v = tt
of_option-All (some h) v = (v, tt)

abbrev flag : Format (λ (b : Bool). Unit {0})
flag = via (number 1) of_bool to_bool to_bool-of_bool (λ b v. of_bool-small b)

abbrev optional : Format IsOptionHeight
optional = via (list height) of_option to_option to_option-of_option of_option-All

abbrev pub raw_client_state : Codec IsRawClientState
raw_client_state = codec (
    via (pair (pair bytes (number 8)) (pair flag optional))
      (λ c. ((c.mrenclave, c.key_expiration), (c.frozen, c.latest_height)))
      (λ p. record {
        mrenclave = p.0.0;
        key_expiration = p.0.1;
        frozen = p.1.0;
        latest_height = p.1.1;
      })
      (λ c. refl) (λ c v. ((v.0, v.1), (tt, v.2))))
