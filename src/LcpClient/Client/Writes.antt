-- ===== src/LcpClient/Client/Writes.antt =====
-- What the writes at the end of `update_state` leave in the store.
use lcp.Base.{ℕ, ◌/◌, ◌*◌, ◌≡◌, ◌≢◌, refl, ◌∙◌, ok, Result-cases, inl, inr, arith}
use lcp.Base.Bytes.{codes, bytes_PartialEq}
use lcp.Base.Codec.{Codec}
use lcp.Base.Utf8.{is_utf8}
use lcp.Types.Any.{IsAny}
use lcp.Types.Time.{TmTime, Nanos, nanos_per_sec}
use lcp.Types.Height.{IsHeight}
use lcp.Commitments.StateId.{IsStateId}
use lcp.Commitments.Message.UpdateState.{UpdateStateProxyMessage}
use lcp.Store.KvStore.{KvStore}
use lcp.LightClient.Path.{ClientId, NoSlash, client_state_path, client_consensus_state_path}
use lcp.LightClient.Context.{Context, store_any_client_state, store_any_consensus_state}
use lcp.LightClient.Context.Laws.{
  SamePart, set-SamePart, client_state-store, consensus_state-store, client_state-consensus,
}
use lcp.LcpClient.ClientState
use lcp.LcpClient.ClientState.{ClientState, IsRawClientState, with_header, whole_seconds}
use lcp.LcpClient.ClientState.RoundTrip.{IsClientState, try_from-to_any}
use lcp.LcpClient.ConsensusState
use lcp.LcpClient.ConsensusState.{ConsensusState}
use lcp.LcpClient.ConsensusState.RoundTrip.{try_from-to_any_secs}
use lcp.LcpClient.Reader.{ClientLibs, client_state, consensus_state}
use lcp.LcpClient.Client.{write_update}

pub to_any-IsAny :
    (prost : Codec IsRawClientState) (s : ClientState)
    → IsClientState s
    → IsAny (ClientState.to_any prost s)
unfolding ClientState.to_any ClientState.to_raw is_utf8
to_any-IsAny prost s (bytes, expiration, height) =
    (omega arith, prost.encode-IsBytes (ClientState.to_raw s) (bytes, expiration.0, height), refl)

with_header-IsClientState :
    {T : Type 0} (s : ClientState) (m : UpdateStateProxyMessage T)
    → IsClientState s
    → IsHeight m.post_height
    → IsClientState (with_header s m)
unfolding with_header
with_header-IsClientState s m v h = ground arith

module _ {T PK SK S : Type 0} ⦃tm : TmTime T⦄ ⦃kv : KvStore S⦄ (libs : ClientLibs T PK SK) where
  -- The two writes succeed, and what they wrote is read back.
  pub write_update-stores :
      (ctx : Context T S) (id : ClientId) (state : ClientState) (m : UpdateStateProxyMessage T)
      {n : ℕ}
      → NoSlash id
      → IsClientState state
      → IsHeight m.post_height
      → IsStateId m.post_state_id
      → Nanos tm.ops m.timestamp n
      → let (r, ctx') = write_update libs id state m ctx in
        (r ≡ ok tt)
        × (client_state libs ctx' id ≡ ok (whole_seconds (with_header state m)))
        × ((t : T) × (consensus_state libs ctx' id m.post_height
              ≡ ok (record { state_id = m.post_state_id; timestamp = t }))
            × Nanos tm.ops t (n / nanos_per_sec * nanos_per_sec))
  unfolding write_update client_state consensus_state
  write_update-stores ctx id state m {n} safe valid height state_id time =
      let consensus : ConsensusState T = record {
        state_id = m.post_state_id;
        timestamp = m.timestamp;
      } in
      let (a, made, small, (t, back, nanos)) =
        try_from-to_any_secs libs.consensus_state consensus state_id time in
      let any = ClientState.to_any libs.client_state (with_header state m) in
      let valid' = with_header-IsClientState state m valid height in
      let ctx1 = store_any_client_state libs.bincode id any ctx in
      (
        rw made refl,
        rw
            (
              made,
              client_state-consensus libs.bincode ctx1 id m.post_height a safe,
              client_state-store libs.bincode ctx id any
                  (to_any-IsAny libs.client_state (with_header state m) valid'),
            )
            (try_from-to_any libs.client_state (with_header state m) valid'),
        (
          t,
          rw (made, consensus_state-store libs.bincode ctx1 id m.post_height a small) back,
          nanos,
        ),
      )

  pub write_update-SamePart :
      (ctx : Context T S) (id other : ClientId) (state : ClientState)
      (m : UpdateStateProxyMessage T)
      → NoSlash id
      → NoSlash other
      → id ≢ other
      → SamePart other ctx (write_update libs id state m ctx).1
  unfolding write_update store_any_client_state store_any_consensus_state client_state_path
      client_consensus_state_path
  write_update-SamePart ctx id other state m h k ne rest =
      let ctx1 =
        store_any_client_state libs.bincode id
          (ClientState.to_any libs.client_state (with_header state m)) ctx in
      let first = set-SamePart ctx id other (codes "clientState") _ h k ne rest in
      elim (Result-cases (
        ConsensusState.to_any libs.consensus_state
          (record { state_id = m.post_state_id; timestamp = m.timestamp }))) [
            | inl (a, e) ↦ rw e (set-SamePart ctx1 id other _ _ h k ne rest ∙ first)
            | inr (inl (x, e)) ↦ rw e first
            | inr (inr e) ↦ rw e first
          ]
