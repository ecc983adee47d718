-- ===== src/LcpClient/Client/Lasting.antt =====
-- What `update_client` keeps, whatever message it is sent: other clients, and a frozen client.
use lcp.Base.{◌≡◌, ◌≢◌, ap, ◌∙◌, refl, true, List, [], ◌∷◌, ok, Result-cases, inl, inr, arith}
use lcp.Base.Bytes.{Bytes}
use lcp.Types.Time.{TmTime}
use lcp.Commitments.Message.Proxy
use lcp.Commitments.Message.Proxy.{ProxyMessage}
use lcp.Crypto.{Address}
use lcp.Store.KvStore.{KvStore}
use lcp.LightClient.Path.{ClientId, NoSlash, client_path}
use lcp.LightClient.Context.{Context, get}
use lcp.LightClient.Context.Laws.{SamePart}
use lcp.LcpClient.ClientState.{ClientState}
use lcp.LcpClient.Message.{ClientMessage, register_enclave_key, update_client}
use lcp.LcpClient.Reader.{ClientLibs, client_state}
use lcp.LcpClient.Client.{update, handle, handle_proxy}
use lcp.LcpClient.Client.Update.{update_state-cases, update_state-SamePart}
use lcp.LcpClient.Client.Freeze.{submit_misbehaviour-cases, submit_misbehaviour-SamePart}
use lcp.LcpClient.Client.Register.{register-SamePart, register-client_state}

module _ {T PK SK S : Type 0} ⦃tm : TmTime T⦄ ⦃kv : KvStore S⦄ (libs : ClientLibs T PK SK) where
  handle_proxy-SamePart :
      (ctx : Context T S) (id other : ClientId) (state : ClientState) (m : ProxyMessage T)
      (signer : Address) (signature : Bytes)
      → NoSlash id
      → NoSlash other
      → id ≢ other
      → SamePart other ctx (handle_proxy libs id state m signer signature ctx).1
  unfolding handle_proxy
  handle_proxy-SamePart ctx id other state (Proxy.update_state m) a s h k ne =
      update_state-SamePart libs ctx id other state m a s h k ne
  handle_proxy-SamePart ctx id other state (Proxy.misbehaviour m) a s h k ne =
      submit_misbehaviour-SamePart libs ctx id other state m a s h k ne
  handle_proxy-SamePart ctx id other state (Proxy.verify_membership m) a s h k ne = λ rest. refl

  handle-SamePart :
      (ctx : Context T S) (id other : ClientId) (state : ClientState) (message : ClientMessage T)
      → NoSlash id
      → NoSlash other
      → id ≢ other
      → SamePart other ctx (handle libs id state message ctx).1
  unfolding handle
  handle-SamePart ctx id other state (register_enclave_key eavr) h k ne =
      register-SamePart libs ctx id other state eavr h k ne
  handle-SamePart ctx id other state (update_client m) h k ne =
      handle_proxy-SamePart ctx id other state m.proxy_message m.signer m.signature h k ne

  -- Whatever message a client is sent and whatever comes of it, the part of the store that belongs
  -- to another client is left, for identifiers without a slash.
  pub update-SamePart :
      (ctx : Context T S) (id other : ClientId) (message : ClientMessage T) (rest : Bytes)
      → NoSlash id
      → NoSlash other
      → id ≢ other
      → get (update libs id message ctx).1 (client_path other rest)
        ≡ get ctx (client_path other rest)
  unfolding update
  update-SamePart ctx id other message rest h k ne =
      elim (Result-cases (client_state libs ctx id)) [
        | inl (state, e) ↦ rw e (handle-SamePart ctx id other state message h k ne rest)
        | inr (inl (x, e)) ↦ rw e refl
        | inr (inr e) ↦ rw e refl
      ]

  -- A frozen client refuses every proxy message and nothing is written.
  pub handle_proxy-frozen :
      (ctx : Context T S) (id : ClientId) (state : ClientState) (m : ProxyMessage T)
      (signer : Address) (signature : Bytes)
      → state.frozen ≡ true
      → ((handle_proxy libs id state m signer signature ctx).0 ≢ ok tt)
        × ((handle_proxy libs id state m signer signature ctx).1 ≡ ctx)
  unfolding handle_proxy
  handle_proxy-frozen ctx id state (Proxy.update_state m) a s frozen =
      elim (update_state-cases libs ctx id state m a s) [
        | inl (accepts, e) ↦ absurd (ground (arith, accepts.not_frozen))
        | inr (same, ne) ↦ (ne, same)
      ]
  handle_proxy-frozen ctx id state (Proxy.misbehaviour m) a s frozen =
      elim (submit_misbehaviour-cases libs ctx id state m a s) [
        | inl (accepts, r, e) ↦ absurd (ground (arith, accepts.not_frozen))
        | inr (same, ne) ↦ (ne, same)
      ]
  handle_proxy-frozen ctx id state (Proxy.verify_membership m) a s frozen = (ground arith, refl)

  handle-frozen :
      (ctx : Context T S) (id : ClientId) (state : ClientState) (message : ClientMessage T)
      → NoSlash id
      → state.frozen ≡ true
      → client_state libs (handle libs id state message ctx).1 id ≡ client_state libs ctx id
  unfolding handle
  handle-frozen ctx id state (register_enclave_key eavr) h frozen =
      register-client_state libs ctx id state eavr h
  handle-frozen ctx id state (update_client m) h frozen =
      let (r, same) =
        handle_proxy-frozen ctx id state m.proxy_message m.signer m.signature frozen in
      ap (λ x. client_state libs x id) same

  -- The context after a client has been sent messages, each of which may fail.
  unfoldable pub updates : ClientId → List (ClientMessage T) → Context T S → Context T S
  updates id [] ctx = ctx
  updates id (message ∷ messages) ctx = updates id messages (update libs id message ctx).1

  -- A client that is frozen, with an identifier without a slash, keeps its state under any messages:
  -- nothing unfreezes it.
  pub updates-frozen :
      (ctx : Context T S) (id : ClientId) (state : ClientState) (messages : List (ClientMessage T))
      → NoSlash id
      → client_state libs ctx id ≡ ok state
      → state.frozen ≡ true
      → client_state libs (updates id messages ctx) id ≡ ok state
  unfolding updates update
  updates-frozen ctx id state [] h e frozen = e
  updates-frozen ctx id state (message ∷ messages) h e frozen = rw e (
      updates-frozen (handle libs id state message ctx).1 id state messages h
        (handle-frozen ctx id state message h frozen ∙ e) frozen)
