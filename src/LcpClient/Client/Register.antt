-- ===== src/LcpClient/Client/Register.antt =====
-- What registering an enclave key writes, and for how long the key is active.
use lcp.Base.{
  ℕ, ◌/◌, ◌<◌, ◌^◌, ◌≡◌, ◌≢◌, ◌⊎◌, ap, ◌∙◌, refl, true, some, Option-cases, ok, Result-cases, inl,
  inr, ltb, length, arith,
}
use lcp.Base.Equality.{ℕ_PartialEq}
use lcp.Base.Bytes.{
  Bytes, bytes_PartialEq, to_be_bytes, from_be_bytes, length-to_be_bytes, from_be_bytes-to_be_bytes,
}
use lcp.Types.Time.{TmTime, Nanos, nanos_per_sec, add, as_unix_timestamp_secs}
use lcp.Types.Time.Nanos as Times
use lcp.Crypto.{Address}
use lcp.Store.KvStore.{KvStore}
use lcp.LightClient.Path.{ClientId, NoSlash, client_path, client_path-injective, client_state_path}
use lcp.LightClient.Context.{Context, get, set, host_timestamp}
use lcp.LightClient.Context as Host
use lcp.LightClient.Context.Laws.{SamePart, set-SamePart, get-set_same, get-set_other}
use lcp.AttestationReport.{EndorsedAttestationVerificationReport}
use lcp.LcpClient.Errors.{Error}
use lcp.LcpClient.ClientState.{ClientState}
use lcp.LcpClient.Reader.{
  ClientLibs, client_state, contains_enclave_key, is_active_enclave_key, add_enclave_key,
  enclave_key_path, verify_report,
}
use lcp.LcpClient.Client.{register}

enclave_key_path-ne :
    {T PK SK : Type 0} (libs : ClientLibs T PK SK) (id : ClientId) (key : Address)
    → NoSlash id
    → enclave_key_path libs id key ≢ client_state_path id
unfolding enclave_key_path client_state_path
enclave_key_path-ne libs id key h e =
    let (same, rest) = client_path-injective id id _ _ h h e in ground arith

module _ {T PK SK S : Type 0} ⦃tm : TmTime T⦄ ⦃kv : KvStore S⦄ (libs : ClientLibs T PK SK) where
  is_active_enclave_key-stored :
      (ctx : Context T S) (id : ClientId) (key : Address) (bz : Bytes) (now : T) {n : ℕ}
      → get ctx (enclave_key_path libs id key) ≡ some bz
      → length bz ≡ 8
      → ctx.current_timestamp ≡ some now
      → Nanos tm.ops now n
      → is_active_enclave_key libs ctx id key ≡ ok (ltb (n / nanos_per_sec) (from_be_bytes bz))
  unfolding is_active_enclave_key host_timestamp
  is_active_enclave_key-stored ctx id key bz now {n} stored size clock at =
      let secs = Times.as_unix_timestamp_secs-Nanos {E = Error T} now n at in ground arith

  -- After a key has been added it is contained, and it is active exactly while the host's time in
  -- seconds is below the one that it was added with.
  pub add_enclave_key-active :
      (ctx : Context T S) (id : ClientId) (key : Address) (expired_at : ℕ) (now : T) {n : ℕ}
      → expired_at < 2 ^ 64
      → ctx.current_timestamp ≡ some now
      → Nanos tm.ops now n
      → let ctx' = add_enclave_key libs id key expired_at ctx in
        (contains_enclave_key libs ctx' id key ≡ true)
        × (is_active_enclave_key libs ctx' id key ≡ ok (ltb (n / nanos_per_sec) expired_at))
  unfolding add_enclave_key contains_enclave_key
  add_enclave_key-active ctx id key expired_at now {n} bound clock at =
      let read = get-set_same ctx (enclave_key_path libs id key) (to_be_bytes 8 expired_at) in
      let active =
        is_active_enclave_key-stored
          (set ctx (enclave_key_path libs id key) (to_be_bytes 8 expired_at)) id key
          (to_be_bytes 8 expired_at) now read (length-to_be_bytes 8 expired_at)
          (unfold set in clock) at in
      (
        rw (read, contains_enclave_key) refl,
        active
            ∙ ap (λ x. ok (ltb (n / nanos_per_sec) x))
                (from_be_bytes-to_be_bytes 8 expired_at bound),
      )

  -- What a registration leaves: the context as it was, or the key of a verified report with its
  -- expiration.
  register-cases :
      (ctx : Context T S) (id : ClientId) (state : ClientState)
      (eavr : EndorsedAttestationVerificationReport)
      → let (r, ctx') = register libs id state eavr ctx in
        ((now : T) × (key : Address) × (at : T) × (expiry : T) × (secs : ℕ) × (ctx.current_timestamp
            ≡ some now)
          × (verify_report libs now state eavr ≡ ok (key, at))
          × (add at state.key_expiration ≡ ok expiry)
          × (as_unix_timestamp_secs {E = Error T} expiry ≡ ok secs)
          × (r ≡ ok tt)
          × (ctx' ≡ add_enclave_key libs id key secs ctx))
        ⊎ ((ctx' ≡ ctx) × (r ≢ ok tt))
  unfolding register host_timestamp
  register-cases ctx id state eavr = elim (Option-cases ctx.current_timestamp) [
    | inl e ↦ inr (ground arith)
    | inr (now, clock) ↦ elim (Result-cases (verify_report libs now state eavr)) [
      | inr e ↦ inr (ground arith)
      | inl ((key, at), verified) ↦ elim (Result-cases (add at state.key_expiration)) [
        | inr e ↦ inr (ground arith)
        | inl (expiry, added) ↦ elim (Result-cases (as_unix_timestamp_secs {E = Error T} expiry)) [
          | inr e ↦ inr (ground arith)
          | inl (secs, whole) ↦ inl (
            now,
            key,
            at,
            expiry,
            secs,
            clock,
            verified,
            added,
            whole,
            ground arith,
            ground arith,
          )
        ]
      ]
    ]
  ]

  pub register-SamePart :
      (ctx : Context T S) (id other : ClientId) (state : ClientState)
      (eavr : EndorsedAttestationVerificationReport)
      → NoSlash id
      → NoSlash other
      → id ≢ other
      → SamePart other ctx (register libs id state eavr ctx).1
  unfolding add_enclave_key enclave_key_path
  register-SamePart ctx id other state eavr h k ne rest = elim (register-cases ctx id state eavr) [
    | inl (now, key, at, expiry, secs, _, _, _, _, r, e) ↦
        ap (λ x. get x (client_path other rest)) e ∙ set-SamePart ctx id other _ _ h k ne rest
    | inr (same, n) ↦ ap (λ x. get x (client_path other rest)) same
  ]

  -- A registration leaves the client's state.
  pub register-client_state :
      (ctx : Context T S) (id : ClientId) (state : ClientState)
      (eavr : EndorsedAttestationVerificationReport)
      → NoSlash id
      → client_state libs (register libs id state eavr ctx).1 id ≡ client_state libs ctx id
  unfolding add_enclave_key client_state Host.client_state
  register-client_state ctx id state eavr safe = elim (register-cases ctx id state eavr) [
    | inl (now, key, at, expiry, secs, _, _, _, _, r, e) ↦
        ap (λ x. client_state libs x id) e
        ∙ rw
            (get-set_other ctx (enclave_key_path libs id key) (client_state_path id)
              (to_be_bytes 8 secs) (enclave_key_path-ne libs id key safe))
            refl
    | inr (same, n) ↦ ap (λ x. client_state libs x id) same
  ]
