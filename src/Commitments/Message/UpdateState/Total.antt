-- ===== src/Commitments/Message/UpdateState/Total.antt =====
-- Which lists `aggregate_messages` accepts (modules/commitments/src/message/update_state.rs).
use lcp.Base.{◌≡◌, refl, sym, ◌∙◌, List, [], ◌∷◌, ◌++◌, ok, All, if◌then◌else◌}
use lcp.Base.Equality.{==_iff}
use lcp.Base.Bytes.{bytes_PartialEq}
use lcp.Types.Time.{Duration, TmTime}
use lcp.Types.Height.{zero_height, height_PartialEq}
use lcp.Commitments.StateId.{default_state_id}
use lcp.Commitments.Context
use lcp.Commitments.Context.{ValidationContext, empty, within, duration_PartialEq}
use lcp.Commitments.Message.UpdateState.{
  UpdateStateProxyMessage, unwrap_or, aggregate, aggregate_from, aggregate_messages,
}
use lcp.Commitments.Message.UpdateState.Chain.{Linked, Chain, Chain-SameEnd, aggregate-Merged}

-- A trusting period context has these two durations.
abbrev pub Shares : {T : Type 0} → Duration → Duration → ValidationContext T → Type 0
Shares period drift empty = Unit
Shares period drift (within ctx) = (ctx.trusting_period ≡ period) × (ctx.clock_drift ≡ drift)

module _ {T : Type 0} ⦃tm : TmTime T⦄ (period drift : Duration) where
  context_total :
      (a b : ValidationContext T)
      → Shares period drift a
      → Shares period drift b
      → (c : ValidationContext T) × (Context.aggregate a b ≡ ok c) × Shares period drift c
  unfolding Context.aggregate
  context_total empty empty sa sb = (empty, refl, tt)
  context_total empty (within y) sa sb = (within y, refl, sb)
  context_total (within x) empty sa sb = (within x, refl, sa)
  context_total (within x) (within y) sa sb = (
    within (record {
      trusting_period = x.trusting_period;
      clock_drift = x.clock_drift;
      untrusted_header_timestamp =
          if tm.lt y.untrusted_header_timestamp x.untrusted_header_timestamp
          then x.untrusted_header_timestamp
          else y.untrusted_header_timestamp;
      trusted_state_timestamp =
          if tm.lt x.trusted_state_timestamp y.trusted_state_timestamp
          then x.trusted_state_timestamp
          else y.trusted_state_timestamp;
    }),
    rw
        (
          (==_iff x.trusting_period y.trusting_period).1 (sa.0 ∙ sym sb.0),
          (==_iff x.clock_drift y.clock_drift).1 (sa.1 ∙ sym sb.1),
        )
        refl,
    sa,
  )

  aggregate_total :
      (m n : UpdateStateProxyMessage T)
      → Linked m n
      → Shares period drift m.context
      → Shares period drift n.context
      → (r : UpdateStateProxyMessage T) × (aggregate m n ≡ ok r) × Shares period drift r.context
  unfolding aggregate
  aggregate_total m n l sm sn =
      let (c, made, sc) = context_total m.context n.context sm sn in
      (
        record {
          prev_height = m.prev_height;
          prev_state_id = m.prev_state_id;
          post_height = n.post_height;
          post_state_id = n.post_state_id;
          timestamp = n.timestamp;
          context = c;
          emitted_states = m.emitted_states ++ n.emitted_states;
        },
        rw
            (
              (==_iff m.post_state_id (unwrap_or default_state_id n.prev_state_id)).1 l.0,
              (==_iff m.post_height (unwrap_or zero_height n.prev_height)).1 l.1,
              made,
            )
            refl,
        sc,
      )

  aggregate_from_total :
      (m : UpdateStateProxyMessage T) (ms : List (UpdateStateProxyMessage T))
      → Chain m ms
      → All (λ (x : UpdateStateProxyMessage T). Shares period drift x.context) (m ∷ ms)
      → (r : UpdateStateProxyMessage T) × (aggregate_from m ms ≡ ok r)
  unfolding aggregate_from
  aggregate_from_total m [] c s = (m, refl)
  aggregate_from_total m (n ∷ ns) c s =
      let (x, made, sx) = aggregate_total m n c.0 s.0 s.1.0 in
      let e = (aggregate-Merged m n made).same_end in
      let (r, rest) =
        aggregate_from_total x ns (Chain-SameEnd n x ns (sym e.0, sym e.1, sym e.2) c.1)
          (sx, s.1.1) in
      (r, rw made rest)

  -- A chain of messages whose trusting period contexts agree on both durations is aggregated.
  pub aggregate_messages_total :
      (m : UpdateStateProxyMessage T) (ms : List (UpdateStateProxyMessage T))
      → Chain m ms
      → All (λ (x : UpdateStateProxyMessage T). Shares period drift x.context) (m ∷ ms)
      → (r : UpdateStateProxyMessage T) × (aggregate_messages (m ∷ ms) ≡ ok r)
  unfolding aggregate_messages
  aggregate_messages_total m ms c s = aggregate_from_total m ms c s
