-- ===== src/Commitments/Message/UpdateState/Chain.antt =====
-- What `aggregate_messages` does to a list of messages: it succeeds on chains only, and the result
-- spans the chain (modules/commitments/src/message/update_state.rs).
use lcp.Base.{
  ℕ, ◌≡◌, refl, sym, ap, ◌∙◌, ◌↔◌, inl, inr, Bool-cases, Result-cases, List, [], ◌∷◌, ◌++◌,
  append_assoc, append-nil, ok, >>=-eq-ok, All, arith,
}
use lcp.Base.Equality.{◌==◌, ==_iff}
use lcp.Base.Bytes.{bytes_PartialEq}
use lcp.Types.Time.{TmTime, Nanos}
use lcp.Types.Height.{zero_height, height_PartialEq}
use lcp.Commitments.StateId.{default_state_id}
use lcp.Commitments.Context
use lcp.Commitments.Context.Aggregate.{IsDated, aggregate-validate, aggregate-IsDated}
use lcp.Commitments.Message.UpdateState.{
  UpdateStateProxyMessage, EmittedState, unwrap_or, aggregate, aggregate_from, aggregate_messages,
}

module _ {T : Type 0} where
  -- `b` starts from the state at which `a` ends.
  abbrev pub Linked : UpdateStateProxyMessage T → UpdateStateProxyMessage T → Type 0
  Linked a b =
      (a.post_state_id ≡ unwrap_or default_state_id b.prev_state_id)
      × (a.post_height ≡ unwrap_or zero_height b.prev_height)

  abbrev pub Chain : UpdateStateProxyMessage T → List (UpdateStateProxyMessage T) → Type 0
  Chain m [] = Unit
  Chain m (n ∷ ns) = Linked m n × Chain n ns

  abbrev pub last :
      UpdateStateProxyMessage T → List (UpdateStateProxyMessage T) → UpdateStateProxyMessage T
  last m [] = m
  last m (n ∷ ns) = last n ns

  abbrev pub all_emitted : List (UpdateStateProxyMessage T) → List EmittedState
  all_emitted [] = []
  all_emitted (m ∷ ms) = m.emitted_states ++ all_emitted ms

  -- `r` is the one step from where `m` starts to where the last message ends.
  pub record Spans (m : UpdateStateProxyMessage T) (ms : List (UpdateStateProxyMessage T))
      (r : UpdateStateProxyMessage T) : Type 0 where
    pub prev_height : r.prev_height ≡ m.prev_height
    pub prev_state_id : r.prev_state_id ≡ m.prev_state_id
    pub post_height : r.post_height ≡ (last m ms).post_height
    pub post_state_id : r.post_state_id ≡ (last m ms).post_state_id
    pub timestamp : r.timestamp ≡ (last m ms).timestamp
    pub emitted_states : r.emitted_states ≡ m.emitted_states ++ all_emitted ms

  -- The end of `m` is the end of `n`.
  abbrev pub SameEnd : UpdateStateProxyMessage T → UpdateStateProxyMessage T → Type 0
  SameEnd m n =
      (m.post_height ≡ n.post_height)
      × (m.post_state_id ≡ n.post_state_id)
      × (m.timestamp ≡ n.timestamp)

  pub Chain-SameEnd :
      (m n : UpdateStateProxyMessage T) (ns : List (UpdateStateProxyMessage T))
      → SameEnd m n
      → Chain m ns
      → Chain n ns
  Chain-SameEnd m n [] e c = tt
  Chain-SameEnd m n (x ∷ xs) e c = ((sym e.1 ∙ c.0.0, sym e.0 ∙ c.0.1), c.1)

  last-SameEnd :
      (m n : UpdateStateProxyMessage T) (ns : List (UpdateStateProxyMessage T))
      → SameEnd m n
      → SameEnd (last m ns) (last n ns)
  last-SameEnd m n [] e = e
  last-SameEnd m n (x ∷ xs) e = (refl, refl, refl)

module _ {T : Type 0} ⦃tm : TmTime T⦄ where
  -- One step of the fold, taken apart.
  pub record Merged (m n r : UpdateStateProxyMessage T) : Type 0 where
    pub linked : Linked m n
    pub same_end : SameEnd r n
    pub prev_height : r.prev_height ≡ m.prev_height
    pub prev_state_id : r.prev_state_id ≡ m.prev_state_id
    pub emitted_states : r.emitted_states ≡ m.emitted_states ++ n.emitted_states
    pub context : Context.aggregate m.context n.context ≡ ok r.context

  pub aggregate-Merged :
      (m n : UpdateStateProxyMessage T) {r : UpdateStateProxyMessage T}
      → aggregate m n ≡ ok r
      → Merged m n r
  unfolding aggregate
  aggregate-Merged m n {r} h =
      elim (Bool-cases (m.post_state_id == unwrap_or default_state_id n.prev_state_id)) [
        | inr e ↦ absurd (ground arith)
        | inl e ↦ elim (Bool-cases (m.post_height == unwrap_or zero_height n.prev_height)) [
          | inr f ↦ absurd (ground arith)
          | inl f ↦ elim (Result-cases (Context.aggregate m.context n.context)) [
            | inl (c, g) ↦ record {
              linked = ((==_iff m.post_state_id _).0 e, (==_iff m.post_height _).0 f);
              same_end = (ground arith, ground arith, ground arith);
              prev_height = ground arith;
              prev_state_id = ground arith;
              emitted_states = ground arith;
              context = ground arith;
            }
            | inr g ↦ absurd (ground arith)
          ]
        ]
      ]

  aggregate_from-Spans :
      (m : UpdateStateProxyMessage T) (ms : List (UpdateStateProxyMessage T))
      {r : UpdateStateProxyMessage T}
      → aggregate_from m ms ≡ ok r
      → Chain m ms × Spans m ms r
  unfolding aggregate_from
  aggregate_from-Spans m [] {r} h = (
    tt,
    record {
      prev_height = ground arith;
      prev_state_id = ground arith;
      post_height = ground arith;
      post_state_id = ground arith;
      timestamp = ground arith;
      emitted_states = ground (arith, append-nil m.emitted_states);
    },
  )
  aggregate_from-Spans m (n ∷ ns) {r} h =
      let (x, made, rest) = >>=-eq-ok (aggregate m n) (λ x. aggregate_from x ns) h in
      let s = aggregate-Merged m n made in
      let (chain, spans) = aggregate_from-Spans x ns rest in
      let end_ = last-SameEnd x n ns s.same_end in
      (
        (s.linked, Chain-SameEnd x n ns s.same_end chain),
        record {
          prev_height = spans.prev_height ∙ s.prev_height;
          prev_state_id = spans.prev_state_id ∙ s.prev_state_id;
          post_height = spans.post_height ∙ end_.0;
          post_state_id = spans.post_state_id ∙ end_.1;
          timestamp = spans.timestamp ∙ end_.2;
          emitted_states =
              spans.emitted_states
              ∙ ap (λ es. es ++ all_emitted ns) s.emitted_states
              ∙ append_assoc m.emitted_states n.emitted_states (all_emitted ns);
        },
      )

  -- Where `aggregate_messages` succeeds, each message starts where the one before ends, and the
  -- result spans them: it starts where the first starts, ends where the last ends, with the last
  -- one's timestamp, and emits the states of all in order.
  pub aggregate_messages-Spans :
      (m : UpdateStateProxyMessage T) (ms : List (UpdateStateProxyMessage T))
      {r : UpdateStateProxyMessage T}
      → aggregate_messages (m ∷ ms) ≡ ok r
      → Chain m ms × Spans m ms r
  unfolding aggregate_messages
  aggregate_messages-Spans m ms h = aggregate_from-Spans m ms h

  -- The context of the aggregate is accepted at a clock reading exactly if each message's is, for
  -- contexts that are dated.
  pub aggregate_from-validate :
      (m : UpdateStateProxyMessage T) (ms : List (UpdateStateProxyMessage T))
      {r : UpdateStateProxyMessage T} (now : T) {n : ℕ}
      → All (λ (x : UpdateStateProxyMessage T). IsDated x.context) (m ∷ ms)
      → Nanos tm.ops now n
      → aggregate_from m ms ≡ ok r
      → (Context.validate r.context now ≡ ok tt)
        ↔ All (λ (x : UpdateStateProxyMessage T). Context.validate x.context now ≡ ok tt) (m ∷ ms)
  unfolding aggregate_from
  aggregate_from-validate m [] {r} now d hn h =
      let e : m ≡ r = cc in rw (← e) (λ v. (v, tt), λ v. v.0)
  aggregate_from-validate m (n ∷ ns) {r} now d hn h =
      let (x, made, rest) = >>=-eq-ok (aggregate m n) (λ x. aggregate_from x ns) h in
      let s = aggregate-Merged m n made in
      let dx = aggregate-IsDated m.context n.context d.0 d.1.0 s.context in
      let ih = aggregate_from-validate x ns now (dx, d.1.1) hn rest in
      let here = aggregate-validate m.context n.context now d.0 d.1.0 hn s.context in
      (
        λ v. let a = ih.0 v in let b = here.0 a.0 in (b.0, (b.1, a.1)),
        λ v. ih.1 (here.1 (v.0, v.1.0), v.1.1),
      )
