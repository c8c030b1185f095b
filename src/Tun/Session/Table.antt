-- ===== src/Tun/Session/Table.antt =====
-- The NAT table is a map on flows.
use reliz_protocol.Base.{
  ◌≡◌, refl, [], ◌∷◌, true, false, none, some, arith, Bool-cases, inl, inr, subst, if◌then◌else◌,
}
use reliz_protocol.Tun.Session.{FlowKey, same_flow, TcpNatTable, get, insert, remove}

pub same_flow_refl : (k : FlowKey) → same_flow k k ≡ true
unfolding same_flow
same_flow_refl k = ground arith

pub same_flow_sound : (a b : FlowKey) → same_flow a b ≡ true → a ≡ b
unfolding same_flow
same_flow_sound a b h = ground arith

not_other :
    (k key other : FlowKey)
    → same_flow k key ≡ true
    → same_flow key other ≡ false
    → same_flow k other ≡ false
unfolding same_flow
not_other k key other e h = ground arith

module _ {ℓ} {Sender : Type ℓ} where
  get-remove :
      (key : FlowKey) (sessions : TcpNatTable Sender) → get key (remove key sessions) ≡ none
  unfolding get remove
  get-remove key [] = refl
  get-remove key ((k, tx) ∷ sessions) = elim (Bool-cases (same_flow k key)) [
    | inl e ↦ rw e (get-remove key sessions)
    | inr e ↦ rw (e, e) (get-remove key sessions)
  ]

  get_other-remove :
      (key other : FlowKey) (sessions : TcpNatTable Sender)
      → same_flow key other ≡ false
      → get other (remove key sessions) ≡ get other sessions
  unfolding get remove
  get_other-remove key other [] h = refl
  get_other-remove key other ((k, tx) ∷ sessions) h = elim (Bool-cases (same_flow k key)) [
    | inl e ↦ rw (e, not_other k key other e h) (get_other-remove key other sessions h)
    | inr e ↦ rw (e, get_other-remove key other sessions h) refl
  ]

  pub get-remove_if :
      (key other : FlowKey) (sessions : TcpNatTable Sender)
      → get other (remove key sessions) ≡ (if same_flow key other then none else get other sessions)
  get-remove_if key other sessions = elim (Bool-cases (same_flow key other)) [
    | inl e ↦ rw e (
        subst (λ k. get k (remove key sessions) ≡ none) (same_flow_sound key other e)
          (get-remove key sessions))
    | inr e ↦ rw e (get_other-remove key other sessions e)
  ]

  pub get-insert_if :
      (key other : FlowKey) (tx : Sender) (sessions : TcpNatTable Sender)
      → get other (insert key tx sessions)
        ≡ (if same_flow key other then some tx else get other sessions)
  get-insert_if key other tx sessions = elim (Bool-cases (same_flow key other)) [
    | inl e ↦ unfold insert get in rw e refl
    | inr e ↦ unfold insert get in rw e (get_other-remove key other sessions e)
  ]

  -- What is inserted for a flow is found for it, after its removal nothing is, and neither
  -- changes what is found for another flow.
  pub get-insert :
      (key : FlowKey) (tx : Sender) (sessions : TcpNatTable Sender)
      → (get key (insert key tx sessions) ≡ some tx)
        × (get key (remove key (insert key tx sessions)) ≡ none)
        × ((other : FlowKey)
            → same_flow key other ≡ false
            → (get other (insert key tx sessions) ≡ get other sessions)
              × (get other (remove key sessions) ≡ get other sessions))
  get-insert key tx sessions = (
    unfold insert get in rw (same_flow_refl key) refl,
    get-remove key (insert key tx sessions),
    λ other h. (
      unfold insert get in rw h (get_other-remove key other sessions h),
      get_other-remove key other sessions h,
    ),
  )
