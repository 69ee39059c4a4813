-- ===== src/Execution/Reconcile/Answered.antt =====
-- The broker's answers to a reconciliation: the pending endpoint's, or the history's after a 404.
use native.Mathlib.Decide.{ℕ_discrete}
use japan_agent.Base.{
  ℕ, ◌≡◌, ◌≢◌, refl, Bool-cases, ◌⊎◌, inl, inr, Option, none, some, get_or, List, [], ◌∷◌, ◌++◌,
  String, str_eq, str_eq_iff, ok, err, ap, In, arith, false,
}
use japan_agent.Storage.Rows.{BrokerOrder}
use japan_agent.Execution.Errors.{
  ExecutionError, manual, order_absent, broker_failed, undecodable_answer,
}
use japan_agent.Execution.Broker.{
  BrokerReply, BrokerError, order, failure, rejected, uncertain, unusable, escaped,
}
use japan_agent.Execution.Reconcile.{find_order, find_response}

-- `str(item.get("id"))`
abbrev id_text : BrokerOrder → String
id_text o = get_or o.id "None"

-- No order of the list has the id.
abbrev pub IsAbsent : String → List BrokerOrder → Type 0
IsAbsent id os = (o : BrokerOrder) → In o os → id_text o ≢ id

-- The first order of the list that has the id.
abbrev pub IsFirst : String → List BrokerOrder → BrokerOrder → Type 0
IsFirst id os o =
    (before : List BrokerOrder) × (after : List BrokerOrder) × (os ≡ before ++ o ∷ after)
    × (id_text o ≡ id)
    × IsAbsent id before

unequal : (o : BrokerOrder) (id : String) → str_eq (id_text o) id ≡ false → id_text o ≢ id
unequal o id h e = ground (arith, str_eq_iff (id_text o) id, e)

IsAbsent-∷ :
    (id : String) (o : BrokerOrder) (os : List BrokerOrder)
    → id_text o ≢ id
    → IsAbsent id os
    → IsAbsent id (o ∷ os)
IsAbsent-∷ id o os h k x (inl e) = rw e h
IsAbsent-∷ id o os h k x (inr later) = k x later

find_order_cases :
    (id : String) (os : List BrokerOrder)
    → ((o : BrokerOrder) × (find_order id os ≡ some o) × IsFirst id os o)
      ⊎ ((find_order id os ≡ none) × IsAbsent id os)
unfolding find_order
find_order_cases id [] = inr (refl, λ o h. absurd h)
find_order_cases id (o ∷ os) = elim (Bool-cases (str_eq (id_text o) id)) [
  | inl same ↦
      inl (o, rw same refl, ([], os, refl, (str_eq_iff (id_text o) id).0 same, λ x h. absurd h))
  | inr other ↦ elim (find_order_cases id os) [
    | inl (p, found, (before, after, split, named, absent)) ↦ inl (
      p,
      rw (other, found) refl,
      (
        o ∷ before,
        after,
        ap (λ (l : List BrokerOrder). o ∷ l) split,
        named,
        IsAbsent-∷ id o before (unequal o id other) absent,
      ),
    )
    | inr (found, absent) ↦
        inr (rw (other, found) refl, IsAbsent-∷ id o os (unequal o id other) absent)
  ]
]

-- The broker gives an order.
abbrev pub Answered : String → BrokerReply → Option (List BrokerOrder) → BrokerOrder → Type 0
Answered id reply history o =
    (reply ≡ order o)
    ⊎ ((reply ≡ failure (rejected 404))
        × ((os : List BrokerOrder) × (history ≡ some os) × IsFirst id os o))

-- The broker gives none.
abbrev pub Unanswered : String → BrokerReply → Option (List BrokerOrder) → Type 0
Unanswered id reply history =
    (e : BrokerError) × (reply ≡ failure e)
    × ((e ≢ rejected 404)
        ⊎ ((history ≡ none) ⊎ ((os : List BrokerOrder) × (history ≡ some os) × IsAbsent id os)))

answered_history :
    (id : String) (os : List BrokerOrder)
    → ((o : BrokerOrder) × (find_response id (failure (rejected 404)) (some os) ≡ ok o)
        × IsFirst id os o)
      ⊎ ((e : ExecutionError) × (find_response id (failure (rejected 404)) (some os) ≡ err e)
          × IsAbsent id os)
unfolding find_response
answered_history id os = elim (find_order_cases id os) [
  | inl (o, found, first) ↦ inl (o, rw found refl, first)
  | inr (found, absent) ↦ inr (manual order_absent, rw found refl, absent)
]

pub find_response_cases :
    (id : String) (reply : BrokerReply) (history : Option (List BrokerOrder))
    → ((o : BrokerOrder) × (find_response id reply history ≡ ok o) × Answered id reply history o)
      ⊎ ((e : ExecutionError) × (find_response id reply history ≡ err e)
          × Unanswered id reply history)
unfolding find_response
find_response_cases id (order o) history = inl (o, refl, inl refl)
find_response_cases id (failure uncertain) history =
    inr (broker_failed, refl, (uncertain, refl, inl (λ e. cc)))
find_response_cases id (failure unusable) history =
    inr (broker_failed, refl, (unusable, refl, inl (λ e. cc)))
find_response_cases id (failure escaped) history =
    inr (undecodable_answer, refl, (escaped, refl, inl (λ e. cc)))
find_response_cases id (failure (rejected status)) none = elim (ℕ_discrete status 404) [
  | no other ↦
      inr (broker_failed, ground (arith, other), (rejected status, refl, inl (λ e. other cc)))
  | yes same ↦ inr (broker_failed, ground (arith, same), (rejected status, refl, inr (inl refl)))
]
find_response_cases id (failure (rejected status)) (some os) = elim (ℕ_discrete status 404) [
  | no other ↦
      inr (broker_failed, ground (arith, other), (rejected status, refl, inl (λ e. other cc)))
  | yes same ↦ elim (answered_history id os) [
    | inl (o, found, first) ↦
        inl (o, rw same found, inr (ap (λ (n : ℕ). failure (rejected n)) same, (os, refl, first)))
    | inr (e, found, absent) ↦
        inr (e, rw same found, (rejected status, refl, inr (inr (os, refl, absent))))
  ]
]
