-- ===== src/Compiler/Ownership/Merge.antt =====
-- What a join of control-flow paths knows of a binding: the laws of `merge_states` and
-- `merge_many_states`.
use stainless.Base.{
  ℕ, ◌==◌, ◌≡◌, ◌↔◌, ap, sym, ◌∙◌, arith, Bool, true, false, ◌||◌, Option, some, List, [], ◌∷◌,
  get_elem?, modify, All, map_option, >>=-eq-some, Bool-cases, inl, inr, get_elem?-modify_self,
  get_elem?-modify_ne,
}
use mathlib.Core.Option.{some-injective}
use stainless.Compiler.Ownership.State.{
  Availability, available, moved, maybe_moved, Binding, FlowState, in_scope, merge_availability,
  merge_ids, merge_states, merge_from, merge_many_states,
}

-- Whether an id is in a list.
abbrev pub has_id : ℕ → List ℕ → Bool
has_id i [] = false
has_id i (j ∷ ids) = j == i || has_id i ids

-- What the state knows of the binding, if there is one.
abbrev pub availability_at : List Binding → ℕ → Option Availability
availability_at bindings id = map_option (λ b. b.availability) (get_elem? bindings id)

-- One round of the loop of `merge_ids`.
pub merge_ids-cons :
    (id : ℕ) (ids : List ℕ) (left right merged : List Binding) {m : List Binding}
    → merge_ids (id ∷ ids) left right merged ≡ some m
    → (l r b : Binding) × (get_elem? left id ≡ some l)
      × (get_elem? right id ≡ some r)
      × (get_elem? merged id ≡ some b)
      × (merge_ids ids left right (
            modify merged id
              (λ c. record c { availability = merge_availability l.availability r.availability }))
          ≡ some m)
unfolding merge_ids
merge_ids-cons id ids left right merged h =
    let (l, el, h₁) = >>=-eq-some (get_elem? left id) _ h in
    let (r, er, h₂) = >>=-eq-some (get_elem? right id) _ h₁ in
    let (b, eb, h₃) = >>=-eq-some (get_elem? merged id) _ h₂ in (l, r, b, el, er, eb, h₃)

merge_ids-ne :
    (ids : List ℕ) (left right merged : List Binding) (i : ℕ) {m : List Binding}
    → merge_ids ids left right merged ≡ some m
    → has_id i ids ≡ false
    → get_elem? m i ≡ get_elem? merged i
merge_ids-ne [] left right merged i h out = unfold merge_ids in cc
merge_ids-ne (j ∷ ids) left right merged i h out =
    let (l, r, b, el, er, eb, rest) = merge_ids-cons j ids left right merged h in
    merge_ids-ne ids left right _ i rest (ground arith)
    ∙ get_elem?-modify_ne merged j i _ (ground arith)

merge_ids-availability :
    (ids : List ℕ) (left right merged : List Binding) (i : ℕ) {m : List Binding}
    → merge_ids ids left right merged ≡ some m
    → has_id i ids ≡ true
    → (l r : Availability) × (availability_at left i ≡ some l)
      × (availability_at right i ≡ some r)
      × (availability_at m i ≡ some (merge_availability l r))
merge_ids-availability [] left right merged i h mem = cc
merge_ids-availability (j ∷ ids) left right merged i h mem =
    let (l, r, b, el, er, eb, rest) = merge_ids-cons j ids left right merged h in
    elim (Bool-cases (has_id i ids)) [
      | inl later ↦ merge_ids-availability ids left right _ i rest later
      | inr last ↦
          let same : j ≡ i = ground arith in
          let f : Binding → Binding =
            λ c. record c { availability = merge_availability l.availability r.availability } in
          (
            l.availability,
            r.availability,
            rw (← same, el),
            rw (← same, er),
            ap (map_option (λ c. c.availability)) (
                merge_ids-ne ids left right _ i rest last
                ∙ ap (get_elem? (modify merged j f)) (sym same)
                ∙ get_elem?-modify_self merged j f eb),
          )
    ]

-- What the state knows of the binding satisfies `P`.
abbrev pub Knows : (Availability → Type 0) → ℕ → FlowState → Type 0
Knows P i state = (a : Availability) × (availability_at state.bindings i ≡ some a) × P a

-- A property that a join of two has exactly if both have it, a join of many has if all have it.
module _ (P : Availability → Type 0)
    (law : (l r : Availability) → P (merge_availability l r) ↔ (P l × P r)) where
  Knows_of_eq :
      (i : ℕ) (state : FlowState) (a : Availability)
      → availability_at state.bindings i ≡ some a
      → Knows P i state
      → P a
  Knows_of_eq i state a e (b, e', p) = let same : b ≡ a = cc in rw same at p

  merge_states-Knows :
      (baseline left right : FlowState) (i : ℕ) {m : FlowState}
      → merge_states baseline left right ≡ some m
      → has_id i (in_scope baseline) ≡ true
      → Knows P i m ↔ (Knows P i left × Knows P i right)
  unfolding merge_states
  merge_states-Knows baseline left right i {m} h mem =
      let (bs, eb, em) =
        >>=-eq-some (merge_ids (in_scope baseline) left.bindings right.bindings baseline.bindings) _
          h in
      let (l, r, el, er, ej) =
        merge_ids-availability (in_scope baseline) left.bindings right.bindings baseline.bindings i
          eb mem in
      let joined : availability_at m.bindings i ≡ some (merge_availability l r) = cc in
      (
        λ k.
            let both = (law l r).0 (Knows_of_eq i m _ joined k) in
            ((l, el, both.0), (r, er, both.1)),
        λ (kl, kr). (
          merge_availability l r,
          joined,
          (law l r).1 (Knows_of_eq i left l el kl, Knows_of_eq i right r er kr),
        ),
      )

  merge_from-Knows :
      (baseline merged : FlowState) (states : List FlowState) (i : ℕ) {m : FlowState}
      → merge_from baseline merged states ≡ some m
      → has_id i (in_scope baseline) ≡ true
      → Knows P i m ↔ (Knows P i merged × All (Knows P i) states)
  unfolding merge_from
  merge_from-Knows baseline merged [] i h mem =
      let same : merged ≡ _ = some-injective _ _ h in rw (← same) (λ k. (k, tt), λ k. k.0)
  merge_from-Knows baseline merged (s ∷ states) i h mem =
      let (j, ej, rest) = >>=-eq-some (merge_states baseline merged s) _ h in
      let one = merge_states-Knows baseline merged s i ej mem in
      let more = merge_from-Knows baseline j states i rest mem in
      (
        λ k. let (kj, ks) = more.0 k in let (km, k1) = one.0 kj in (km, (k1, ks)),
        λ (km, (k1, ks)). more.1 (one.1 (km, k1), ks),
      )

  pub merge_many_states-Knows :
      (baseline first : FlowState) (states : List FlowState) (i : ℕ) {m : FlowState}
      → merge_many_states baseline (first ∷ states) ≡ some m
      → has_id i (in_scope baseline) ≡ true
      → Knows P i m ↔ All (Knows P i) (first ∷ states)
  unfolding merge_many_states
  merge_many_states-Knows baseline first states i h mem =
      merge_from-Knows baseline first states i h mem

abbrev pub IsAvailable : Availability → Type 0
IsAvailable a = a ≡ available

abbrev pub IsMoved : Availability → Type 0
IsMoved available = ⊥
IsMoved (moved _) = Unit
IsMoved (maybe_moved _) = ⊥

merge_availability-IsAvailable :
    (l r : Availability) → IsAvailable (merge_availability l r) ↔ (IsAvailable l × IsAvailable r)
unfolding merge_availability
merge_availability-IsAvailable l r = ground arith

merge_availability-IsMoved :
    (l r : Availability) → IsMoved (merge_availability l r) ↔ (IsMoved l × IsMoved r)
unfolding merge_availability
merge_availability-IsMoved l r = ground arith

-- After a join of one or more paths a binding in scope is available exactly if it is available at
-- the end of every path, and counts as moved on all paths exactly if every path moved it; in all
-- other cases it may have been moved.
pub merge_many_states_iff :
    (baseline first : FlowState) (states : List FlowState) (i : ℕ) (m : FlowState)
    → merge_many_states baseline (first ∷ states) ≡ some m
    → has_id i (in_scope baseline) ≡ true
    → (Knows IsAvailable i m ↔ All (Knows IsAvailable i) (first ∷ states))
      × (Knows IsMoved i m ↔ All (Knows IsMoved i) (first ∷ states))
merge_many_states_iff baseline first states i m h mem = (
  merge_many_states-Knows IsAvailable merge_availability-IsAvailable baseline first states i h mem,
  merge_many_states-Knows IsMoved merge_availability-IsMoved baseline first states i h mem,
)
