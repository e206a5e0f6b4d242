-- ===== src/Compiler/Ownership/Accounting/Operations.antt =====
-- The operations of the flow state and of the analyzer keep the books of the loans.
use stainless.Base.{
  ℕ, zero, suc, if◌then◌else◌, ◌≡◌, inl, inr, refl, ap, sym, arith, true, Option, some, List, [],
  ◌∷◌, ◌++◌, length, get_elem?, modify, Bool-cases, Option-cases, ◌>>=◌, >>=-eq-some,
  get_elem?-some, get_elem?-lt, length-modify, String,
}
use stainless.Compiler.Diagnostic.{Span}
use stainless.Compiler.Types.{TypeRef}
use stainless.Compiler.Ownership.State.{
  Loan, Binding, FlowState, returned, deactivated, release, end_reference_loan, end_scoped_loan,
  end_scoped_loans, release_expired, is_expired, merge_ids, merge_states, pop_scope,
  pop_scope_bindings, release_expired_loans, in_scope, merge_availability, declare, push_innermost,
}
use stainless.Compiler.Ownership.Accounting.{IsBalanced}
use stainless.Compiler.Ownership.Accounting.Single.{modify-IsBalanced}
use stainless.Compiler.Ownership.Accounting.Moves.{
  returned-IsBalanced, deactivated-IsBalanced, declared-IsBalanced, to_list,
}
use stainless.Compiler.Ownership.Merge.{merge_ids-cons}
use mathlib.Core.Option.{some-injective}

release_lem :
    (loan : Loan) (bs : List Binding) {r : List Binding}
    → release loan bs ≡ some r
    → (b : Binding) × (get_elem? bs loan.owner ≡ some b)
      × (modify bs loan.owner (returned loan) ≡ r)
unfolding release
release_lem loan bs h =
    let (b, at, done) = >>=-eq-some (get_elem? bs loan.owner) _ h in
    (b, at, some-injective _ _ done)

pub release-IsBalanced :
    (bs : List Binding) (held : List Loan) (loan : Loan) {bs' : List Binding}
    → release loan bs ≡ some bs'
    → IsBalanced bs (loan ∷ held)
    → IsBalanced bs' held
release-IsBalanced bs held loan h v =
    let (b, at, e) = release_lem loan bs h in rw (← e) (returned-IsBalanced bs held loan b at v)

-- The order of giving the loan back and of marking the reference does not matter.
modify_comm {ℓ} :
    {A : Type ℓ} (xs : List A) (i j : ℕ) (f g : A → A)
    → ((x : A) → f (g x) ≡ g (f x))
    → modify (modify xs i f) j g ≡ modify (modify xs j g) i f
modify_comm [] i j f g h = refl
modify_comm (x ∷ xs) zero zero f g h = ap (λ y. y ∷ xs) (sym (h x))
modify_comm (x ∷ xs) zero (suc j) f g h = refl
modify_comm (x ∷ xs) (suc i) zero f g h = refl
modify_comm (x ∷ xs) (suc i) (suc j) f g h = ap (λ l. x ∷ l) (modify_comm xs i j f g h)

returned-deactivated :
    (loan : Loan) (b : Binding) → returned loan (deactivated b) ≡ deactivated (returned loan b)
returned-deactivated loan b = elim (Bool-cases loan.mutable) [ inl e ↦ rw e | inr e ↦ rw e ]

-- What both ways to end a reference do to one that holds a loan.
hand_back-IsBalanced :
    (bs : List Binding) (held : List Loan) (i : ℕ) (b : Binding) (loan : Loan) {bs' : List Binding}
    → get_elem? bs i ≡ some b
    → b.reference_loan ≡ some loan
    → b.reference_loan_active ≡ true
    → (release loan bs >>= λ r. some (modify r i deactivated)) ≡ some bs'
    → IsBalanced bs held
    → IsBalanced bs' held
hand_back-IsBalanced bs held i b loan at e active h v =
    let (r, er, done) = >>=-eq-some (release loan bs) _ h in
    let (o, at_owner, er') = release_lem loan bs er in
    let off = modify bs i deactivated in
    let (o', at_owner') =
      get_elem?-some off loan.owner
        (omega (arith, length-modify bs i deactivated, get_elem?-lt bs loan.owner at_owner)) in
    rw
      (
        ← some-injective _ _ done,
        ← er',
        modify_comm bs loan.owner i (returned loan) deactivated (returned-deactivated loan),
      )
      (returned-IsBalanced off held loan o' at_owner'
        (deactivated-IsBalanced bs held i b loan at e active v))

pub end_reference_loan-IsBalanced :
    (bs : List Binding) (held : List Loan) (i : ℕ) {bs' : List Binding}
    → end_reference_loan i bs ≡ some bs'
    → IsBalanced bs held
    → IsBalanced bs' held
unfolding end_reference_loan
end_reference_loan-IsBalanced bs held i h v =
    let (b, at, h₁) = >>=-eq-some (get_elem? bs i) _ h in
    elim (Bool-cases b.reference_loan_active) [
      | inr idle ↦ rw (← some-injective _ _ (rw idle at h₁)) v
      | inl active ↦ elim (Option-cases b.reference_loan) [
        | inr (loan, e) ↦ hand_back-IsBalanced bs held i b loan at e active (rw (active, e) at h₁) v
        | inl e ↦
            rw (← some-injective _ _ (rw (active, e) at h₁)) (
              modify-IsBalanced bs held i deactivated b at refl (λ m o. rw (active, e)) refl refl v)
      ]
    ]

pub end_scoped_loan-IsBalanced :
    (bs : List Binding) (held : List Loan) (i : ℕ) {bs' : List Binding}
    → end_scoped_loan i bs ≡ some bs'
    → IsBalanced bs held
    → IsBalanced bs' held
unfolding end_scoped_loan
end_scoped_loan-IsBalanced bs held i h v =
    let (b, at, h₁) = >>=-eq-some (get_elem? bs i) _ h in
    elim (Bool-cases b.reference_loan_active) [
      | inr idle ↦ rw (← some-injective _ _ (rw idle at h₁)) v
      | inl active ↦ elim (Option-cases b.reference_loan) [
        | inl e ↦ rw (← some-injective _ _ (rw (active, e) at h₁)) v
        | inr (loan, e) ↦ hand_back-IsBalanced bs held i b loan at e active (rw (active, e) at h₁) v
      ]
    ]

pub end_scoped_loans-IsBalanced :
    (ids : List ℕ) (bs : List Binding) (held : List Loan) {bs' : List Binding}
    → end_scoped_loans ids bs ≡ some bs'
    → IsBalanced bs held
    → IsBalanced bs' held
unfolding end_scoped_loans
end_scoped_loans-IsBalanced [] bs held h v = rw (← some-injective _ _ h) v
end_scoped_loans-IsBalanced (i ∷ ids) bs held h v =
    let (r, er, rest) = >>=-eq-some (end_scoped_loan i bs) _ h in
    end_scoped_loans-IsBalanced ids r held rest (end_scoped_loan-IsBalanced bs held i er v)

release_expired-IsBalanced :
    (depth position : ℕ) (ids : List ℕ) (bs : List Binding) (held : List Loan) {bs' : List Binding}
    → release_expired depth position ids bs ≡ some bs'
    → IsBalanced bs held
    → IsBalanced bs' held
unfolding release_expired
release_expired-IsBalanced depth position [] bs held h v = rw (← some-injective _ _ h) v
release_expired-IsBalanced depth position (i ∷ ids) bs held h v =
    let (r, er, rest) =
      >>=-eq-some
        (get_elem? bs i >>= λ b.
          if is_expired depth position b then end_reference_loan i bs else some bs)
        _ h in
    let (b, at, one) = >>=-eq-some (get_elem? bs i) _ er in
    release_expired-IsBalanced depth position ids r held rest
      (elim (Bool-cases (is_expired depth position b)) [
        | inl yes' ↦ end_reference_loan-IsBalanced bs held i (rw yes' at one) v
        | inr no' ↦ rw (← some-injective _ _ (rw no' at one)) v
      ])

merge_ids-IsBalanced :
    (ids : List ℕ) (left right merged : List Binding) (held : List Loan) {m : List Binding}
    → merge_ids ids left right merged ≡ some m
    → IsBalanced merged held
    → IsBalanced m held
merge_ids-IsBalanced [] left right merged held h v =
    unfold merge_ids in rw (← some-injective _ _ h) v
merge_ids-IsBalanced (i ∷ ids) left right merged held h v =
    let (l, r, b, el, er, eb, rest) = merge_ids-cons i ids left right merged h in
    merge_ids-IsBalanced ids left right _ held rest (
      modify-IsBalanced merged held i
        (λ c. record c { availability = merge_availability l.availability r.availability }) b eb
        refl (λ m o. refl) refl refl v)

pop_scope_bindings-IsBalanced :
    (ids : List (List ℕ)) (st st' : FlowState) (held : List Loan)
    → pop_scope_bindings ids st ≡ some st'
    → IsBalanced st.bindings held
    → IsBalanced st'.bindings held
unfolding pop_scope_bindings
pop_scope_bindings-IsBalanced [] st st' held h v = cc
pop_scope_bindings-IsBalanced (ids ∷ rest) st st' held h v =
    let (bs, er, done) = >>=-eq-some (end_scoped_loans ids st.bindings) _ h in
    rw (← some-injective _ _ done) (end_scoped_loans-IsBalanced ids st.bindings held er v)

pub pop_scope-IsBalanced :
    (st st' : FlowState) (held : List Loan)
    → pop_scope st ≡ some st'
    → IsBalanced st.bindings held
    → IsBalanced st'.bindings held
unfolding pop_scope
pop_scope-IsBalanced st st' held h v =
    pop_scope_bindings-IsBalanced st.scope_bindings st st' held h v

pub release_expired_loans-IsBalanced :
    (depth position : ℕ) (st st' : FlowState) (held : List Loan)
    → release_expired_loans depth position st ≡ some st'
    → IsBalanced st.bindings held
    → IsBalanced st'.bindings held
unfolding release_expired_loans
release_expired_loans-IsBalanced depth position st st' held h v =
    let (bs, er, done) =
      >>=-eq-some (release_expired depth position (in_scope st) st.bindings) _ h in
    rw (← some-injective _ _ done)
      (release_expired-IsBalanced depth position (in_scope st) st.bindings held er v)

pub merge_states-IsBalanced :
    (baseline left right m : FlowState) (held : List Loan)
    → merge_states baseline left right ≡ some m
    → IsBalanced baseline.bindings held
    → IsBalanced m.bindings held
unfolding merge_states
merge_states-IsBalanced baseline left right m held h v =
    let (bs, er, done) =
      >>=-eq-some (merge_ids (in_scope baseline) left.bindings right.bindings baseline.bindings) _
        h in
    rw (← some-injective _ _ done) (
      merge_ids-IsBalanced (in_scope baseline) left.bindings right.bindings baseline.bindings held
        er v)

pub declare-IsBalanced :
    (name : String) (ty : TypeRef) (loan : Option Loan) (span : Span) (last_use : Option Span)
    (depth : ℕ) (st : FlowState) (held : List Loan) {r : FlowState × ℕ}
    → declare name ty loan span last_use depth st ≡ some r
    → IsBalanced st.bindings (to_list loan ++ held)
    → IsBalanced (r.0).bindings held
unfolding declare
declare-IsBalanced name ty loan span last_use depth st held h v =
    let (scopes, es, h₁) = >>=-eq-some (push_innermost (name, length st.bindings) st.scopes) _ h in
    let (ids, ei, h₂) = >>=-eq-some (push_innermost (length st.bindings) st.scope_bindings) _ h₁ in
    rw (← some-injective _ _ h₂) (declared-IsBalanced st.bindings held _ loan refl refl refl refl v)
