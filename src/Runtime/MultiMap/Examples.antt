-- ===== src/Runtime/MultiMap/Examples.antt =====
-- A multimap of numbers, and the theorems about it.
use stainless.Base.{ℕ, ◌+◌, length, ◌≡◌, refl, arith, ltb, ◌==◌, List, [], ◌∷◌}
use stainless.Runtime.MultiMap.{
  Ordered, new, get, set, erase, insert, remove, remove_from, remove_first, remove_all, retain,
  retain_entries, visit_each_mut, with_mut, with_mut_in,
}
use stainless.Runtime.MultiMap.Laws.{
  Operation, inserting, removing_all, removing, retaining, changing, run, values_at, IsValid,
}
use stainless.Runtime.MultiMap.Valid.{run-IsValid, run-promised}

abbrev by_size : Ordered ℕ
by_size = record {
  lt = ltb;
  lt_irrefl = λ a. ground arith;
  lt_trans = λ a b c h k. ground arith;
  lt_total = λ a b h k. ground arith;
}

abbrev operations : List (Operation ℕ ℕ)
operations =
    inserting 2 20
    ∷ (inserting 1 10
        ∷ (inserting 2 21
            ∷ (inserting 2 20
                ∷ (inserting 3 30
                    ∷ (removing ◌==◌ 2 20
                        ∷ (removing_all 1
                            ∷ (retaining (λ k v. ltb v 30)
                                ∷ (changing 2 (λ seen v. v + length seen) ∷ []))))))))

-- Of the values of 2 the first 20 is gone; 1 and 3 have no bucket left; the value after 21 is one
-- larger for the value before it.
what_is_left : (run by_size operations new).entries ≡ (2, 21 ∷ (21 ∷ [])) ∷ []
unfolding get set erase insert remove remove_from remove_first remove_all retain retain_entries
    visit_each_mut with_mut with_mut_in
what_is_left = refl

run-IsValid_example : IsValid by_size (run by_size operations new)
run-IsValid_example = run-IsValid by_size operations

run-promised_example : values_at by_size (run by_size operations new) 2 ≡ 21 ∷ (21 ∷ [])
run-promised_example = run-promised by_size operations 2
