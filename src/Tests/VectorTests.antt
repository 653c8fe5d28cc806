-- ===== src/Tests/VectorTests.antt =====
-- The vector with two indexes.
use falco.Prelude.{ℕ, ◌≡◌, refl, some, [], ◌∷◌, nat_eq, string_eq, list_eq}
use falco.IndexedVector.{IndexedVector, empty_vector, insert, at}
use falco.IndexedVector.Invariant.{IsValid, empty_vector-IsValid, insert-IsValid}

abbrev two : IndexedVector ℕ
two = record { m_entries = 10 ∷ 20 ∷ []; m_index = ("a", 0) ∷ ("b", 1) ∷ [] }

insert_twice : insert 20 "b" (insert 10 "a" (empty_vector {T = ℕ})).0 ≡ (two, 1)
unfolding insert string_eq
insert_twice = refl

insert_known : (insert 30 "a" two).1 ≡ 0
unfolding insert string_eq
insert_known = refl

two-IsValid : IsValid two
unfolding insert string_eq
two-IsValid =
    insert-IsValid 20 "b" (insert 10 "a" empty_vector).0
      (insert-IsValid 10 "a" empty_vector empty_vector-IsValid)

at_b : at "b" two ≡ some 20
unfolding at string_eq
at_b = refl
