-- ===== src/IndexedVector/Invariant.antt =====
-- The name index and the entries agree, and every operation keeps them so.
use falco.Prelude.{
  ℕ, ◌<◌, String, ◌≡◌, some, [], ◌∷◌, arith, ◌==◌, string_eq, if◌then◌else◌, length, length-append,
  length-set, Option-cases, inl, inr,
}
use falco.IndexedVector.{IndexedVector, Index, find, assign, empty_vector, clear, insert, update}

pub find-assign :
    (k j : String) (v : ℕ) (m : Index)
    → find j (assign k v m) ≡ (if j == k then some v else find j m)
unfolding find assign
find-assign k j v [] = ground arith
find-assign k j v ((i, w) ∷ m) = ground (arith, find-assign k j v m)

-- Every indexed number is in range, and two names share no number.
pub record IsValid {ℓ} {T : Type ℓ} (v : IndexedVector T) : Type 0 where
  pub in_range : (k : String) (i : ℕ) → find k v.m_index ≡ some i → i < length v.m_entries
  pub unique :
      (j k : String) (i : ℕ) → find j v.m_index ≡ some i → find k v.m_index ≡ some i → j ≡ k

module _ {ℓ} {T : Type ℓ} where
  pub empty_vector-IsValid : IsValid (empty_vector {T = T})
  unfolding find
  empty_vector-IsValid = record { in_range = λ k i h. cc; unique = λ j k i h. cc }

  pub clear-IsValid : (v : IndexedVector T) → IsValid (clear v)
  unfolding clear find
  clear-IsValid v = record { in_range = λ k i h. cc; unique = λ j k i h. cc }

  -- Inserting keeps the index in range and one-to-one, for a new name and for a known one.
  pub insert-IsValid :
      (entry : T) (index : String) (v : IndexedVector T)
      → IsValid v
      → IsValid (insert entry index v).0
  unfolding insert
  insert-IsValid entry index v h = elim (Option-cases (find index v.m_index)) [
    | inr (id, e) ↦
        rw (e, insert)
          (record {
            in_range = λ k i p. omega (arith, length-set v.m_entries id entry, h.in_range k i p);
            unique = h.unique;
          })
    | inl e ↦
        rw (e, insert)
          (record {
            in_range = λ k i.
                rw find-assign
                  (ground (arith, h.in_range k i, length-append v.m_entries (entry ∷ [])));
            unique = λ j k i.
                rw (find-assign index j, find-assign index k)
                  (ground (arith, h.in_range j i, h.in_range k i, h.unique j k i));
          })
  ]

  pub update-IsValid :
      (index : String) (entry : T) (v : IndexedVector T)
      → IsValid v
      → IsValid (update index entry v)
  unfolding update
  update-IsValid index entry v h = elim (Option-cases (find index v.m_index)) [
    | inl e ↦ rw (e, update) h
    | inr (id, e) ↦
        rw (e, update)
          (record {
            in_range = λ k i p. omega (arith, length-set v.m_entries id entry, h.in_range k i p);
            unique = h.unique;
          })
  ]
