-- ===== src/IndexedVector.antt =====
-- userspace/engine/indexed_vector.h: a vector whose elements are reached by number and by name.
pub mod Invariant
pub mod Lookup
pub mod Numbers
use falco.Prelude.{
  ℕ, suc, ◌+◌, String, Option, none, some, Bool, true, false, List, [], ◌∷◌, ◌++◌, Eq, ◌==◌,
  string_eq, if◌then◌else◌, length, get_elem?, set,
}

-- `std::unordered_map<std::string, size_t>`: what `find` gives, and `m[k] = v`.
abbrev pub Index : Type 0
Index = List (String × ℕ)

unfoldable pub find : String → Index → Option ℕ
find k [] = none
find k ((j, v) ∷ m) = if k == j then some v else find k m

unfoldable pub assign : String → ℕ → Index → Index
assign k v [] = (k, v) ∷ []
assign k v ((j, w) ∷ m) = if k == j then (k, v) ∷ m else (j, w) ∷ assign k v m

pub record IndexedVector {ℓ} (T : Type ℓ) : Type ℓ where
  pub m_entries : List T
  pub m_index : Index

abbrev pub empty_vector {ℓ} : {T : Type ℓ} → IndexedVector T
empty_vector = record { m_entries = []; m_index = [] }

module _ {ℓ} {T : Type ℓ} where
  pub size : IndexedVector T → ℕ
  size v = length v.m_entries

  pub empty : IndexedVector T → Bool
  empty v = elim v.m_entries [ [] ↦ true | _ ∷ _ ↦ false ]

  unfoldable pub clear : IndexedVector T → IndexedVector T
  clear v = record { m_entries = []; m_index = [] }

  insert_at : Option ℕ → T → String → IndexedVector T → IndexedVector T × ℕ
  insert_at (some id) entry index v = (record v { m_entries = set v.m_entries id entry }, id)
  insert_at none entry index v =
      let id = length v.m_entries in
      (record { m_entries = v.m_entries ++ entry ∷ []; m_index = assign index id v.m_index }, id)

  -- The new vector, and the numeric index of the element.
  unfoldable pub insert : T → String → IndexedVector T → IndexedVector T × ℕ
  unfolding insert_at find assign
  insert entry index v = insert_at (find index v.m_index) entry index v

  unfoldable pub at_id : ℕ → IndexedVector T → Option T
  at_id id v = get_elem? v.m_entries id

  at_found : Option ℕ → IndexedVector T → Option T
  at_found (some id) v = at_id id v
  at_found none v = none

  unfoldable pub at : String → IndexedVector T → Option T
  unfolding at_id at_found find
  at index v = at_found (find index v.m_index) v

  -- Writing through the pointer that `at(index)` returned.
  unfoldable pub update : String → T → IndexedVector T → IndexedVector T
  unfolding find
  update index entry v = elim (find index v.m_index) [
    | none ↦ v
    | some id ↦ record v { m_entries = set v.m_entries id entry }
  ]
