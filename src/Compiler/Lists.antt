-- ===== src/Compiler/Lists.antt =====
-- userspace/engine/rule_loader_compiler.cpp: the lists are compiled, with the list of
-- userspace/engine/falco_rule.h.
use falco.Prelude.{
  ℕ, String, Bool, true, false, Option, none, some, List, [], ◌∷◌, ◌++◌, ltb, if◌then◌else◌, nat_eq,
  string_eq, list_eq, get_elem?, set,
}
use falco.IndexedVector.{IndexedVector, insert, at, update}
use falco.LoadInfo.{ListInfo}
use falco.Collector.{Collector}

pub record FalcoList : Type 0 where
  pub used : Bool
  pub id : ℕ
  pub name : String
  pub items : List String

-- An element is inserted, and what stands under its number gets that as its id.
unfoldable pub insert_with_id :
    {T : Type 0} → (set_id : ℕ → T → T) → T → String → IndexedVector T → IndexedVector T
insert_with_id set_id t name out =
    let (v, id) = insert t name out in
    record v {
      m_entries = elim (get_elem? v.m_entries id) [
        | none ↦ v.m_entries
        | some t' ↦ set v.m_entries id (set_id id t')
      ];
    }

-- The list that an item names, where it was first seen before the given number.
unfoldable pub find_reference :
    IndexedVector ListInfo → (visibility : ℕ) → (item : String) → Option ListInfo
find_reference lists visibility item = elim (at item lists) [
  | none ↦ none
  | some ref ↦ if ltb ref.index visibility then some ref else none
]

-- The items with those of the lists that they name, and the names of these lists.
unfoldable pub expand_items :
    IndexedVector ListInfo → (visibility : ℕ) → List String → List String × List String
expand_items lists visibility [] = ([], [])
expand_items lists visibility (item ∷ items) =
    let (rest, used_names) = expand_items lists visibility items in
    elim (find_reference lists visibility item) [
      | none ↦ (item ∷ rest, used_names)
      | some ref ↦ (ref.items ++ rest, ref.name ∷ used_names)
    ]

unfoldable pub compile_each_list :
    IndexedVector ListInfo
    → List ListInfo
    → IndexedVector FalcoList
    → IndexedVector FalcoList × List String
compile_each_list lists [] out = (out, [])
compile_each_list lists (list ∷ rest) out =
    let (items, used_names) = expand_items lists list.visibility list.items in
    let infos : FalcoList = record { used = false; id = 0; name = list.name; items = items } in
    let (out', more_names) =
      compile_each_list lists rest
        (insert_with_id (λ i l. record l { id = i }) infos list.name out) in
    (out', used_names ++ more_names)

-- Every list that is named was compiled.
unfoldable pub mark_used_lists : List String → IndexedVector FalcoList → IndexedVector FalcoList
mark_used_lists [] out = out
mark_used_lists (name ∷ names) out =
    mark_used_lists names
      (elim (at name out) [ none ↦ out | some l ↦ update name (record l { used = true }) out ])

unfoldable pub compile_list_infos :
    {SinspVersion : Type 0}
    → Collector SinspVersion
    → IndexedVector FalcoList
    → IndexedVector FalcoList
compile_list_infos col out =
    let (out', used_names) = compile_each_list col.m_list_infos col.m_list_infos.m_entries out in
    mark_used_lists used_names out'
