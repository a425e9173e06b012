-- ===== src/Store/RunFile/Laws.antt =====
-- The index of a RunFileStore always points into the table.
use ollie_9p.Prelude.{
  ℕ, Bytes, bytes_eq, ◌==◌, Option, none, some, List, [], ◌∷◌, ◌++◌, length, length-append,
  append_assoc, get_elem?, ◌≡◌, refl, ◌∙◌, arith, if◌then◌else◌,
}
use ollie_9p.Prelude.Outcome.{Outcome, ok}
use ollie_9p.Prelude.Dict
use ollie_9p.Prelude.Dict.{Dict, lookup-insert, lookup-nil}
use ollie_9p.Store.RunFile.{FileSpec, RunFileStore, index_from, new, lookup}

module _ {S : Type 0} where
  -- The reference: the last entry of the table with that name.
  unfoldable pub find_last : Bytes → List (FileSpec S) → Option (FileSpec S)
  find_last name [] = none
  find_last name (spec ∷ specs) = elim (find_last name specs) [
    | some found ↦ some found
    | none ↦ if spec.name == name then some spec else none
  ]

  get_elem?_middle :
      (pre : List (FileSpec S)) (spec : FileSpec S) (specs : List (FileSpec S))
      → get_elem? (pre ++ spec ∷ specs) (length pre) ≡ some spec
  get_elem?_middle [] spec specs = refl
  get_elem?_middle (p ∷ pre) spec specs = get_elem?_middle pre spec specs

  abbrev or_else :
      Option (FileSpec S) → Outcome (Option (FileSpec S)) → Outcome (Option (FileSpec S))
  or_else none before = before
  or_else (some found) before = ok (some found)

  abbrev table : List (FileSpec S) → Dict Bytes ℕ → RunFileStore S
  table specs index = record { specs = specs; index = index }

  lookup-insert_middle :
      (pre specs : List (FileSpec S)) (spec : FileSpec S) (index : Dict Bytes ℕ) (name : Bytes)
      → lookup (table (pre ++ spec ∷ specs) (Dict.insert spec.name (length pre) index)) name ≡ (
          if spec.name == name
          then ok (some spec)
          else lookup (table (pre ++ spec ∷ specs) index) name)
  unfolding lookup
  lookup-insert_middle pre specs spec index name =
      ground
        (arith, lookup-insert name spec.name (length pre) index, get_elem?_middle pre spec specs)

  lookup-index_from :
      (pre specs : List (FileSpec S)) (index : Dict Bytes ℕ) (name : Bytes)
      → lookup (table (pre ++ specs) (index_from (length pre) specs index)) name
        ≡ or_else (find_last name specs) (lookup (table (pre ++ specs) index) name)
  unfolding index_from find_last
  lookup-index_from pre [] index name = refl
  lookup-index_from pre (spec ∷ specs) index name = ground (
    arith,
    length-append pre (spec ∷ []),
    append_assoc pre (spec ∷ []) specs,
    lookup-index_from (pre ++ spec ∷ []) specs (Dict.insert spec.name (length pre) index) name,
    lookup-insert_middle pre specs spec index name,
  )

  or_else-none : (o : Option (FileSpec S)) → or_else o (ok none) ≡ ok o
  or_else-none none = refl
  or_else-none (some found) = refl

  -- A lookup in a new store never panics, and finds the last entry of the table with that name.
  pub lookup-new :
      (specs : List (FileSpec S)) (name : Bytes)
      → lookup (new specs) name ≡ ok (find_last name specs)
  unfolding new lookup Dict.lookup
  lookup-new specs name = lookup-index_from [] specs [] name ∙ or_else-none (find_last name specs)
