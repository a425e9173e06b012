-- ===== src/Store/RunFile.antt =====
-- store/runfilestore.go: RunFileStore, a fixed table of synthetic files.
pub mod Laws
pub mod Keeps
use ollie_9p.Prelude.{
  ℕ, zero, suc, Bytes, bytes_eq, Option, none, some, List, [], ◌∷◌, ◌++◌, codes, length, get_elem?,
}
use ollie_9p.Prelude.Outcome.{Outcome, ok, err, panic, Act, fail, lift, ◌>>=◌, pure}
use ollie_9p.Prelude.Dict
use ollie_9p.Prelude.Dict.{Dict}
use ollie_9p.Store.{FileInfo, synthetic_info, DirEntry, file_entry, StoreEntry, Store, not_found}

-- A nil function is `none`.
pub record FileSpec (S : Type 0) : Type 0 where
  pub name : Bytes
  pub mode : ℕ
  pub read : Act S Bytes
  pub write : Option (Bytes → Act S Unit)
  pub wait : Option (Bytes → Act S Bytes)
  pub size : Option (Act S ℕ)

pub record RunFileStore (S : Type 0) : Type 0 where
  pub specs : List (FileSpec S)
  pub index : Dict Bytes ℕ

module _ {S : Type 0} where
  -- `for i, s := range specs { rs.index[s.Name] = i }`
  unfoldable pub index_from : ℕ → List (FileSpec S) → Dict Bytes ℕ → Dict Bytes ℕ
  index_from i [] index = index
  index_from i (spec ∷ specs) index = index_from (suc i) specs (Dict.insert spec.name i index)

  -- NewRunFileStore, less the wiring of `run_file_store`
  unfoldable pub new : List (FileSpec S) → RunFileStore S
  unfolding index_from
  new specs = record { specs = specs; index = index_from 0 specs [] }

  -- `&rs.specs[i]` panics where the index is out of range.
  unfoldable pub lookup : RunFileStore S → Bytes → Outcome (Option (FileSpec S))
  lookup rs name = elim (Dict.lookup name rs.index) [
    | none ↦ ok none
    | some i ↦ elim (get_elem? rs.specs i) [ none ↦ panic | some spec ↦ ok (some spec) ]
  ]

  -- An error of Read is dropped and leaves the size 0.
  read_size : Outcome Bytes × S → Outcome ℕ × S
  read_size (ok content, s) = (ok (length content), s)
  read_size (err e, s) = (ok 0, s)
  read_size (panic, s) = (panic, s)

  spec_size : FileSpec S → Act S ℕ
  unfolding read_size
  spec_size spec s = elim spec.size [
    | some size ↦ size s
    | none ↦ elim spec.wait [ some _ ↦ (ok 4096, s) | none ↦ read_size (spec.read s) ]
  ]

  stat_found : Bytes → Option (FileSpec S) → Act S FileInfo
  unfolding spec_size
  stat_found name none = fail (not_found name)
  stat_found name (some spec) = do size ← spec_size spec; pure (synthetic_info name spec.mode size)

  unfoldable pub stat : RunFileStore S → Bytes → Act S FileInfo
  unfolding stat_found lookup
  stat rs name = do found ← lift (lookup rs name); stat_found name found

  unfoldable pub list_specs : List (FileSpec S) → List DirEntry
  list_specs [] = []
  list_specs (spec ∷ specs) = file_entry spec.name spec.mode ∷ list_specs specs

  abbrev pub write_of : Bytes → Option (Bytes → Act S Unit) → Bytes → Act S Unit
  write_of name none content = fail (name ++ codes ": read-only")
  write_of name (some write) content = write content

  abbrev pub wait_of : Bytes → Option (Bytes → Act S Bytes) → Bytes → Act S Bytes
  wait_of name none base = fail (name ++ codes ": not a wait file")
  wait_of name (some wait) base = wait base

  open_found : RunFileStore S → Bytes → Option (FileSpec S) → Act S (StoreEntry S)
  unfolding stat
  open_found rs name none = fail (not_found name)
  open_found rs name (some spec) = pure (record {
    stat_fn = stat rs name;
    read_fn = spec.read;
    write_fn = write_of name spec.write;
    blocking_read_fn = wait_of name spec.wait;
  })

  unfoldable pub open_entry : RunFileStore S → Bytes → Act S (StoreEntry S)
  unfolding open_found lookup
  open_entry rs name = do found ← lift (lookup rs name); open_found rs name found

  -- The Store that NewRunFileStore wires.
  abbrev pub run_file_store : RunFileStore S → Store S
  run_file_store rs = record {
    stat_fn = stat rs;
    list_fn = λ s. ((list_specs rs.specs, none), s);
    open_fn = open_entry rs;
    create_fn = λ _. fail (codes "not supported");
    delete_fn = λ _. fail (codes "not supported");
    rename_fn = λ _ _. fail (codes "not supported");
  }
