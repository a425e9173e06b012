-- ===== src/Store/Memory.antt =====
-- store/memory.go: MemoryStore, an in-memory key/value store. Each method holds the mutex for all
-- that it does, so that it is one step. A nil value is the empty one.
pub mod Laws
use ollie_9p.Prelude.{ℕ, Bytes, bytes_eq, Option, none, some, List, [], ◌∷◌, ◌++◌, codes, length}
use ollie_9p.Prelude.Outcome.{ok, err, Act, fail, pure, modify}
use ollie_9p.Prelude.Dict
use ollie_9p.Prelude.Dict.{Dict}
use ollie_9p.Store.{
  FileInfo, synthetic_info, DirEntry, Listing, file_entry, StoreEntry, Store, not_blocking,
  not_found,
}

pub record MemoryStore : Type 0 where
  pub entries : Dict Bytes Bytes

-- NewMemoryStore
abbrev pub new : MemoryStore
new = record { entries = [] }

abbrev or_nil : Option Bytes → Bytes
or_nil none = []
or_nil (some v) = v

unfoldable pub get : Bytes → MemoryStore → Bytes
get key m = or_nil (Dict.lookup key m.entries)

unfoldable pub set : Bytes → Bytes → MemoryStore → MemoryStore
set key value m = record { entries = Dict.insert key value m.entries }

unfoldable pub stat : Bytes → Act MemoryStore FileInfo
stat name m = elim (Dict.lookup name m.entries) [
  | none ↦ (err (not_found name), m)
  | some v ↦ (ok (synthetic_info name 0o444 (length v)), m)
]

list_entries : Dict Bytes Bytes → List DirEntry
list_entries [] = []
list_entries ((name, _) ∷ d) = file_entry name 0o444 ∷ list_entries d

unfoldable pub list : Listing MemoryStore
unfolding list_entries
list m = ((list_entries m.entries, none), m)

-- The write of an entry that Open returns is refused.
unfoldable pub open_entry : Bytes → Act MemoryStore (StoreEntry MemoryStore)
open_entry name = pure (record {
  stat_fn = stat name;
  read_fn = λ m. (ok (get name m), m);
  write_fn = λ _. fail (name ++ codes ": read-only");
  blocking_read_fn = not_blocking;
})

unfoldable pub create : Bytes → Act MemoryStore Unit
create name m = (ok tt, record { entries = Dict.insert name [] m.entries })

unfoldable pub delete : Bytes → Act MemoryStore Unit
delete name m = elim (Dict.lookup name m.entries) [
  | none ↦ (err (not_found name), record { entries = Dict.erase name m.entries })
  | some _ ↦ (ok tt, record { entries = Dict.erase name m.entries })
]

unfoldable pub rename : Bytes → Bytes → Act MemoryStore Unit
rename old_name new_name m = elim (Dict.lookup old_name m.entries) [
  | none ↦ (err (not_found old_name), m)
  | some v ↦ (ok tt, record { entries = Dict.erase old_name (Dict.insert new_name v m.entries) })
]

-- *MemoryStore as a Store.
abbrev pub memory_store : Store MemoryStore
memory_store = record {
  stat_fn = stat;
  list_fn = list;
  open_fn = open_entry;
  create_fn = create;
  delete_fn = delete;
  rename_fn = rename;
}
