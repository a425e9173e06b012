-- ===== src/Store.antt =====
-- store/store.go: what an entry and a store offer, as records of actions on a state `S`.
-- A Go interface value is such a record; EntryConfig and storeConfig are its only implementations.
mod Info
pub mod Os
pub mod Flat
pub mod Tools
pub mod Skill
pub mod Memory
pub mod RunFile
pub mod Keeps
pub use Info.*
use ollie_9p.Prelude.{Bytes, codes, ◌++◌}
use ollie_9p.Prelude.Outcome.{Act, fail}

-- StoreEntry, implemented by EntryConfig.
pub record StoreEntry (S : Type 0) : Type 0 where
  pub stat_fn : Act S FileInfo
  pub read_fn : Act S Bytes
  pub write_fn : Bytes → Act S Unit
  pub blocking_read_fn : Bytes → Act S Bytes

-- Store, implemented by storeConfig.
pub record Store (S : Type 0) : Type 0 where
  pub stat_fn : Bytes → Act S FileInfo
  pub list_fn : Listing S
  pub open_fn : Bytes → Act S (StoreEntry S)
  pub create_fn : Bytes → Act S Unit
  pub delete_fn : Bytes → Act S Unit
  pub rename_fn : Bytes → Bytes → Act S Unit

-- The blocking read of entries that have none.
abbrev pub not_blocking : {S : Type 0} → Bytes → Act S Bytes
not_blocking base = fail (codes "blocking read not supported")

-- fmt.Errorf("%s: not found", name)
abbrev pub not_found : Bytes → Bytes
not_found name = name ++ codes ": not found"
