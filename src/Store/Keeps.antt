-- ===== src/Store/Keeps.antt =====
-- Stores whose operations keep a predicate of the state: reading, writing and waiting through them
-- keeps it too.
use ollie_9p.Prelude.{Bytes, bytes_eq, ◌≡◌}
use ollie_9p.Prelude.Keeps.{Keeps, Keeps-bind}
use ollie_9p.Prelude.Outcome.{ok, Act}
use ollie_9p.Store.{StoreEntry, Store}
use ollie_9p.Store.Flat.{store_read, store_write, store_blocking_read}

module _ {S : Type 0} (P : S → Type 0) where
  pub record KeepsEntry (e : StoreEntry S) : Type 0 where
    pub reads : Keeps P e.read_fn
    pub writes : (content : Bytes) → Keeps P (e.write_fn content)
    pub waits : (base : Bytes) → Keeps P (e.blocking_read_fn base)

  -- Opening keeps the predicate, and so does what it gives.
  pub record KeepsOpen (open_fn : Bytes → Act S (StoreEntry S)) : Type 0 where
    pub opens : (name : Bytes) → Keeps P (open_fn name)
    pub entries :
        (name : Bytes) (s : S) (e : StoreEntry S) → (open_fn name s).0 ≡ ok e → KeepsEntry e

  module _ (store : Store S) (k : KeepsOpen store.open_fn) (name : Bytes) where
    pub store_read-Keeps : Keeps P (store_read store name)
    unfolding store_read
    store_read-Keeps =
        Keeps-bind P (store.open_fn name) (λ e. e.read_fn) (k.opens name)
          (λ s h e given. (k.entries name s e given).reads)

    pub store_write-Keeps : (content : Bytes) → Keeps P (store_write store name content)
    unfolding store_write
    store_write-Keeps content =
        Keeps-bind P (store.open_fn name) (λ e. e.write_fn content) (k.opens name)
          (λ s h e given. (k.entries name s e given).writes content)

    pub store_blocking_read-Keeps : (base : Bytes) → Keeps P (store_blocking_read store name base)
    unfolding store_blocking_read
    store_blocking_read-Keeps base =
        Keeps-bind P (store.open_fn name) (λ e. e.blocking_read_fn base) (k.opens name)
          (λ s h e given. (k.entries name s e given).waits base)
