-- ===== src/Store/RunFile/Keeps.antt =====
-- Stores of synthetic files keep what the functions of their files keep.
use ollie_9p.Prelude.{
  ℕ, Bytes, bytes_eq, Option, none, some, List, [], ◌∷◌, ◌≡◌, arith, Option-cases, inl, inr,
}
use ollie_9p.Prelude.Keeps.{Keeps, Keeps-bind}
use ollie_9p.Prelude.Outcome.{Outcome, ok, err, panic, Act, lift, pure, ◌>>=◌}
use ollie_9p.Store.{StoreEntry, synthetic_info}
use ollie_9p.Store.Keeps.{KeepsEntry, KeepsOpen}
use ollie_9p.Store.RunFile.{
  FileSpec, new, lookup, stat, spec_size, read_size, stat_found, open_entry, open_found,
  run_file_store, write_of, wait_of,
}
use ollie_9p.Store.RunFile.Laws.{find_last, lookup-new}

module _ {S : Type 0} (P : S → Type 0) where
  pub record KeepsSpec (spec : FileSpec S) : Type 0 where
    pub reads : Keeps P spec.read
    pub writes : (name content : Bytes) → Keeps P (write_of name spec.write content)
    pub waits : (name base : Bytes) → Keeps P (wait_of name spec.wait base)
    pub sizes : (size : Act S ℕ) → spec.size ≡ some size → Keeps P size

  abbrev pub KeepsSpecs : List (FileSpec S) → Type 0
  KeepsSpecs [] = Unit
  KeepsSpecs (spec ∷ specs) = KeepsSpec spec × KeepsSpecs specs

  KeepsSpec-find_last :
      (name : Bytes) (specs : List (FileSpec S)) (spec : FileSpec S)
      → KeepsSpecs specs
      → find_last name specs ≡ some spec
      → KeepsSpec spec
  unfolding find_last
  KeepsSpec-find_last name [] spec h e = absurd (ground arith)
  KeepsSpec-find_last name (x ∷ specs) spec (hx, hs) e =
      elim (Option-cases (find_last name specs)) [
        | inl none_later ↦ let same : x ≡ spec = ground arith in rw (← same) hx
        | inr (found, later) ↦ KeepsSpec-find_last name specs spec hs (ground arith)
      ]

  read_size-Keeps : (r : Outcome Bytes) (s : S) → P s → P (read_size (r, s)).1
  unfolding read_size
  read_size-Keeps (ok content) s h = h
  read_size-Keeps (err e) s h = h
  read_size-Keeps panic s h = h

  spec_size-Keeps : (spec : FileSpec S) → KeepsSpec spec → Keeps P (spec_size spec)
  unfolding spec_size
  spec_size-Keeps spec k s h = elim (Option-cases spec.size) [
    | inr (size, e) ↦ rw (e, spec_size) (k.sizes size e s h)
    | inl e ↦ elim (Option-cases spec.wait) [
      | inr (wait, e') ↦ rw (e, spec_size) (rw (e', spec_size) h)
      | inl e' ↦
          rw (e, spec_size)
            (rw (e', spec_size) (read_size-Keeps (spec.read s).0 (spec.read s).1 (k.reads s h)))
    ]
  ]

  module _ (specs : List (FileSpec S)) (k : KeepsSpecs specs) (name : Bytes) where
    -- A lookup keeps the predicate, and finds a file whose functions keep it.
    found-Keeps :
        {A : Type 0} (f : Option (FileSpec S) → Act S A)
        → Keeps P (f none)
        → ((spec : FileSpec S) → KeepsSpec spec → Keeps P (f (some spec)))
        → Keeps P (lift (lookup (new specs) name) >>= f)
    found-Keeps f missing there s h =
        rw (lookup-new specs name) (elim (Option-cases (find_last name specs)) [
          | inl e ↦ rw e (missing s h)
          | inr (spec, e) ↦ rw e (there spec (KeepsSpec-find_last name specs spec k e) s h)
        ])

    pub stat-Keeps : Keeps P (stat (new specs) name)
    unfolding stat stat_found
    stat-Keeps =
        found-Keeps (stat_found name) (λ s h. h)
          λ spec ks.
            Keeps-bind P (spec_size spec) (λ size. pure (synthetic_info name spec.mode size))
              (spec_size-Keeps spec ks) (λ _ _ _ _ s h. h)

    entry_of : FileSpec S → StoreEntry S
    entry_of spec = record {
      stat_fn = stat (new specs) name;
      read_fn = spec.read;
      write_fn = write_of name spec.write;
      blocking_read_fn = wait_of name spec.wait;
    }

    entry_of-Keeps : (spec : FileSpec S) → KeepsSpec spec → KeepsEntry P (entry_of spec)
    unfolding entry_of
    entry_of-Keeps spec ks = record {
      reads = ks.reads;
      writes = ks.writes name;
      waits = ks.waits name;
    }

    open_entry-Keeps : Keeps P (open_entry (new specs) name)
    unfolding open_entry open_found
    open_entry-Keeps = found-Keeps (open_found (new specs) name) (λ s h. h) (λ spec ks s h. h)

    entries-keep :
        (s : S) (e : StoreEntry S) → (open_entry (new specs) name s).0 ≡ ok e → KeepsEntry P e
    unfolding open_entry open_found entry_of
    entries-keep s e given = elim (Option-cases (find_last name specs)) [
      | inl missing ↦ absurd (ground (arith, lookup-new specs name))
      | inr (spec, found) ↦
          let same : entry_of spec ≡ e = ground (arith, lookup-new specs name) in
          rw (← same) (entry_of-Keeps spec (KeepsSpec-find_last name specs spec k found))
    ]

  pub run_file_store-Keeps :
      (specs : List (FileSpec S))
      → KeepsSpecs specs
      → KeepsOpen P (run_file_store (new specs)).open_fn
  run_file_store-Keeps specs k = record {
    opens = open_entry-Keeps specs k;
    entries = entries-keep specs k;
  }
