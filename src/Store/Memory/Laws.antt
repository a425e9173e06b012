-- ===== src/Store/Memory/Laws.antt =====
-- What the operations of MemoryStore do to the value of each key.
use mathlib.Core.Path.{fun_ext}
use ollie_9p.Prelude.{
  Bytes, bytes_eq, ◌==◌, bytes_beq_iff, Option, none, some, List, [], ◌∷◌, ◌≡◌, refl, arith,
  if◌then◌else◌, Option-cases, inl, inr,
}
use ollie_9p.Prelude.Outcome.{Outcome, ok, err, Act}
use ollie_9p.Prelude.Dict
use ollie_9p.Prelude.Dict.{dict_laws, lookup-insert, lookup-erase}
use ollie_9p.Store.Memory.{MemoryStore, get, set, create, delete, rename}
use ollie_9p.Store.{not_found}

-- The value of a key, if it is there.
abbrev pub value : MemoryStore → Bytes → Option Bytes
value m k = Dict.lookup k m.entries

pub get-set :
    (m : MemoryStore) (k j v : Bytes) → get j (set k v m) ≡ (if k == j then v else get j m)
unfolding get set
get-set m k j v = ground (arith, lookup-insert j k v m.entries)

-- A rename that succeeds moves the value of the old name to the new one, and leaves all others.
pub value-rename :
    (m : MemoryStore) (old_name new_name j v : Bytes)
    → value m old_name ≡ some v
    → value (rename old_name new_name m).1 j
      ≡ (if old_name == j then none else if new_name == j then some v else value m j)
unfolding rename
value-rename m old_name new_name j v h = ground (
  arith,
  lookup-erase j old_name (Dict.insert new_name v m.entries),
  lookup-insert j new_name v m.entries,
)

-- A rename of a key to itself deletes it.
pub rename_self_deletes :
    (m : MemoryStore) (name v : Bytes)
    → value m name ≡ some v
    → ((rename name name m).0 ≡ ok tt) × (value (rename name name m).1 name ≡ none)
unfolding rename
rename_self_deletes m name v h =
    (ground arith, ground (arith, bytes_beq_iff name name, value-rename m name name name v h))

-- The operations that may change the store.
pub data Op : Type 0 where
  op_set : Bytes → Bytes → Op
  op_create op_delete : Bytes → Op
  op_rename : Bytes → Bytes → Op

pub run : Op → Act MemoryStore Unit
run (op_set k v) m = (ok tt, set k v m)
run (op_create k) m = create k m
run (op_delete k) m = delete k m
run (op_rename old_name new_name) m = rename old_name new_name m

-- The specification: a partial function from keys to values.
abbrev pub View : Type 0
View = Bytes → Option Bytes

pub spec : Op → Act View Unit
spec (op_set k v) f = (ok tt, λ j. if k == j then some v else f j)
spec (op_create k) f = (ok tt, λ j. if k == j then some [] else f j)
spec (op_delete k) f = elim (f k) [
  | none ↦ (err (not_found k), f)
  | some _ ↦ (ok tt, λ j. if k == j then none else f j)
]
spec (op_rename a b) f = elim (f a) [
  | none ↦ (err (not_found a), f)
  | some v ↦ (ok tt, λ j. if a == j then none else if b == j then some v else f j)
]

-- Each operation gives the outcome of the specification.
outcome-run : (op : Op) (m : MemoryStore) → (run op m).0 ≡ (spec op (value m)).0
unfolding run spec create delete rename
outcome-run (op_set k v) m = refl
outcome-run (op_create k) m = refl
outcome-run (op_delete k) m = ground arith
outcome-run (op_rename a b) m = ground arith

-- It leaves the specification's value at each key.
value-run : (op : Op) (m : MemoryStore) (j : Bytes) → value (run op m).1 j ≡ (spec op (value m)).1 j
unfolding run spec set create delete rename
value-run (op_set k v) m j = lookup-insert j k v m.entries
value-run (op_create k) m j = lookup-insert j k [] m.entries
value-run (op_delete k) m j = ground (arith, lookup-erase j k m.entries, bytes_beq_iff k j)
value-run (op_rename a b) m j = elim (Option-cases (value m a)) [
  | inl e ↦ rw (e, rename, spec)
  | inr (v, e) ↦
      rw (e, rename, spec)
        (ground
          (arith, lookup-erase j a (Dict.insert b v m.entries), lookup-insert j b v m.entries))
]

pub run_all : List Op → MemoryStore → List (Outcome (Unit {0})) × MemoryStore
run_all [] m = ([], m)
run_all (op ∷ ops) m = let (r, m') = run op m in let (rs, m'') = run_all ops m' in (r ∷ rs, m'')

pub spec_all : List Op → View → List (Outcome (Unit {0})) × View
spec_all [] f = ([], f)
spec_all (op ∷ ops) f = let (r, f') = spec op f in let (rs, f'') = spec_all ops f' in (r ∷ rs, f'')

-- After any operations the outcomes and the values of all keys are those of the specification.
pub run_all-eq-spec_all :
    (ops : List Op) (m : MemoryStore)
    → ((run_all ops m).0 ≡ (spec_all ops (value m)).0)
      × (value (run_all ops m).1 ≡ (spec_all ops (value m)).1)
unfolding run_all spec_all
run_all-eq-spec_all [] m = (refl, refl)
run_all-eq-spec_all (op ∷ ops) m =
    let e : value (run op m).1 ≡ (spec op (value m)).1 = fun_ext (value-run op m) in
    rw (← e) (let ih = run_all-eq-spec_all ops (run op m).1 in (cc (outcome-run op m, ih.0), ih.1))
