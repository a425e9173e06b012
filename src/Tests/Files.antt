-- ===== src/Tests/Files.antt =====
-- The theorems on stores, paths and the texts of a session's files, at concrete inputs.
use ollie_9p.Prelude.{
  Bytes, bytes_eq, bytes_beq, List, [], ◌∷◌, codes, none, some, ◌≡◌, refl, arith,
}
use ollie_9p.Prelude.Int.{negsuc}
use ollie_9p.Prelude.Dict
use ollie_9p.Prelude.Outcome.{fail, ok, pure}
use ollie_9p.Agent.{GenerationParams}
use ollie_9p.Path.{path_parent, path_join, path_base}
use ollie_9p.Path.Laws.{path_parent-path_join}
use ollie_9p.Session.Params.{format_params, parse_params}
use ollie_9p.Session.Params.Laws.{AllPrintBack, parse_params-format_params}
use ollie_9p.Store.Memory.{MemoryStore, rename}
use ollie_9p.Store.Memory.Laws.{
  value, rename_self_deletes, Op, op_set, op_rename, op_delete, run_all, spec_all,
  run_all-eq-spec_all,
}
use ollie_9p.Store.RunFile.{FileSpec, lookup, new}
use ollie_9p.Store.RunFile.Laws.{find_last, lookup-new}
use ollie_9p.Path.Clean.{filepath_join}
use ollie_9p.Store.{dir_entry}
use ollie_9p.Store.Os.{Os}
use ollie_9p.Store.Skill.{Meta, list_skills}
use ollie_9p.Store.Skill.Laws.{list_skills-IsSorted}
use ollie_9p.Text.Order.{bytes_ltb, sort_by}
use ollie_9p.Text.Order.Laws.{IsSorted}
use ollie_9p.Text.{contains}
use ollie_9p.Tests.World.{text_floats}

abbrev two_entries : MemoryStore
two_entries = record { entries = (codes "a", codes "1") ∷ (codes "b", codes "2") ∷ [] }

abbrev some_ops : List Op
some_ops =
    op_set (codes "c") (codes "3") ∷ op_rename (codes "a") (codes "b") ∷ op_delete (codes "x") ∷ []

run_all-eq-spec_all_example :
    ((run_all some_ops two_entries).0 ≡ (spec_all some_ops (value two_entries)).0)
    × (value (run_all some_ops two_entries).1 ≡ (spec_all some_ops (value two_entries)).1)
run_all-eq-spec_all_example = run_all-eq-spec_all some_ops two_entries

rename_self_deletes_example :
    ((rename (codes "a") (codes "a") two_entries).0 ≡ ok tt)
    × (value (rename (codes "a") (codes "a") two_entries).1 (codes "a") ≡ none)
unfolding Dict.lookup bytes_beq
rename_self_deletes_example = rename_self_deletes two_entries (codes "a") (codes "1") refl

abbrev one_spec : FileSpec (Unit {0})
one_spec = record {
  name = codes "plan";
  mode = 0o666;
  read = pure (codes "x");
  write = none;
  wait = none;
  size = none;
}

lookup-new_example :
    lookup (new (one_spec ∷ [])) (codes "plan") ≡ ok (find_last (codes "plan") (one_spec ∷ []))
lookup-new_example = lookup-new (one_spec ∷ []) (codes "plan")

path_parent-path_join_example :
    path_parent (path_join (codes "/s") (codes "chat")) ≡ ok (codes "/s")
unfolding contains
path_parent-path_join_example = path_parent-path_join (codes "s") (codes "chat") refl (λ e. cc)

abbrev some_params : GenerationParams Bytes
some_params = record {
  max_tokens = negsuc 4;
  temperature = some (codes "0.5");
  frequency_penalty = none;
  presence_penalty = none;
}

some_params-AllPrintBack : AllPrintBack text_floats some_params
some_params-AllPrintBack = record {
  range = omega arith;
  for_temperature = (
    (λ e. cc),
    ((omega arith, omega arith), ((omega arith, omega arith), ((omega arith, omega arith), tt))),
    refl,
  );
  for_frequency = tt;
  for_presence = tt;
}

parse_params-format_params_example :
    parse_params text_floats (format_params text_floats some_params) some_params ≡ ok some_params
parse_params-format_params_example =
    parse_params-format_params text_floats some_params some_params some_params-AllPrintBack

-- Two skills, "b" and "a", in one directory.
abbrev skill_disk : Os
skill_disk = record {
  Disk = Unit;
  stat = λ _. fail [];
  read_dir = λ _ d. ((dir_entry (codes "b") 0o755 ∷ dir_entry (codes "a") 0o755 ∷ [], none), d);
  read_file = λ _. pure (codes "text");
  write_file = λ _ _ _. fail [];
  mkdir_all = λ _ _. fail [];
  remove = λ _. fail [];
  remove_all = λ _. fail [];
  rename = λ _ _. fail [];
  environ = [];
}

abbrev meta_of : Bytes → Meta
meta_of name = record { name = name; description = []; dir = [] }

list_skills-IsSorted_example :
    IsSorted (λ (m : Meta). m.name) (meta_of (codes "a") ∷ meta_of (codes "b") ∷ [])
unfolding list_skills bytes_beq filepath_join path_base sort_by bytes_ltb
list_skills-IsSorted_example =
    list_skills-IsSorted skill_disk (λ _ base _. some (meta_of base)) (codes "/skills" ∷ []) tt
      (meta_of (codes "a") ∷ meta_of (codes "b") ∷ []) refl
