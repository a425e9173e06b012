-- ===== src/Store/Skill.antt =====
-- store/skill.go: the store of skills, directories with a file SKILL.md in any of several places.
pub mod Laws
use mathlib.Core.List.{foldr}
use ollie_9p.Prelude.{
  Bytes, bytes_eq, ◌==◌, ◌||◌, not, Bool, false, Option, none, some, List, [], ◌∷◌, ◌++◌,
  if◌then◌else◌, codes, map,
}
use ollie_9p.Prelude.Outcome.{Outcome, ok, err, panic, Act, pure, fail, lift, ◌>>=◌, ◌>>◌}
use ollie_9p.Path.{path_base}
use ollie_9p.Path.Clean.{filepath_join, filepath_dir}
use ollie_9p.Store.{
  FileInfo, synthetic_info, DirEntry, Listing, file_entry, StoreEntry, Store, not_blocking,
  not_found,
}
use ollie_9p.Store.Os.{Os}
use ollie_9p.Text.{trim_suffix}
use ollie_9p.Text.Order.{sort_by}

-- skills.Meta of ollie/pkg/skills
pub record Meta : Type 0 where
  pub name : Bytes
  pub description : Bytes
  pub dir : Bytes

abbrev skill_file : Bytes → Bytes
skill_file dir = filepath_join dir (codes "SKILL.md")

abbrev find_named : Bytes → List Meta → Option Meta
find_named name [] = none
find_named name (m ∷ metas) = if m.name == name then some m else find_named name metas

abbrev mem_name : Bytes → List Bytes → Bool
mem_name name [] = false
mem_name name (n ∷ names) = n == name || mem_name name names

-- `seen` and `result` of the loops
abbrev pub Found : Type 0
Found = List Bytes × List Meta

abbrev add_parsed : Option Meta → Found → Found
add_parsed none found = found
add_parsed (some m) (seen, result) = (m.name ∷ seen, result ++ (m ∷ []))

section_of : Meta → Bytes
section_of m =
    codes "## "
    ++ (m.name ++ (codes "\n" ++ (codes "description: " ++ (m.description ++ codes "\n\n"))))

-- skills.ParseFrontMatter reads the file's text, with the base of the directory and the directory;
-- `none` is its error. The os is SkillStoreConfig's functions; `dirs` are skillDirs().
module _ (os : Os) (parse_front_matter : Bytes → Bytes → Bytes → Option Meta)
    (dirs : List Bytes) where
  abbrev opened : Bytes → Found → Outcome Bytes × os.Disk → Outcome Found × os.Disk
  opened dir found (ok text, disk) =
      (ok (add_parsed (parse_front_matter text (path_base dir) dir) found), disk)
  opened dir found (err _, disk) = (ok found, disk)
  opened dir found (panic, disk) = (panic, disk)

  -- The body of the inner loop. `seen` holds names of skills, and is asked for names of directories.
  list_entry : Bytes → DirEntry → Found → Act os.Disk Found
  list_entry dir e found disk =
      if not e.is_dir || mem_name e.name found.0
      then (ok found, disk)
      else opened (filepath_join dir e.name) found
          (os.read_file (skill_file (filepath_join dir e.name)) disk)

  list_entries : Bytes → List DirEntry → Found → Act os.Disk Found
  unfolding list_entry
  list_entries dir [] found = pure found
  list_entries dir (e ∷ entries) found = do
    found' ← list_entry dir e found
    list_entries dir entries found'

  -- A directory that cannot be read is passed over.
  list_dirs : List Bytes → Found → Act os.Disk Found
  unfolding list_entries
  list_dirs [] found disk = (ok found, disk)
  list_dirs (dir ∷ rest) found disk =
      let ((entries, e), disk') = os.read_dir dir disk in
      (do
        found' ← list_entries dir (elim e [ none ↦ entries | some _ ↦ [] ]) found
        list_dirs rest found')
        disk'

  -- listSkills
  unfoldable pub list_skills : Act os.Disk (List Meta)
  unfolding list_dirs
  list_skills = do found ← list_dirs dirs ([], []); pure (sort_by (λ m. m.name) found.1)

  read_found : Option Meta → Act os.Disk Bytes
  read_found none = fail (codes "file does not exist")
  read_found (some m) = os.read_file (skill_file m.dir)

  -- readSkill
  unfoldable pub read_skill : Bytes → Act os.Disk Bytes
  unfolding read_found
  read_skill name = do metas ← list_skills; read_found (find_named name metas)

  abbrev stat_read : Bytes → Outcome Bytes × os.Disk → Outcome FileInfo × os.Disk
  stat_read name (ok _, disk) = (ok (synthetic_info name 0o666 0), disk)
  stat_read name (err _, disk) = (err (not_found name), disk)
  stat_read name (panic, disk) = (panic, disk)

  stat : Bytes → Act os.Disk FileInfo
  stat name disk =
      if name == codes "idx"
      then (ok (synthetic_info (codes "idx") 0o444 0), disk)
      else stat_read name (read_skill (trim_suffix name (codes ".md")) disk)

  abbrev listed : Outcome (List Meta) × os.Disk → (List DirEntry × Option Bytes) × os.Disk
  listed (ok metas, disk) = (
    (
      file_entry (codes "idx") 0o444 ∷ map (λ m. file_entry (m.name ++ codes ".md") 0o666) metas,
      none,
    ),
    disk,
  )
  listed (err e, disk) = (([], some e), disk)
  listed (panic, disk) = (([], some []), disk)

  list : Listing os.Disk
  list disk = listed (list_skills disk)

  -- index
  unfoldable pub index : Act os.Disk Bytes
  unfolding section_of
  index = do metas ← list_skills; pure (foldr (λ m rest. section_of m ++ rest) [] metas)

  -- The first of the directories; without any the index is out of range.
  abbrev first_dir : List Bytes → Outcome Bytes
  first_dir [] = panic
  first_dir (dir ∷ _) = ok dir

  write_skill : Bytes → Bytes → Act os.Disk (Unit {0})
  write_skill dir content = do os.mkdir_all dir 0o755; os.write_file (skill_file dir) content 0o644

  new_dir : Bytes → Outcome Bytes
  new_dir name = elim (first_dir dirs) [
    | ok dir ↦ ok (filepath_join dir name)
    | err e ↦ err e
    | panic ↦ panic
  ]

  -- A skill that is not there, or has a blank directory, goes to the first directory.
  dir_for : Bytes → Option Meta → Outcome Bytes
  dir_for name none = new_dir name
  dir_for name (some m) = if m.dir == [] then new_dir name else ok m.dir

  write : Bytes → Bytes → Act os.Disk (Unit {0})
  unfolding write_skill dir_for new_dir
  write name content = do
    metas ← list_skills
    dir ← lift (dir_for name (find_named name metas))
    write_skill dir content

  open_entry : Bytes → Act os.Disk (StoreEntry os.Disk)
  unfolding write index
  open_entry name =
      if name == codes "idx"
      then pure (record {
        stat_fn = pure (synthetic_info (codes "idx") 0o444 0);
        read_fn = index;
        write_fn = λ _. fail (codes "idx: read-only");
        blocking_read_fn = not_blocking;
      })
      else pure (record {
        stat_fn = do
          read_skill (trim_suffix name (codes ".md"))
          pure (synthetic_info name 0o666 0);
        read_fn = read_skill (trim_suffix name (codes ".md"));
        write_fn = write (trim_suffix name (codes ".md"));
        blocking_read_fn = not_blocking;
      })

  abbrev no_skill : Bytes → Bytes
  no_skill name = codes "skill not found: " ++ name

  del_found : Bytes → Option Meta → Act os.Disk (Unit {0})
  del_found name none = fail (no_skill name)
  del_found name (some m) = os.remove_all m.dir

  del : Bytes → Act os.Disk (Unit {0})
  unfolding del_found
  del name = do
    metas ← list_skills
    del_found (trim_suffix name (codes ".md")) (find_named (trim_suffix name (codes ".md")) metas)

  ren_found : Bytes → Bytes → Option Meta → Act os.Disk (Unit {0})
  ren_found old new none = fail (no_skill old)
  ren_found old new (some m) = os.rename m.dir (filepath_join (filepath_dir m.dir) new)

  ren : Bytes → Bytes → Act os.Disk (Unit {0})
  unfolding ren_found
  ren old_name new_name = do
    metas ← list_skills
    ren_found (trim_suffix old_name (codes ".md")) (trim_suffix new_name (codes ".md"))
        (find_named (trim_suffix old_name (codes ".md")) metas)

  create : Bytes → Act os.Disk (Unit {0})
  unfolding write_skill dir_for new_dir
  create name = do dir ← lift (dir_for (trim_suffix name (codes ".md")) none); write_skill dir []

  -- NewSkillStoreWith
  unfoldable pub skill_store : Store os.Disk
  unfolding stat list open_entry del ren create
  skill_store = record {
    stat_fn = stat;
    list_fn = list;
    open_fn = open_entry;
    create_fn = create;
    delete_fn = del;
    rename_fn = ren;
  }
