-- ===== src/Store/Tools.antt =====
-- ToolStore of server.go: a flat store with the synthetic entry "idx", an index made from the
-- comments at the head of each tool.
use ollie_9p.Prelude.{
  Bytes, bytes_eq, ◌==◌, ◌&&◌, not, Option, none, some, List, [], ◌∷◌, ◌++◌, if◌then◌else◌, codes,
}
use ollie_9p.Prelude.Outcome.{Outcome, ok, err, panic, Act, pure, fail}
use ollie_9p.Path.Clean.{filepath_join}
use ollie_9p.Store.{
  FileInfo, synthetic_info, DirEntry, Listing, file_entry, StoreEntry, Store, not_blocking,
}
use ollie_9p.Store.Flat.{store_read}
use ollie_9p.Store.Os.{Os}
use ollie_9p.Text.{cut_prefix, has_prefix, split}
use ollie_9p.Text.Space.{trim_space}

-- `desc` and `args` of the loop over the lines
abbrev pub Header : Type 0
Header = Bytes × Bytes

read_args : Bytes → Header → Header
read_args line (desc, args) = elim (cut_prefix line (codes "# Args:")) [
  | some a ↦ (desc, trim_space a)
  | none ↦ elim (cut_prefix line (codes "# args:")) [
    | some a ↦ (desc, trim_space a)
    | none ↦ (desc, args)
  ]
]

header_line : Bytes → Header → Header
unfolding read_args
header_line line (desc, args) = elim (cut_prefix line (codes "# description:")) [
  | some d ↦ (trim_space d, args)
  | none ↦ read_args line (desc, args)
]

-- The loop ends behind the first line that is neither a comment nor empty.
unfoldable pub read_header : List Bytes → Header → Header
unfolding header_line
read_header [] h = h
read_header (line ∷ lines) h =
    let rest = read_header lines (header_line line h) in
    if not (has_prefix line (codes "#")) && not (line == []) then header_line line h else rest

abbrev args_line : Bytes → Bytes
args_line [] = []
args_line (c ∷ args) = codes "args: " ++ ((c ∷ args) ++ codes "\n")

-- A tool without a description is left out.
unfoldable pub tool_section : Bytes → Header → Bytes
tool_section name ([], args) = []
tool_section name (c ∷ desc, args) =
    codes "## "
    ++ (name
        ++ (codes "\n"
            ++ (codes "description: "
                ++ ((c ∷ desc) ++ (codes "\n" ++ (args_line args ++ codes "\n"))))))

module _ {S : Type 0} (flat : Store S) where
  -- The loop over the entries: directories and files that cannot be read are left out.
  unfoldable pub index_entries : List DirEntry → Bytes → Act S Bytes
  index_entries [] out s = (ok out, s)
  index_entries (e ∷ entries) out s =
      let (content, s') = if e.is_dir then (err [], s) else store_read flat e.name s in
      elim content [
        | panic ↦ (panic, s')
        | err _ ↦ index_entries entries out s'
        | ok text ↦
            index_entries entries
              (out ++ tool_section e.name (read_header (split text b'\n') ([], []))) s'
      ]

  index_listed : (List DirEntry × Option Bytes) × S → Outcome Bytes × S
  index_listed ((entries, some e), s) = (err e, s)
  index_listed ((entries, none), s) = index_entries entries [] s

  -- index
  unfoldable pub index : Act S Bytes
  unfolding index_entries index_listed
  index s = index_listed (flat.list_fn s)

  tool_stat : Bytes → Act S FileInfo
  tool_stat name s =
      if name == codes "idx"
      then (ok (synthetic_info (codes "idx") 0o444 0), s)
      else flat.stat_fn name s

  tool_list : Listing S
  tool_list s =
      let ((entries, e), s') = flat.list_fn s in ((file_entry (codes "idx") 0o444 ∷ entries, e), s')

  tool_open : Bytes → Act S (StoreEntry S)
  unfolding index
  tool_open name =
      if name == codes "idx"
      then pure (record {
        stat_fn = pure (synthetic_info (codes "idx") 0o444 0);
        read_fn = index;
        write_fn = λ _. fail (codes "idx: read-only");
        blocking_read_fn = not_blocking;
      })
      else flat.open_fn name

  -- *ToolStore as a Store; Create, Delete and Rename are those of the flat store.
  unfoldable pub tool_store : Store S
  unfolding tool_stat tool_list tool_open
  tool_store = record flat { stat_fn = tool_stat; list_fn = tool_list; open_fn = tool_open }

module _ (os : Os) where
  -- ListDir
  unfoldable pub list_dir : Bytes → Bytes → Listing os.Disk
  list_dir dir rel = os.read_dir (filepath_join dir rel)
