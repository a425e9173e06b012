-- ===== src/Store/Info.antt =====
-- store/store.go: SyntheticFileInfo, SyntheticEntry, FileEntry and DirEntry.
use ollie_9p.Prelude.{ℕ, Bytes, Bool, true, false, List, Option}
use ollie_9p.Prelude.Outcome.{Outcome, ok}

-- os.FileInfo and SyntheticFileInfo. `mod_time` is `uint32(info.ModTime().Unix())`, the only use.
pub record FileInfo : Type 0 where
  pub name : Bytes
  pub mode : ℕ
  pub size : ℕ
  pub is_dir : Bool
  pub mod_time : ℕ

-- uint32 of the Unix time of Go's zero `time.Time`, which is -62135596800.
abbrev pub zero_time : ℕ
zero_time = 2288912640

-- &SyntheticFileInfo{Name_: name, Mode_: mode, Size_: size}
abbrev pub synthetic_info : Bytes → ℕ → ℕ → FileInfo
synthetic_info name mode size = record {
  name = name;
  mode = mode;
  size = size;
  is_dir = false;
  mod_time = zero_time;
}

-- os.DirEntry; `Info` may fail for an entry of a real directory.
pub record DirEntry : Type 0 where
  pub name : Bytes
  pub is_dir : Bool
  pub info : Outcome FileInfo

-- FileEntry, and DirEntry of store.go
abbrev pub file_entry : Bytes → ℕ → DirEntry
file_entry name mode = record {
  name = name;
  is_dir = false;
  info = ok (synthetic_info name mode 0);
}

abbrev pub dir_entry : Bytes → ℕ → DirEntry
dir_entry name mode = record {
  name = name;
  is_dir = true;
  info = ok (record (synthetic_info name mode 0) { is_dir = true });
}

-- The result of List: entries and an error, both of which may be there.
abbrev pub Listing : Type 0 → Type 0
Listing S = S → (List DirEntry × Option Bytes) × S
