-- ===== src/Store/Os.antt =====
-- The operating system, which package os calls: a file tree of unknown form that each call may read
-- and change, and the process environment. No law is assumed of it here.
use ollie_9p.Prelude.{ℕ, Bytes, List}
use ollie_9p.Prelude.Outcome.{Act}
use ollie_9p.Store.Info.{FileInfo, Listing}

pub record Os : Type 1 where
  pub Disk : Type 0
  pub stat : Bytes → Act Disk FileInfo
  pub read_dir : Bytes → Listing Disk
  pub read_file : Bytes → Act Disk Bytes
  pub write_file : Bytes → Bytes → ℕ → Act Disk (Unit {0})
  pub mkdir_all : Bytes → ℕ → Act Disk (Unit {0})
  pub remove : Bytes → Act Disk (Unit {0})
  pub remove_all : Bytes → Act Disk (Unit {0})
  pub rename : Bytes → Bytes → Act Disk (Unit {0})
  pub environ : List Bytes
