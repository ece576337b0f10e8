-- ===== src/FileStore/State.antt =====
-- manager/store/fsstore.go: the configuration and the state of the file store. The maps are those of
-- the memory store, in `hot`, and `run_logs` there is the map of the log buffers.
use workforce.Prelude.{ℕ, String, Option, List, [], ◌∷◌, ◌++◌, if◌then◌else◌}
use workforce.Prelude.Int.{ℤ, pos, ltb_ℤ}
use workforce.Prelude.Dict.{Dict}
use workforce.Contract.Job.{Bytes}
use workforce.Store.{MemStore}
use workforce.FileStore.Entries.{JournalEntry, Json}

pub record FsStoreConfig : Type 0 where
  pub sync_interval : ℤ
  pub compact_after : ℤ
  pub journal_buf_size : ℤ

abbrev at_least_one : ℤ → ℤ → ℤ
at_least_one n default = if ltb_ℤ (pos 0) n then n else default

unfoldable pub set_defaults : FsStoreConfig → FsStoreConfig
set_defaults c = record {
  sync_interval = if ltb_ℤ c.sync_interval (pos 0) then pos 0 else c.sync_interval;
  compact_after = at_least_one c.compact_after (pos 500);
  journal_buf_size = at_least_one c.journal_buf_size (pos 256);
}

module _ (J : Json) where
  -- Where the writer is in `compact`: the temporary file is written, or it has replaced the snapshot.
  pub data Phase : Type 0 where
    idle renamed : Phase
    copied : J.File → Phase

  -- The files of the directory that are read again.
  pub record Disk : Type 0 where
    pub snapshot : Option J.File
    pub journal : List J.Line
    pub run_files : Dict String Bytes

  -- `queue` has the entries in `journalCh` and those of callers that wait for room there; `buffered`
  -- is what `w` holds.
  pub record FsStore : Type 0 where
    pub hot : MemStore
    pub queue : List (JournalEntry J.Raw)
    pub buffered : List J.Line
    pub entry_count : ℕ
    pub phase : Phase
    pub disk : Disk

  abbrev pub journal : JournalEntry J.Raw → FsStore → FsStore
  journal e s = record s { queue = s.queue ++ e ∷ [] }
