-- ===== src/FileStore/Writer.antt =====
-- manager/store/fsstore_journal.go and fsstore_snapshot.go: the background writer with its compaction,
-- `OpenFSStore`, `Close`, and a crash. Clients go on while the writer compacts, so that each part of
-- `compact` that a client or a crash can come between is a turn of its own.
use workforce.Prelude.{
  ℕ, suc, true, Option, none, some, List, [], ◌∷◌, ◌++◌, length, take, if◌then◌else◌,
}
use workforce.Prelude.Options.{◌>>=◌}
use workforce.Prelude.Int.{pos, ltb_ℤ, eqb_ℤ}
use workforce.Store.{
  MemStore, new_mem_store, select, save_job, save_task, enqueue_webhook, create_run,
}
use workforce.FileStore.Entries.{Json, JournalEntry, Snapshot, replay_lines}
use workforce.FileStore.State.{FsStoreConfig, Phase, idle, renamed, copied, Disk, FsStore}

-- The snapshot of `compact`.
unfoldable pub take_snapshot : MemStore → Snapshot
take_snapshot m = record {
  jobs = select (λ j. true) m.jobs;
  task_defs = select (λ t. true) m.task_defs;
  webhooks = select (λ e. true) m.webhooks;
  runs = select (λ r. true) m.runs;
}

module _ {A : Type 0} (store : A → MemStore → MemStore) where
  unfoldable pub put_all : List A → MemStore → MemStore
  put_all [] m = m
  put_all (a ∷ rest) m = put_all rest (store a m)

unfoldable pub load : Snapshot → MemStore → MemStore
load snap m = put_all create_run snap.runs (
    put_all enqueue_webhook snap.webhooks
      (put_all save_task snap.task_defs (put_all save_job snap.jobs m)))

module _ (J : Json) where
  -- `loadSnapshot`; no file is a first start.
  unfoldable pub load_snapshot : Option J.File → MemStore → Option MemStore
  load_snapshot none m = some m
  load_snapshot (some file) m = J.decode_snapshot file >>= λ snap. some (load snap m)

  -- The store after the compaction of `OpenFSStore`.
  abbrev pub opened : Disk J → MemStore → FsStore J
  opened d m = record {
    hot = m;
    queue = [];
    buffered = [];
    entry_count = 0;
    phase = idle;
    disk = record d { snapshot = some (J.encode_snapshot (take_snapshot m)); journal = [] };
  }

  -- `OpenFSStore`
  unfoldable pub open_fs_store : Disk J → Option (FsStore J)
  open_fs_store d = load_snapshot d.snapshot new_mem_store >>= λ m.
      replay_lines J d.journal m >>= λ m. some (opened d m)

  -- `Flush` and `Sync`: the latter changes no file that the process or the next one reads, and is there
  -- for a crash of the machine, which is not modelled.
  unfoldable pub flush : FsStore J → FsStore J
  flush s = record s {
    buffered = [];
    disk = record s.disk { journal = s.disk.journal ++ s.buffered };
  }

  -- The encoding of an entry in `writeEntry`.
  unfoldable pub write_line : JournalEntry J.Raw → FsStore J → FsStore J
  write_line e s = record s {
    buffered = s.buffered ++ J.encode e ∷ [];
    entry_count = suc s.entry_count;
  }

  -- `doCompact` up to the copy of the maps into the temporary file.
  unfoldable pub start_compact : FsStore J → FsStore J
  start_compact s =
      let s' = flush s in record s' { phase = copied (J.encode_snapshot (take_snapshot s'.hot)) }

  module _ (c : FsStoreConfig) where
    unfoldable pub write_entry : JournalEntry J.Raw → FsStore J → FsStore J
    write_entry e s =
        let s1 = write_line e s in
        let s2 = if eqb_ℤ c.sync_interval (pos 0) then flush s1 else s1 in
        if ltb_ℤ (pos s2.entry_count) c.compact_after then s2 else start_compact s2

    -- What the writer does next: an entry or a tick, and in a compaction the rename, the truncation or
    -- the end by an error.
    pub data Turn : Type 0 where
      write tick rename truncate abandon : Turn

    abbrev pub next_entry : List (JournalEntry J.Raw) → FsStore J → FsStore J
    next_entry [] s = s
    next_entry (e ∷ q) s = write_entry e (record s { queue = q })

    abbrev pub turn_in : Turn → Phase J → FsStore J → FsStore J
    turn_in write idle s = next_entry s.queue s
    turn_in tick idle s = flush s
    turn_in rename (copied file) s = record s {
      phase = renamed;
      disk = record s.disk { snapshot = some file };
    }
    turn_in truncate renamed s = record s {
      phase = idle;
      entry_count = 0;
      disk = record s.disk { journal = [] };
    }
    turn_in abandon (copied file) s = record s { phase = idle }
    turn_in abandon renamed s = record s { phase = idle }
    turn_in _ _ s = s

    unfoldable pub writer_turn : Turn → FsStore J → FsStore J
    writer_turn t s = turn_in t s.phase s

    -- The rest of a compaction: `compact` succeeds, or fails before or after the rename.
    pub data Outcome : Type 0 where
      compacted not_renamed not_truncated : Outcome

    abbrev pub settle : Outcome → FsStore J → FsStore J
    settle compacted s = writer_turn truncate (writer_turn rename s)
    settle not_renamed s = writer_turn abandon s
    settle not_truncated s = writer_turn abandon (writer_turn rename s)

    -- The loop that drains the channel, with the outcome of a compaction by the entries that are left.
    unfoldable pub drain : (ℕ → Outcome) → List (JournalEntry J.Raw) → FsStore J → FsStore J
    drain outcome [] s = s
    drain outcome (e ∷ q) s =
        drain outcome q
          (settle (outcome (length q)) (writer_turn write (record s { queue = e ∷ q })))

    -- `Close`: a compaction that is under way ends, and the writer drains the channel and flushes.
    unfoldable pub close : Outcome → (ℕ → Outcome) → FsStore J → Disk J
    close first outcome s = let s' = settle first s in (flush (drain outcome s'.queue s')).disk

  -- The files after a crash of the process, which keeps what was flushed, synced or not: of the
  -- lines in the buffer the first `n` were written, and perhaps a part of the next.
  unfoldable pub crash : ℕ → List J.Line → FsStore J → Disk J
  crash n torn s = record s.disk { journal = s.disk.journal ++ (take n s.buffered ++ torn) }
