-- ===== src/FileStore/Turns.antt =====
-- manager/store/fsstore_journal.go: each turn of the writer keeps what rebuilds the store.
use mathlib.Core.List.{append_assoc, append-nil}
use workforce.Prelude.{
  ◌≡◌, refl, sym, ap, ◌∙◌, suc, ℕ, some, List, [], ◌∷◌, ◌++◌, if◌then◌else◌, if_both, Bool-cases,
  inl, inr,
}
use workforce.Prelude.Int.{pos, eqb_ℤ, ltb_ℤ}
use workforce.Contract.JsonOrBytes.{JsonText}
use workforce.Store.{MemStore}
use workforce.FileStore.Entries.{Json, JournalEntry, IsJson}
use workforce.FileStore.State.{FsStoreConfig, Phase, idle, renamed, copied, Disk, FsStore}
use workforce.FileStore.Views.{Logged, acts, acts-append, acts_twice}
use workforce.FileStore.Loading.{view, kept_view, take_snapshot-Loads}
use workforce.FileStore.Replay.{Reads, ReadEntries, ReadsLine, ReadLines, ReadLines-append}
use workforce.FileStore.Recovery.{Holds, IsDurable, AtPhase-acts}
use workforce.FileStore.Writer.{
  take_snapshot, flush, write_line, start_compact, write_entry, Turn, write, tick, rename, truncate,
  abandon, writer_turn, turn_in,
}

module _ (J : Json) where
  -- The operation of the first entry of the channel.
  record Uncons (e : JournalEntry J.Raw) (q : List (JournalEntry J.Raw)) (qs : List Logged)
      : Type 0 where
    op : Logged
    left : List Logged
    splits : qs ≡ op ∷ left
    reads : Reads J e op
    rest : ReadEntries J q left

  uncons :
      (e : JournalEntry J.Raw) (q : List (JournalEntry J.Raw)) (qs : List Logged)
      → ReadEntries J (e ∷ q) qs
      → Uncons e q qs
  uncons e q [] h = absurd h
  uncons e q (op ∷ qs) h = record { op = op; left = qs; splits = refl; reads = h.0; rest = h.1 }

  nothing_read : (bs : List Logged) → ReadLines J [] bs → bs ≡ []
  nothing_read [] h = refl
  nothing_read (op ∷ bs) h = absurd h

module _ (T : JsonText) (J : Json) where
  module _ (hot : MemStore) (queue : List (JournalEntry J.Raw)) (buffered : List J.Line)
      (disk : Disk J) where
    flushed : Disk J
    flushed = record disk { journal = disk.journal ++ buffered }

    flush-Holds : Holds T J hot queue buffered idle disk → Holds T J hot queue [] idle flushed
    unfolding flushed
    flush-Holds h = record {
      js = h.js ++ h.bs;
      bs = [];
      qs = h.qs;
      base = h.base;
      loads = h.loads;
      lines = ReadLines-append J disk.journal buffered h.js h.bs h.lines h.buffer;
      buffer = tt;
      entries = h.entries;
      sound = h.sound;
      at_phase = rw (append_assoc h.js h.bs h.qs) h.at_phase;
    }

    write-Holds :
        (e : JournalEntry J.Raw)
        → Holds T J hot (e ∷ queue) buffered idle disk
        → Holds T J hot queue (buffered ++ J.encode e ∷ []) idle disk
    write-Holds e h =
        let u = uncons J e queue h.qs h.entries in
        let line : ReadsLine J (J.encode e) u.op = record {
          of = e;
          line_of = refl;
          reads = u.reads;
        } in
        let same : h.bs ++ h.qs ≡ (h.bs ++ u.op ∷ []) ++ u.left =
          ap (λ es. h.bs ++ es) u.splits ∙ sym (append_assoc h.bs (u.op ∷ []) u.left) in
        record {
          js = h.js;
          bs = h.bs ++ u.op ∷ [];
          qs = u.left;
          base = h.base;
          loads = h.loads;
          lines = h.lines;
          buffer =
              ReadLines-append J buffered (J.encode e ∷ []) h.bs (u.op ∷ []) h.buffer (line, tt);
          entries = u.rest;
          sound = h.sound;
          at_phase = h.at_phase ∙ ap (λ es. acts (h.js ++ es) h.base) same;
        }

    -- The end of a compaction by an error.
    abandon-Holds :
        (p : Phase J) → Holds T J hot queue buffered p disk → Holds T J hot queue buffered idle disk
    abandon-Holds p h = record {
      js = h.js;
      bs = h.bs;
      qs = h.qs;
      base = h.base;
      loads = h.loads;
      lines = h.lines;
      buffer = h.buffer;
      entries = h.entries;
      sound = h.sound;
      at_phase = AtPhase-acts T J p h.js h.bs h.qs h.base _ h.at_phase;
    }

    rename-Holds :
        (file : J.File)
        → Holds T J hot queue buffered (copied file) disk
        → Holds T J hot queue buffered renamed (record disk { snapshot = some file })
    rename-Holds file h =
        let c = h.at_phase in
        let parts : c.copy ≡ acts c.old (acts h.js h.base) =
          c.copies ∙ acts-append h.js c.old h.base in
        record {
          js = h.js;
          bs = h.bs;
          qs = h.qs;
          base = c.copy;
          loads = c.loads;
          lines = h.lines;
          buffer = h.buffer;
          entries = h.entries;
          sound = h.sound;
          at_phase = record {
            old = c.old;
            new = c.new;
            split = c.split;
            flushed = c.flushed;
            absorbs =
                ap (acts (h.js ++ c.old)) c.copies
                ∙ acts_twice (h.js ++ c.old) h.base
                ∙ sym c.copies;
            absorbs_old = ap (acts c.old) parts ∙ acts_twice c.old (acts h.js h.base) ∙ sym parts;
            since = c.since;
          };
        }

    truncate-Holds :
        Holds T J hot queue buffered renamed disk
        → Holds T J hot queue buffered idle (record disk { journal = [] })
    truncate-Holds h =
        let r = h.at_phase in
        record {
          js = [];
          bs = h.bs;
          qs = h.qs;
          base = h.base;
          loads = h.loads;
          lines = tt;
          buffer = h.buffer;
          entries = h.entries;
          sound = h.sound;
          at_phase =
              r.since
              ∙ ap (acts r.new) (sym r.absorbs_old)
              ∙ sym (acts-append r.old r.new h.base)
              ∙ ap (λ es. acts es h.base) (rw (r.flushed, r.split) refl);
        }

  -- The copy of the maps, with an empty buffer.
  copy-Holds :
      (hot : MemStore) (queue : List (JournalEntry J.Raw)) (disk : Disk J)
      → IsJson T J
      → Holds T J hot queue [] idle disk
      → Holds T J hot queue [] (copied (J.encode_snapshot (take_snapshot hot))) disk
  unfolding acts
  copy-Holds hot queue disk law h =
      let none_left = nothing_read J h.bs h.buffer in
      record {
        js = h.js;
        bs = h.bs;
        qs = h.qs;
        base = h.base;
        loads = h.loads;
        lines = h.lines;
        buffer = h.buffer;
        entries = h.entries;
        sound = h.sound;
        at_phase = record {
          old = h.qs;
          new = [];
          split = sym (append-nil h.qs);
          flushed = none_left;
          copy = kept_view T (view hot);
          loads = take_snapshot-Loads T J hot law h.sound;
          copies = h.at_phase ∙ ap (λ es. acts (h.js ++ (es ++ h.qs)) h.base) none_left;
          since = refl;
        };
      }

  module _ (law : IsJson T J) (c : FsStoreConfig) (hot : MemStore)
      (queue : List (JournalEntry J.Raw)) (buffered : List J.Line) (n : ℕ) (disk : Disk J) where
    abbrev in_phase : Phase J → FsStore J
    in_phase p = record {
      hot = hot;
      queue = queue;
      buffered = buffered;
      entry_count = n;
      phase = p;
      disk = disk;
    }

    start_compact-IsDurable :
        Holds T J hot queue buffered idle disk → IsDurable T J (start_compact J (in_phase idle))
    unfolding start_compact flush flushed
    start_compact-IsDurable h =
        copy-Holds hot queue (flushed hot queue buffered disk) law
          (flush-Holds hot queue buffered disk h)

    flush-IsDurable :
        Holds T J hot queue buffered idle disk → IsDurable T J (flush J (in_phase idle))
    unfolding flush flushed
    flush-IsDurable h = flush-Holds hot queue buffered disk h

  module _ (law : IsJson T J) (c : FsStoreConfig) where
    abbrev may_compact : FsStore J → FsStore J
    may_compact s = if ltb_ℤ (pos s.entry_count) c.compact_after then s else start_compact J s

    may_compact-IsDurable :
        (hot : MemStore) (queue : List (JournalEntry J.Raw)) (buffered : List J.Line) (n : ℕ)
        (disk : Disk J)
        → Holds T J hot queue buffered idle disk
        → IsDurable T J (may_compact (in_phase law c hot queue buffered n disk idle))
    may_compact-IsDurable hot queue buffered n disk h =
        if_both (λ (s : FsStore J). IsDurable T J s) (ltb_ℤ (pos n) c.compact_after) h
          (start_compact-IsDurable law c hot queue buffered n disk h)

    write_entry-IsDurable :
        (hot : MemStore) (e : JournalEntry J.Raw) (queue : List (JournalEntry J.Raw))
        (buffered : List J.Line) (n : ℕ) (disk : Disk J)
        → Holds T J hot (e ∷ queue) buffered idle disk
        → IsDurable T J (write_entry J c e (in_phase law c hot queue buffered n disk idle))
    unfolding write_entry write_line flush
    write_entry-IsDurable hot e queue buffered n disk h =
        let wrote = write-Holds hot queue buffered disk e h in
        let lines : List J.Line = buffered ++ J.encode e ∷ [] in
        elim (Bool-cases (eqb_ℤ c.sync_interval (pos 0))) [
          | inl t ↦ rw t (
              may_compact-IsDurable hot queue [] (suc n)
                (record disk { journal = disk.journal ++ lines })
                (flush-IsDurable law c hot queue lines (suc n) disk wrote))
          | inr t ↦ rw t (may_compact-IsDurable hot queue lines (suc n) disk wrote)
        ]

    -- A turn of the writer, by its phase.
    turn_in-IsDurable :
        (t : Turn J c) (p : Phase J) (hot : MemStore) (queue : List (JournalEntry J.Raw))
        (buffered : List J.Line) (n : ℕ) (disk : Disk J)
        → Holds T J hot queue buffered p disk
        → IsDurable T J (turn_in J c t p (in_phase law c hot queue buffered n disk p))
    turn_in-IsDurable write idle hot [] buffered n disk h = h
    turn_in-IsDurable write idle hot (e ∷ q) buffered n disk h =
        write_entry-IsDurable hot e q buffered n disk h
    turn_in-IsDurable write renamed hot queue buffered n disk h = h
    turn_in-IsDurable write (copied file) hot queue buffered n disk h = h
    turn_in-IsDurable tick idle hot queue buffered n disk h =
        flush-IsDurable law c hot queue buffered n disk h
    turn_in-IsDurable tick renamed hot queue buffered n disk h = h
    turn_in-IsDurable tick (copied file) hot queue buffered n disk h = h
    turn_in-IsDurable rename idle hot queue buffered n disk h = h
    turn_in-IsDurable rename renamed hot queue buffered n disk h = h
    turn_in-IsDurable rename (copied file) hot queue buffered n disk h =
        rename-Holds hot queue buffered disk file h
    turn_in-IsDurable truncate idle hot queue buffered n disk h = h
    turn_in-IsDurable truncate (copied file) hot queue buffered n disk h = h
    turn_in-IsDurable truncate renamed hot queue buffered n disk h =
        truncate-Holds hot queue buffered disk h
    turn_in-IsDurable abandon idle hot queue buffered n disk h = h
    turn_in-IsDurable abandon renamed hot queue buffered n disk h =
        abandon-Holds hot queue buffered disk renamed h
    turn_in-IsDurable abandon (copied file) hot queue buffered n disk h =
        abandon-Holds hot queue buffered disk (copied file) h

    -- Whatever the writer does, the files, the buffer and the channel still rebuild the store.
    pub writer_turn-IsDurable :
        (t : Turn J c) (s : FsStore J) → IsDurable T J s → IsDurable T J (writer_turn J c t s)
    unfolding writer_turn
    writer_turn-IsDurable t s h =
        turn_in-IsDurable t s.phase s.hot s.queue s.buffered s.entry_count s.disk h
