-- ===== src/FileStore/Reopening.antt =====
-- manager/store/fsstore.go, `OpenFSStore` and `Close`: the store that is opened after a close, after a
-- crash, or on a journal that the scanner or JSON does not read.
use mathlib.Core.List.{append_assoc}
use workforce.Prelude.{
  ◌≡◌, refl, sym, ap, ◌∙◌, ◌^◌, ℕ, zero, suc, false, none, some, List, [], ◌∷◌, ◌++◌, take, drop,
  leb, string_eq,
}
use workforce.Contract.JsonOrBytes.{JsonText}
use workforce.Store.{MemStore}
use workforce.FileStore.Entries.{Json, IsJson, replay_lines}
use workforce.FileStore.State.{FsStoreConfig, Disk, FsStore}
use workforce.FileStore.Views.{View, Logged, acts, acts-append}
use workforce.FileStore.Loading.{view, kept_view, Loads}
use workforce.FileStore.Replay.{ReadEntries, ReadLines, ReadLines-append, replay_lines-append}
use workforce.FileStore.Recovery.{IsDurable, hot-acts}
use workforce.FileStore.Requests.{Event, run, AreFair, run-IsDurable}
use workforce.FileStore.Writer.{open_fs_store, opened, crash}

module _ (T : JsonText) (J : Json) (law : IsJson T J) where
  -- What a crash may leave of a line at the end of the journal.
  abbrev pub IsTorn : List J.Line → Type 0
  IsTorn [] = Unit {0}
  IsTorn (line ∷ rest) = (leb (2 ^ 20) (J.size line) ≡ false) × (J.decode line ≡ none)

  replay_torn : (torn : List J.Line) (m : MemStore) → IsTorn torn → replay_lines J torn m ≡ some m
  unfolding replay_lines
  replay_torn [] m h = refl
  replay_torn (line ∷ rest) m h = rw (h.0, h.1) refl

  -- A store that opens, with its view.
  pub record Opens (disk : Disk J) (v : View) : Type 0 where
    pub store : FsStore J
    pub opens : open_fs_store J disk ≡ some store
    pub shows : view store.hot ≡ v

  pub open_fs_store-Opens :
      (disk : Disk J) (lines torn : List J.Line) (ops : List Logged) (base : View)
      → Loads T J disk.snapshot base
      → ReadLines J lines ops
      → IsTorn torn
      → Opens (record disk { journal = lines ++ torn }) (acts ops base)
  unfolding open_fs_store
  open_fs_store-Opens disk lines torn ops base l reads t =
      let (m, goes, shows) = replay_lines-append J T law lines torn ops l.store reads in
      record {
        store = opened J (record disk { journal = lines ++ torn }) m;
        opens = rw (l.loads, goes, replay_torn torn m t) refl;
        shows = shows ∙ ap (acts ops) l.shows;
      }

  take-ReadLines :
      (n : ℕ) (lines : List J.Line) (ops : List Logged)
      → ReadLines J lines ops
      → ReadLines J (take n lines) (take n ops)
  take-ReadLines zero lines ops h = tt
  take-ReadLines (suc n) [] [] h = tt
  take-ReadLines (suc n) [] (op ∷ ops) h = absurd h
  take-ReadLines (suc n) (l ∷ ls) [] h = absurd h
  take-ReadLines (suc n) (l ∷ ls) (op ∷ ops) h = (h.0, take-ReadLines n ls ops h.1)

  drop-ReadLines :
      (n : ℕ) (lines : List J.Line) (ops : List Logged)
      → ReadLines J lines ops
      → ReadLines J (drop n lines) (drop n ops)
  drop-ReadLines zero lines ops h = h
  drop-ReadLines (suc n) [] [] h = tt
  drop-ReadLines (suc n) [] (op ∷ ops) h = absurd h
  drop-ReadLines (suc n) (l ∷ ls) [] h = absurd h
  drop-ReadLines (suc n) (l ∷ ls) (op ∷ ops) h = drop-ReadLines n ls ops h.1

  take-drop : (n : ℕ) (ops : List Logged) → take n ops ++ drop n ops ≡ ops
  take-drop zero ops = refl
  take-drop (suc n) [] = refl
  take-drop (suc n) (op ∷ ops) = ap (λ es. op ∷ es) (take-drop n ops)

  -- The store that opens after a crash, and the operations that it has lost: those of the lines that
  -- were not written and those of the channel.
  pub record Survives (s : FsStore J) (n : ℕ) (disk : Disk J) : Type 0 where
    pub store : FsStore J
    pub opens : open_fs_store J disk ≡ some store
    pub unwritten : List Logged
    pub unsent : List Logged
    pub lines_lost : ReadLines J (drop n s.buffered) unwritten
    pub entries_lost : ReadEntries J s.queue unsent
    pub shows : kept_view T (view s.hot) ≡ acts (unwritten ++ unsent) (view store.hot)

  crash-Survives :
      (s : FsStore J) (n : ℕ) (torn : List J.Line)
      → IsDurable T J s
      → IsTorn torn
      → Survives s n (crash J n torn s)
  unfolding crash
  crash-Survives s n torn d t =
      let kept = take n d.bs in
      let lost = drop n d.bs in
      let o =
        open_fs_store-Opens s.disk (s.disk.journal ++ take n s.buffered) torn (d.js ++ kept) d.base
          d.loads
          (ReadLines-append J _ _ d.js kept d.lines (take-ReadLines n s.buffered d.bs d.buffer))
          t in
      let same : d.js ++ (d.bs ++ d.qs) ≡ (d.js ++ kept) ++ (lost ++ d.qs) =
        ap (λ es. d.js ++ (es ++ d.qs)) (sym (take-drop n d.bs))
        ∙ ap (λ es. d.js ++ es) (append_assoc kept lost d.qs)
        ∙ sym (append_assoc d.js kept (lost ++ d.qs)) in
      record {
        store = o.store;
        opens =
            ap (λ ls. open_fs_store J (record s.disk { journal = ls }))
              (sym (append_assoc s.disk.journal (take n s.buffered) torn))
            ∙ o.opens;
        unwritten = lost;
        unsent = d.qs;
        lines_lost = drop-ReadLines n s.buffered d.bs d.buffer;
        entries_lost = d.entries;
        shows =
            hot-acts T J s d
            ∙ ap (λ es. acts es d.base) same
            ∙ acts-append (d.js ++ kept) (lost ++ d.qs) d.base
            ∙ ap (acts (lost ++ d.qs)) (sym o.shows);
      }

  -- From a store that its files and its channel rebuild, after any history of turns of the writer and
  -- of requests whose values JSON reads back, whose lines are below a megabyte and whose changes keep
  -- the identifiers, a crash of the process, also within a compaction and within the write of a line,
  -- leaves files that open, where what was flushed to a file stays there, and the store lacks exactly
  -- the operations of the lines that were not written and of the channel: doing them again gives the
  -- store that was, as JSON carries it.
  pub open_fs_store-crash :
      (c : FsStoreConfig) (es : List (Event J c)) (s : FsStore J) (n : ℕ) (torn : List J.Line)
      → IsDurable T J s
      → AreFair T J law es
      → IsTorn torn
      → Survives (run J c es s) n (crash J n torn (run J c es s))
  open_fs_store-crash c es s n torn d fair t =
      crash-Survives (run J c es s) n torn (run-IsDurable T J law c es s fair d) t
