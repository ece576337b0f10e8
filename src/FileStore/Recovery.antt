-- ===== src/FileStore/Recovery.antt =====
-- manager/store/fsstore_journal.go: the files and the channel hold what rebuilds the store, whatever
-- clients and the writer do.
use mathlib.Core.List.{append_assoc}
use workforce.Prelude.{◌≡◌, refl, sym, ap, ◌∙◌, some, List, [], ◌∷◌, ◌++◌}
use workforce.Contract.JsonOrBytes.{JsonText}
use workforce.Store.{MemStore}
use workforce.FileStore.Entries.{Json, JournalEntry}
use workforce.FileStore.State.{Phase, idle, renamed, copied, Disk, FsStore, journal}
use workforce.FileStore.Views.{View, Logged, act, acts, acts-append}
use workforce.FileStore.Loading.{view, kept_view, IsSound, Loads}
use workforce.FileStore.Replay.{Reads, ReadEntries, ReadLines, ReadEntries-append}

-- The last operation of some.
acts-snoc :
    (es : List Logged) (op : Logged) (v : View) → acts (es ++ op ∷ []) v ≡ act op (acts es v)
unfolding acts
acts-snoc es op v = acts-append es (op ∷ []) v

pub acts_split :
    (js old new : List Logged) (v : View)
    → acts (js ++ (old ++ new)) v ≡ acts new (acts (js ++ old) v)
acts_split js old new v =
    ap (λ es. acts es v) (sym (append_assoc js old new)) ∙ acts-append (js ++ old) new v

module _ (T : JsonText) (J : Json) where
  -- A compaction that has copied the maps, `copy`, after the operations `old` of the channel.
  pub record Copied (file : J.File) (js bs qs : List Logged) (base hot : View) : Type 0 where
    pub old : List Logged
    pub new : List Logged
    pub split : qs ≡ old ++ new
    pub flushed : bs ≡ []
    pub copy : View
    pub loads : Loads T J (some file) copy
    pub copies : copy ≡ acts (js ++ old) base
    pub since : hot ≡ acts new copy

  -- One that has replaced the snapshot, which the journal does not change any more.
  pub record Renamed (js bs qs : List Logged) (base hot : View) : Type 0 where
    pub old : List Logged
    pub new : List Logged
    pub split : qs ≡ old ++ new
    pub flushed : bs ≡ []
    pub absorbs : acts (js ++ old) base ≡ base
    pub absorbs_old : acts old base ≡ base
    pub since : hot ≡ acts new base

  -- The store `hot` is what the journal, the buffer and the channel make of the snapshot.
  abbrev pub AtPhase : Phase J → (js bs qs : List Logged) → View → View → Type 0
  AtPhase idle js bs qs base hot = hot ≡ acts (js ++ (bs ++ qs)) base
  AtPhase (copied file) js bs qs base hot = Copied file js bs qs base hot
  AtPhase renamed js bs qs base hot = Renamed js bs qs base hot

  pub AtPhase-acts :
      (p : Phase J) (js bs qs : List Logged) (base hot : View)
      → AtPhase p js bs qs base hot
      → hot ≡ acts (js ++ (bs ++ qs)) base
  AtPhase-acts idle js bs qs base hot h = h
  AtPhase-acts (copied file) js bs qs base hot h =
      rw (h.flushed, h.split)
        (h.since ∙ ap (acts h.new) h.copies ∙ sym (acts_split js h.old h.new base))
  AtPhase-acts renamed js bs qs base hot h =
      rw (h.flushed, h.split)
        (h.since ∙ ap (acts h.new) (sym h.absorbs) ∙ sym (acts_split js h.old h.new base))

  AtPhase-snoc :
      (p : Phase J) (js bs qs : List Logged) (base hot hot' : View) (op : Logged)
      → hot' ≡ act op hot
      → AtPhase p js bs qs base hot
      → AtPhase p js bs (qs ++ op ∷ []) base hot'
  AtPhase-snoc idle js bs qs base hot hot' op e h =
      let same : js ++ (bs ++ (qs ++ op ∷ [])) ≡ (js ++ (bs ++ qs)) ++ op ∷ [] =
        rw (append_assoc js (bs ++ qs) (op ∷ []), append_assoc bs qs (op ∷ [])) refl in
      rw same (e ∙ ap (act op) h ∙ sym (acts-snoc (js ++ (bs ++ qs)) op base))
  AtPhase-snoc (copied file) js bs qs base hot hot' op e h = record {
    old = h.old;
    new = h.new ++ op ∷ [];
    split = rw h.split (append_assoc h.old h.new (op ∷ []));
    flushed = h.flushed;
    copy = h.copy;
    loads = h.loads;
    copies = h.copies;
    since = e ∙ ap (act op) h.since ∙ sym (acts-snoc h.new op h.copy);
  }
  AtPhase-snoc renamed js bs qs base hot hot' op e h = record {
    old = h.old;
    new = h.new ++ op ∷ [];
    split = rw h.split (append_assoc h.old h.new (op ∷ []));
    flushed = h.flushed;
    absorbs = h.absorbs;
    absorbs_old = h.absorbs_old;
    since = e ∙ ap (act op) h.since ∙ sym (acts-snoc h.new op base);
  }

  -- The operations that the files and the channel hold, and that they rebuild the store.
  pub record Holds (hot : MemStore) (queue : List (JournalEntry J.Raw)) (buffered : List J.Line)
      (phase : Phase J) (disk : Disk J) : Type 0 where
    pub js : List Logged
    pub bs : List Logged
    pub qs : List Logged
    pub base : View
    pub loads : Loads T J disk.snapshot base
    pub lines : ReadLines J disk.journal js
    pub buffer : ReadLines J buffered bs
    pub entries : ReadEntries J queue qs
    pub sound : IsSound T J hot
    pub at_phase : AtPhase phase js bs qs base (kept_view T (view hot))

  abbrev pub IsDurable : FsStore J → Type 0
  IsDurable s = Holds s.hot s.queue s.buffered s.phase s.disk

  pub hot-acts :
      (s : FsStore J) (d : IsDurable s)
      → kept_view T (view s.hot) ≡ acts (d.js ++ (d.bs ++ d.qs)) d.base
  hot-acts s d = AtPhase-acts s.phase d.js d.bs d.qs d.base _ d.at_phase

  -- A change of the store that is journaled.
  pub journal-IsDurable :
      (s : FsStore J) (e : JournalEntry J.Raw) (op : Logged) (m : MemStore)
      → Reads J e op
      → IsSound T J m
      → kept_view T (view m) ≡ act op (kept_view T (view s.hot))
      → IsDurable s
      → IsDurable (journal J e (record s { hot = m }))
  journal-IsDurable s e op m reads sound changes d = record {
    js = d.js;
    bs = d.bs;
    qs = d.qs ++ op ∷ [];
    base = d.base;
    loads = d.loads;
    lines = d.lines;
    buffer = d.buffer;
    entries = ReadEntries-append J s.queue (e ∷ []) d.qs (op ∷ []) d.entries (reads, tt);
    sound = sound;
    at_phase = AtPhase-snoc s.phase d.js d.bs d.qs d.base _ _ op changes d.at_phase;
  }
