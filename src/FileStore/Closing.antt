-- ===== src/FileStore/Closing.antt =====
-- manager/store/fsstore.go, `Close`: the writer drains the channel, and the next `OpenFSStore` finds
-- what was there.
use mathlib.Core.List.{append-nil}
use mathlib.Core.Path.{subst}
use workforce.Prelude.{
  ◌≡◌, refl, sym, ap, ◌∙◌, ℕ, String, some, List, [], ◌∷◌, ◌++◌, length, if◌then◌else◌, if_both,
  string_eq,
}
use workforce.Prelude.Int.{pos, eqb_ℤ, ltb_ℤ}
use workforce.Prelude.Dict.{lookup}
use workforce.Contract.JsonOrBytes.{JsonText}
use workforce.FileStore.Entries.{Json, JournalEntry, IsJson}
use workforce.FileStore.State.{FsStoreConfig, Phase, idle, renamed, copied, FsStore}
use workforce.FileStore.Views.{View, Logged, acts, mapped}
use workforce.FileStore.Loading.{view, kept_view, kept_job, kept_run, kept_webhook}
use workforce.FileStore.Replay.{ReadEntries, ReadLines-append}
use workforce.FileStore.Recovery.{IsDurable, Holds, hot-acts}
use workforce.FileStore.Turns.{writer_turn-IsDurable}
use workforce.FileStore.Requests.{Event, run, AreFair, run-IsDurable}
use workforce.FileStore.Reopening.{Opens, open_fs_store-Opens}
use workforce.FileStore.Writer.{
  open_fs_store, flush, write_line, start_compact, write_entry, write, writer_turn, rename,
  truncate, abandon, turn_in, Outcome, compacted, not_renamed, not_truncated, settle, drain, close,
}

module _ (J : Json) (c : FsStoreConfig) where
  -- The maps and the channel are those of another state.
  record KeepsMaps (s t : FsStore J) : Type 0 where
    hot : t.hot ≡ s.hot
    queue : t.queue ≡ s.queue

  compact-KeepsMaps :
      (s t : FsStore J)
      → KeepsMaps s t
      → KeepsMaps s (if ltb_ℤ (pos t.entry_count) c.compact_after then t else start_compact J t)
  unfolding flush start_compact
  compact-KeepsMaps s t k =
      if_both (λ (u : FsStore J). KeepsMaps s u) (ltb_ℤ (pos t.entry_count) c.compact_after)
        {y = start_compact J t} k (record { hot = k.hot; queue = k.queue })

  write_entry-KeepsMaps :
      (e : JournalEntry J.Raw) (s : FsStore J) → KeepsMaps s (write_entry J c e s)
  unfolding write_entry write_line flush
  write_entry-KeepsMaps e s =
      let s1 = write_line J e s in
      compact-KeepsMaps s (if eqb_ℤ c.sync_interval (pos 0) then flush J s1 else s1) (
        if_both (λ (t : FsStore J). KeepsMaps s t) (eqb_ℤ c.sync_interval (pos 0)) {x = flush J s1}
          {y = s1} (record { hot = refl; queue = refl }) (record { hot = refl; queue = refl }))

  -- A compaction ends, by whatever outcome.
  record Settled (s t : FsStore J) : Type 0 where
    hot : t.hot ≡ s.hot
    queue : t.queue ≡ s.queue
    phase : t.phase ≡ idle

  same_maps : (s t : FsStore J) → t.hot ≡ s.hot → t.queue ≡ s.queue → t.phase ≡ idle → Settled s t
  same_maps s t h q p = record { hot = h; queue = q; phase = p }

  abbrev with_phase : Phase J → FsStore J → FsStore J
  with_phase p s = record s { phase = p }

  settle_in :
      (o : Outcome J c) (p : Phase J) (s : FsStore J) → Settled s (settle J c o (with_phase p s))
  unfolding writer_turn
  settle_in compacted idle s = same_maps _ _ refl refl refl
  settle_in compacted renamed s = same_maps _ _ refl refl refl
  settle_in compacted (copied f) s = same_maps _ _ refl refl refl
  settle_in not_renamed idle s = same_maps _ _ refl refl refl
  settle_in not_renamed renamed s = same_maps _ _ refl refl refl
  settle_in not_renamed (copied f) s = same_maps _ _ refl refl refl
  settle_in not_truncated idle s = same_maps _ _ refl refl refl
  settle_in not_truncated renamed s = same_maps _ _ refl refl refl
  settle_in not_truncated (copied f) s = same_maps _ _ refl refl refl

  settle-Settled : (o : Outcome J c) (s : FsStore J) → Settled s (settle J c o s)
  settle-Settled o s = settle_in o s.phase s

  -- A write takes the first entry of the channel.
  write_first :
      (e : JournalEntry J.Raw) (q : List (JournalEntry J.Raw)) (p : Phase J) (s : FsStore J)
      → p ≡ idle
      → KeepsMaps (record s { queue = q }) (turn_in J c write p (record s { queue = e ∷ q }))
  write_first e q p s h = rw h (write_entry-KeepsMaps e (record s { queue = q }))

module _ (T : JsonText) (J : Json) (law : IsJson T J) (c : FsStoreConfig) where
  settle-IsDurable :
      (o : Outcome J c) (s : FsStore J) → IsDurable T J s → IsDurable T J (settle J c o s)
  settle-IsDurable compacted s d =
      writer_turn-IsDurable T J law c truncate _ (writer_turn-IsDurable T J law c rename s d)
  settle-IsDurable not_renamed s d = writer_turn-IsDurable T J law c abandon s d
  settle-IsDurable not_truncated s d =
      writer_turn-IsDurable T J law c abandon _ (writer_turn-IsDurable T J law c rename s d)

  -- The writer has drained the channel and the maps are as they were.
  record Drained (s t : FsStore J) : Type 0 where
    durable : IsDurable T J t
    hot : t.hot ≡ s.hot
    queue : t.queue ≡ []
    phase : t.phase ≡ idle

  drain-Drained :
      (outcome : ℕ → Outcome J c) (q : List (JournalEntry J.Raw)) (s : FsStore J)
      → s.queue ≡ q
      → s.phase ≡ idle
      → IsDurable T J s
      → Drained s (drain J c outcome q s)
  unfolding drain
  drain-Drained outcome [] s e p d = record { durable = d; hot = refl; queue = e; phase = p }
  drain-Drained outcome (e ∷ q) s eq p d =
      let s1 : FsStore J = record s { queue = e ∷ q } in
      let d1 : IsDurable T J s1 =
        subst (λ (q : List (JournalEntry J.Raw)). Holds T J s.hot q s.buffered s.phase s.disk) eq
          d in
      let s2 = writer_turn J c write s1 in
      let k : KeepsMaps J c (record s { queue = q }) s2 =
        unfold writer_turn in write_first J c e q s.phase s p in
      let o = outcome (length q) in
      let st = settle-Settled J c o s2 in
      let d3 = settle-IsDurable o s2 (writer_turn-IsDurable T J law c write s1 d1) in
      let rest = drain-Drained outcome q (settle J c o s2) (st.queue ∙ k.queue) st.phase d3 in
      record {
        durable = rest.durable;
        hot = rest.hot ∙ st.hot ∙ k.hot;
        queue = rest.queue;
        phase = rest.phase;
      }

  nothing_sent : (qs : List Logged) → ReadEntries J [] qs → qs ≡ []
  nothing_sent [] h = refl
  nothing_sent (op ∷ qs) h = absurd h

  -- The files of a store with nothing in the channel, once the buffer is flushed.
  flushed-Opens :
      (s : FsStore J)
      → IsDurable T J s
      → s.queue ≡ []
      → Opens T J law (flush J s).disk (kept_view T (view s.hot))
  unfolding flush
  flushed-Opens s d e =
      let none_left = nothing_sent d.qs (subst (λ q. ReadEntries J q d.qs) e d.entries) in
      let o =
        open_fs_store-Opens T J law s.disk (s.disk.journal ++ s.buffered) [] (d.js ++ d.bs) d.base
          d.loads (ReadLines-append J _ _ d.js d.bs d.lines d.buffer) tt in
      record {
        store = o.store;
        opens =
            ap (λ ls. open_fs_store J (record s.disk { journal = ls }))
              (sym (append-nil (s.disk.journal ++ s.buffered)))
            ∙ o.opens;
        shows =
            o.shows
            ∙ sym (
                hot-acts T J s d
                ∙ ap (λ es. acts (d.js ++ (d.bs ++ es)) d.base) none_left
                ∙ ap (λ es. acts (d.js ++ es) d.base) (append-nil d.bs));
      }

  close-Opens :
      (first : Outcome J c) (outcome : ℕ → Outcome J c) (s : FsStore J)
      → IsDurable T J s
      → Opens T J law (close J c first outcome s) (kept_view T (view s.hot))
  unfolding close
  close-Opens first outcome s d =
      let st = settle-Settled J c first s in
      let s' = settle J c first s in
      let dr = drain-Drained outcome s'.queue s' refl st.phase (settle-IsDurable first s d) in
      let o = flushed-Opens (drain J c outcome s'.queue s') dr.durable dr.queue in
      record {
        store = o.store;
        opens = o.opens;
        shows = o.shows ∙ ap (λ m. kept_view T (view m)) (dr.hot ∙ st.hot);
      }

  -- From a store that its files and its channel rebuild, after any history of turns of the writer and
  -- of requests whose values JSON reads back, whose lines are below a megabyte and whose changes keep
  -- the identifiers, and after a close, whatever becomes of the compactions, the store opens with each
  -- job, task, webhook and run that it had, the jobs, webhooks and runs with their payloads and results
  -- as JSON carries them, and with no other.
  pub open_fs_store-close :
      (es : List (Event J c)) (first : Outcome J c) (outcome : ℕ → Outcome J c) (s : FsStore J)
      → IsDurable T J s
      → AreFair T J law es
      → (r : FsStore J) × (open_fs_store J (close J c first outcome (run J c es s)) ≡ some r)
        × ((id : String)
            → lookup id r.hot.jobs ≡ mapped (kept_job T) (lookup id (run J c es s).hot.jobs))
        × ((name : String) → lookup name r.hot.task_defs ≡ lookup name (run J c es s).hot.task_defs)
        × ((id : String)
            → lookup id r.hot.webhooks
              ≡ mapped (kept_webhook T) (lookup id (run J c es s).hot.webhooks))
        × ((id : String)
            → lookup id r.hot.runs ≡ mapped (kept_run T) (lookup id (run J c es s).hot.runs))
  open_fs_store-close es first outcome s d fair =
      let o = close-Opens first outcome (run J c es s) (run-IsDurable T J law c es s fair d) in
      (
        o.store,
        o.opens,
        λ id. ap (λ (v : View). v.jobs id) o.shows,
        λ name. ap (λ (v : View). v.tasks name) o.shows,
        λ id. ap (λ (v : View). v.webhooks id) o.shows,
        λ id. ap (λ (v : View). v.runs id) o.shows,
      )
