-- ===== src/FileStore/Faults.antt =====
-- manager/store/fsstore.go and fsstore_journal.go: changes that the next `OpenFSStore` does not find, and
-- journals that it does not read.
use mathlib.Core.List.{append_assoc, append-nil, map-append}
use workforce.Prelude.{
  ◌≡◌, refl, sym, ap, ◌∙◌, inl, inr, ◌⊎◌, ◌^◌, String, true, Option, none, some, List, [], ◌∷◌,
  ◌++◌, map, leb, string_eq, eq_iff, ◌==◌,
}
use workforce.Prelude.Options.{◌>>=◌}
use workforce.Prelude.Dict.{lookup, lookup-insert}
use workforce.Contract.Job.{Job}
use workforce.Contract.JsonOrBytes.{JsonText}
use workforce.Store
use workforce.Store.{MemStore}
use workforce.FileStore.Entries.{
  Json, JournalEntry, IsJson, replay_lines, apply_journal_entry, restored_job,
}
use workforce.FileStore.State.{FsStoreConfig, idle, FsStore, journal}
use workforce.FileStore.Operations
use workforce.FileStore.Operations.{job_entry}
use workforce.FileStore.Views.{View, Logged, put_job, act, acts, acts-append}
use workforce.FileStore.Loading.{kept_job, IsFitJob, IsShort}
use workforce.FileStore.Replay.{
  ReadEntries, ReadLines, ReadLines-append, ReadEntries-append, replay_lines-append,
  job_entry-Reads,
}
use workforce.FileStore.Recovery.{IsDurable}
use workforce.FileStore.Reopening.{Opens, open_fs_store-Opens}
use workforce.FileStore.Writer.{open_fs_store, close, Outcome}
use workforce.FileStore.Draining.{with_lines, close-with_lines}
use workforce.Prelude.{ℕ, ◌+◌, arith, length, length-append}
use workforce.Prelude.Int.{pos, ltb_ℤ}

module _ (J : Json) where
  -- Two `UpdateJob` of one job of which the first to hold the lock is the last to journal.
  abbrev pub crossed : String → (Job → Job) → (Job → Job) → FsStore J → Option (FsStore J)
  crossed id f g s = Operations.change_job J id f s >>= λ (e1, s1).
      Operations.change_job J id g s1 >>= λ (e2, s2). some (journal J e1 (journal J e2 s2))

  encoded-ReadLines :
      (q : List (JournalEntry J.Raw)) (ops : List Logged)
      → ReadEntries J q ops
      → ReadLines J (map J.encode q) ops
  encoded-ReadLines [] [] h = tt
  encoded-ReadLines [] (op ∷ ops) h = absurd h
  encoded-ReadLines (e ∷ q) [] h = absurd h
  encoded-ReadLines (e ∷ q) (op ∷ ops) h =
      (record { of = e; line_of = refl; reads = h.0 }, encoded-ReadLines q ops h.1)

module _ (T : JsonText) (J : Json) (law : IsJson T J) where
  -- What the files of a durable store and some more entries open as.
  module _ (s : FsStore J) (d : IsDurable T J s) (more : List (JournalEntry J.Raw)) where
    abbrev sent : FsStore J
    sent = record s { queue = s.queue ++ more }

    lines-ReadLines :
        (ops : List Logged)
        → ReadEntries J more ops
        → ReadLines J (with_lines J sent.queue sent).journal (d.js ++ (d.bs ++ (d.qs ++ ops)))
    lines-ReadLines ops r = ReadLines-append J _ _ d.js (d.bs ++ (d.qs ++ ops)) d.lines (
        ReadLines-append J _ _ d.bs (d.qs ++ ops) d.buffer
          (encoded-ReadLines J _ _ (ReadEntries-append J s.queue more d.qs ops d.entries r)))

    written-Opens :
        (ops : List Logged)
        → ReadEntries J more ops
        → Opens T J law
            (with_lines J sent.queue sent)
            (acts (d.js ++ (d.bs ++ (d.qs ++ ops))) d.base)
    written-Opens ops r =
        let o =
          open_fs_store-Opens T J law s.disk (with_lines J sent.queue sent).journal [] _ d.base
            d.loads (lines-ReadLines ops r) tt in
        record {
          store = o.store;
          opens =
              ap (λ ls. open_fs_store J (record s.disk { journal = ls }))
                (sym (append-nil (with_lines J sent.queue sent).journal))
              ∙ o.opens;
          shows = o.shows;
        }

  -- The job that was put last.
  put_last :
      (js bs qs : List Logged) (op : Logged) (j : Job) (id : String) (v : View)
      → j.id ≡ id
      → (acts (js ++ (bs ++ (qs ++ op ∷ put_job j ∷ []))) v).jobs id ≡ some j
  unfolding acts act
  put_last js bs qs op j id v h =
      let last = op ∷ put_job j ∷ [] in
      let t : (j.id == id) ≡ true = (eq_iff j.id id).1 h in
      ap (λ (w : View). w.jobs id)
        (acts-append js (bs ++ (qs ++ last)) v
          ∙ acts-append bs (qs ++ last) (acts js v)
          ∙ acts-append qs last (acts bs (acts js v)))
      ∙ rw t refl

  -- Two `UpdateJob` of a job that run at once, where the one that changed the job first journals last,
  -- in a store that its files and its channel rebuild, with results that JSON reads back from lines
  -- below a megabyte: the store has both changes. Where no compaction is under way or comes to be due
  -- until the channel is drained, the store that opens after a close lacks the second.
  pub open_fs_store-crossed :
      (c : FsStoreConfig) (first : Outcome J c) (outcome : ℕ → Outcome J c) (id : String)
      (f g : Job → Job) (s : FsStore J) (job : Job)
      → IsDurable T J s
      → s.phase ≡ idle
      → ltb_ℤ (pos (s.entry_count + length s.queue + 2)) c.compact_after ≡ true
      → lookup id s.hot.jobs ≡ some job
      → (f job).id ≡ id
      → (g (f job)).id ≡ id
      → IsFitJob T J (f job)
      → IsFitJob T J (g (f job))
      → (t : FsStore J) × (crossed J id f g s ≡ some t)
        × (lookup id t.hot.jobs ≡ some (g (f job)))
        × ((r : FsStore J) × (open_fs_store J (close J c first outcome t) ≡ some r)
            × (lookup id r.hot.jobs ≡ some (kept_job T (f job))))
  unfolding Operations.change_job Store.get_job Store.update_job
  open_fs_store-crossed c first outcome id f g s job d p below h nf ng fit_f fit_g =
      let e1 = job_entry J (f job) in
      let e2 = job_entry J (g (f job)) in
      let m1 = (Store.update_job id f s.hot).1 in
      let m2 = (Store.update_job id g m1).1 in
      let self : (k : String) → (k == k) ≡ true = λ k. (eq_iff k k).1 refl in
      let found1 : lookup id m1.jobs ≡ some (f job) =
        rw (h, Store.update_job) (lookup-insert id id (f job) s.hot.jobs ∙ rw (self id) refl) in
      let found2 : lookup id m2.jobs ≡ some (g (f job)) =
        rw (found1, Store.update_job)
          (lookup-insert id id (g (f job)) m1.jobs ∙ rw (self id) refl) in
      let t : FsStore J = journal J e1 (journal J e2 (record s { hot = m2 })) in
      let o =
        written-Opens s d (e2 ∷ e1 ∷ [])
          (put_job (kept_job T (g (f job))) ∷ put_job (kept_job T (f job)) ∷ [])
          (
            job_entry-Reads J T law (g (f job)) fit_g,
            (job_entry-Reads J T law (f job) fit_f, tt),
          ) in
      let closed = close-with_lines J c first outcome t p (
        ap (λ n. ltb_ℤ (pos n) c.compact_after)
          (omega
            (arith, length-append (s.queue ++ e2 ∷ []) (e1 ∷ []), length-append s.queue (e2 ∷ [])))
        ∙ below) in
      let goes : crossed J id f g s ≡ some t =
        rw (h, Operations.change_job, Store.get_job, found1) refl in
      (
        t,
        goes,
        found2,
        (
          o.store,
          ap (open_fs_store J) closed
              ∙ ap (λ q. open_fs_store J (with_lines J q (record s { queue = q })))
                  (append_assoc s.queue (e2 ∷ []) (e1 ∷ []))
              ∙ o.opens,
          ap (λ (w : View). w.jobs id) o.shows
              ∙ put_last d.js d.bs d.qs (put_job (kept_job T (g (f job)))) (kept_job T (f job)) id
                  d.base nf,
        ),
      )

  -- The last line of a journal, where replay is stuck.
  replay_last :
      (j : Job) (m : MemStore)
      → ((restored_job T j ≡ none) × IsShort T J (job_entry J j))
        ⊎ (leb (2 ^ 20) (J.size (J.encode (job_entry J j))) ≡ true)
      → replay_lines J (J.encode (job_entry J j) ∷ []) m ≡ none
  unfolding replay_lines apply_journal_entry
  replay_last j m (inl (bad, short)) =
      rw (short, law.line_lem (job_entry J j), law.job_lem j, bad) refl
  replay_last j m (inr long) = rw long refl

  -- A job that JSON does not read back, as one with a text as its payload that is not base64, or whose
  -- line has a megabyte, is saved in a store that its files and its channel rebuild. Where no
  -- compaction is under way or comes to be due until the channel is drained, `OpenFSStore` fails after
  -- a close.
  pub open_fs_store-fails :
      (c : FsStoreConfig) (first : Outcome J c) (outcome : ℕ → Outcome J c) (j : Job)
      (s : FsStore J)
      → IsDurable T J s
      → s.phase ≡ idle
      → ltb_ℤ (pos (s.entry_count + length s.queue + 1)) c.compact_after ≡ true
      → ((restored_job T j ≡ none) × IsShort T J (job_entry J j))
        ⊎ (leb (2 ^ 20) (J.size (J.encode (job_entry J j))) ≡ true)
      → open_fs_store J (close J c first outcome (Operations.save_job J j s)) ≡ none
  unfolding open_fs_store Operations.save_job
  open_fs_store-fails c first outcome j s d p below bad =
      let last = J.encode (job_entry J j) ∷ [] in
      let before = s.disk.journal ++ (s.buffered ++ map J.encode s.queue) in
      let l = d.loads in
      let same : s.disk.journal ++ (s.buffered ++ map J.encode (s.queue ++ job_entry J j ∷ []))
          ≡ before ++ last =
        rw
          (
            map-append J.encode s.queue (job_entry J j ∷ []),
            append_assoc s.disk.journal (s.buffered ++ map J.encode s.queue) last,
            append_assoc s.buffered (map J.encode s.queue) last,
          )
          refl in
      let (m, goes, shows) =
        replay_lines-append J T law before last (d.js ++ (d.bs ++ d.qs)) l.store (
          ReadLines-append J _ _ d.js (d.bs ++ d.qs) d.lines
            (ReadLines-append J _ _ d.bs d.qs d.buffer (encoded-ReadLines J _ _ d.entries))) in
      let t = Operations.save_job J j s in
      let closed = close-with_lines J c first outcome t p (
        ap (λ n. ltb_ℤ (pos n) c.compact_after)
          (omega (arith, length-append s.queue (job_entry J j ∷ [])))
        ∙ below) in
      ap (open_fs_store J) closed ∙ rw (l.loads, same, goes, replay_last j m bad) refl
