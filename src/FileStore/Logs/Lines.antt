-- ===== src/FileStore/Logs/Lines.antt =====
-- manager/store/fsstore.go, `AppendRunLog`: what the file and the buffer of a run hold after any lines.
use mathlib.Core.List.{append_assoc, append-nil}
use workforce.Prelude.{
  ℕ, arith, eq_iff, ◌≡◌, refl, sym, ap, ◌∙◌, inl, inr, String, true, none, some, List, [], ◌∷◌,
  ◌++◌, take, if◌then◌else◌, ◌==◌, string_eq, Bool-cases,
}
use workforce.Prelude.Dict.{Dict, lookup, insert, lookup-insert}
use workforce.Contract.Job.{Bytes}
use workforce.Store.{MemStore}
use workforce.Store.Logs.{try_send, send_all, log_of, append_log}
use workforce.FileStore.Entries.{Json}
use workforce.FileStore.State.{FsStore}
use workforce.FileStore.Logs.{
  Writing, not_opened, cut_short, whole, line_of, get_run_log_reader, write_file, append_run_log,
}

try_send-run_logs :
    (chunk : Bytes) (ch : ℕ) (m : MemStore) → (try_send chunk ch m).run_logs ≡ m.run_logs
unfolding try_send
try_send-run_logs chunk ch m = ground arith

send_all-run_logs :
    (chunk : Bytes) (chs : List ℕ) (m : MemStore) → (send_all chunk chs m).run_logs ≡ m.run_logs
unfolding send_all
send_all-run_logs chunk [] m = refl
send_all-run_logs chunk (ch ∷ chs) m =
    send_all-run_logs chunk chs (try_send chunk ch m) ∙ try_send-run_logs chunk ch m

-- The log of a run in a map of logs.
abbrev pub log_in : String → Dict String Bytes → Bytes
log_in id logs = elim (lookup id logs) [ none ↦ [] | some log ↦ log ]

-- What more a log of a run is after bytes for one.
abbrev bytes_for : String → String → Bytes → Bytes
bytes_for id run_id bytes = if run_id == id then bytes else []

log_in-insert :
    (id run_id : String) (bytes : Bytes) (logs : Dict String Bytes)
    → log_in id (insert run_id (log_in run_id logs ++ bytes) logs)
      ≡ log_in id logs ++ bytes_for id run_id bytes
log_in-insert id run_id bytes logs = elim (Bool-cases (run_id == id)) [
  | inl t ↦
      let here : (id == id) ≡ true = (eq_iff id id).1 refl in
      rw ((eq_iff run_id id).0 t)
        (rw (lookup-insert id id (log_in id logs ++ bytes) logs, here, log_in) refl)
  | inr f ↦
      rw (lookup-insert run_id id (log_in run_id logs ++ bytes) logs, f, log_in)
        (sym (append-nil _))
]

nothing_for : (id run_id : String) (log : Bytes) → log ≡ log ++ bytes_for id run_id []
nothing_for id run_id log = elim (Bool-cases (run_id == id)) [
  | inl t ↦ rw t (sym (append-nil log))
  | inr f ↦ rw f (sym (append-nil log))
]

then_more :
    (after middle before part rest : Bytes)
    → after ≡ middle ++ rest
    → middle ≡ before ++ part
    → after ≡ before ++ (part ++ rest)
then_more after middle before part rest h g =
    h ∙ ap (λ log. log ++ rest) g ∙ append_assoc before part rest

-- What a call adds to the file, and what it adds to the buffer.
abbrev pub file_part : Bytes → Writing → Bytes
file_part bytes not_opened = []
file_part bytes (cut_short n) = take n (line_of bytes)
file_part bytes whole = line_of bytes

abbrev pub buffer_part : Bytes → Writing → Bytes
buffer_part bytes whole = line_of bytes
buffer_part bytes _ = []

module _ (J : Json) where
  -- Others, in a call before its sends, append to no log.
  pub record Quiet (between : FsStore J → FsStore J) : Type 0 where
    pub files : (s : FsStore J) → (between s).disk.run_files ≡ s.disk.run_files
    pub buffers : (s : FsStore J) → (between s).hot.run_logs ≡ s.hot.run_logs

  pub record Call : Type 0 where
    pub run_id : String
    pub bytes : Bytes
    pub writing : Writing
    pub between : FsStore J → FsStore J

  abbrev pub append_all : List Call → FsStore J → FsStore J
  append_all [] s = s
  append_all (c ∷ cs) s = append_all cs (append_run_log J c.run_id c.bytes c.writing c.between s).1

  abbrev pub AreQuiet : List Call → Type 0
  AreQuiet [] = Unit {0}
  AreQuiet (c ∷ cs) = Quiet c.between × AreQuiet cs

  -- The parts of the calls for a run, in order.
  abbrev pub parts : (Bytes → Writing → Bytes) → String → List Call → Bytes
  parts part id [] = []
  parts part id (c ∷ cs) = bytes_for id c.run_id (part c.bytes c.writing) ++ parts part id cs

  append_run_log-file :
      (id run_id : String) (bytes : Bytes) (w : Writing) (between : FsStore J → FsStore J)
      (s : FsStore J)
      → Quiet between
      → log_in id (append_run_log J run_id bytes w between s).1.disk.run_files
        ≡ log_in id s.disk.run_files ++ bytes_for id run_id (file_part bytes w)
  unfolding append_run_log append_log write_file get_run_log_reader
  append_run_log-file id run_id bytes not_opened between s q =
      nothing_for id run_id (log_in id s.disk.run_files)
  append_run_log-file id run_id bytes (cut_short n) between s q =
      log_in-insert id run_id (take n (line_of bytes)) s.disk.run_files
  append_run_log-file id run_id bytes whole between s q =
      ap (log_in id) (q.files _) ∙ log_in-insert id run_id (line_of bytes) s.disk.run_files

  append_run_log-buffer :
      (id run_id : String) (bytes : Bytes) (w : Writing) (between : FsStore J → FsStore J)
      (s : FsStore J)
      → Quiet between
      → log_in id (append_run_log J run_id bytes w between s).1.hot.run_logs
        ≡ log_in id s.hot.run_logs ++ bytes_for id run_id (buffer_part bytes w)
  unfolding append_run_log append_log write_file log_of
  append_run_log-buffer id run_id bytes not_opened between s q =
      nothing_for id run_id (log_in id s.hot.run_logs)
  append_run_log-buffer id run_id bytes (cut_short n) between s q =
      nothing_for id run_id (log_in id s.hot.run_logs)
  append_run_log-buffer id run_id bytes whole between s q =
      ap (log_in id) (send_all-run_logs _ _ _ ∙ send_all-run_logs _ _ _ ∙ q.buffers _)
      ∙ log_in-insert id run_id (line_of bytes) s.hot.run_logs

  -- After any calls of `AppendRunLog`, a reader of a log finds after what was there each line of the
  -- run, ended by a newline, in order, and the part that was written of those whose write failed; the
  -- buffer, from which a subscriber gets what came before, holds the whole lines alone.
  pub append_all-logs :
      (cs : List Call) (s : FsStore J) (id : String)
      → AreQuiet cs
      → (get_run_log_reader J id (append_all cs s)
          ≡ get_run_log_reader J id s ++ parts file_part id cs)
        × (log_of id (append_all cs s).hot ≡ log_of id s.hot ++ parts buffer_part id cs)
  unfolding get_run_log_reader log_of
  append_all-logs [] s id q = (sym (append-nil _), sym (append-nil _))
  append_all-logs (c ∷ cs) s id q =
      let s1 = (append_run_log J c.run_id c.bytes c.writing c.between s).1 in
      let rest = append_all-logs cs s1 id q.1 in
      let file = append_run_log-file id c.run_id c.bytes c.writing c.between s q.0 in
      let buffer = append_run_log-buffer id c.run_id c.bytes c.writing c.between s q.0 in
      (then_more _ _ _ _ _ rest.0 file, then_more _ _ _ _ _ rest.1 buffer)
