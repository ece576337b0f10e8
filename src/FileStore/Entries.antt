-- ===== src/FileStore/Entries.antt =====
-- manager/store/fsstore_journal.go and fsstore_snapshot.go: the entries of the journal, the snapshot,
-- what encoding/json makes of both, and how an entry is applied.
use workforce.Prelude.{
  ℕ, ◌^◌, ◌≡◌, String, Option, none, some, List, [], ◌∷◌, leb, if◌then◌else◌, string_eq,
}
use workforce.Prelude.Options.{◌>>=◌, traverse}
use workforce.Prelude.Int.{ℤ, pos}
use workforce.Prelude.Dict.{delete}
use workforce.Contract.Job.{Job, Time}
use workforce.Contract.Task.{Task, JobRun}
use workforce.Contract.JsonOrBytes.{JsonText, carried}
use workforce.Store.{
  MemStore, WebhookEntry, save_job, save_task, enqueue_webhook, ack_webhook, nack_webhook,
  create_run,
}

-- `unknown` is every other text.
pub data JournalOp : Type 0 where
  op_job op_task_def op_task_def_delete op_webhook_enqueue op_webhook_ack op_webhook_nack :
      JournalOp
  op_run_create op_run_update unknown : JournalOp

-- An entry without its time stamp, which no reader looks at; `Raw` is `json.RawMessage`.
pub record JournalEntry (Raw : Type 0) : Type 0 where
  pub op : JournalOp
  pub raw : Raw
  pub id : String
  pub attempts : ℤ
  pub next_attempt_at : Time

-- A snapshot without its version and time, which no reader looks at.
pub record Snapshot : Type 0 where
  pub jobs : List Job
  pub task_defs : List Task
  pub webhooks : List WebhookEntry
  pub runs : List JobRun

-- encoding/json on the types of the store: an error is `none`. A line of the journal is read by
-- `json.Valid` and `json.Unmarshal` together.
pub record Json : Type 1 where
  pub Raw : Type 0
  pub nil : Raw
  pub marshal_job : Job → Raw
  pub unmarshal_job : Raw → Option Job
  pub marshal_task : Task → Raw
  pub unmarshal_task : Raw → Option Task
  pub marshal_webhook : WebhookEntry → Raw
  pub unmarshal_webhook : Raw → Option WebhookEntry
  pub marshal_run : JobRun → Raw
  pub unmarshal_run : Raw → Option JobRun
  pub Line : Type 0
  pub size : Line → ℕ
  pub encode : JournalEntry Raw → Line
  pub decode : Line → Option (JournalEntry Raw)
  pub File : Type 0
  pub encode_snapshot : Snapshot → File
  pub decode_snapshot : File → Option Snapshot

-- The values that were written and read again, field by field.
module _ (T : JsonText) where
  abbrev pub restored_job : Job → Option Job
  restored_job j = do
    payload ← carried T j.payload
    result ← carried T j.result
    some (record j { payload = payload; result = result })

  abbrev pub restored_run : JobRun → Option JobRun
  restored_run r = do
    input ← carried T r.input_payload
    output ← carried T r.output_payload
    some (record r { input_payload = input; output_payload = output })

  abbrev pub restored_webhook : WebhookEntry → Option WebhookEntry
  restored_webhook e = do payload ← carried T e.payload; some (record e { payload = payload })

abbrev pub restored_snapshot : JsonText → Snapshot → Option Snapshot
restored_snapshot T s = do
  jobs ← traverse (restored_job T) s.jobs
  webhooks ← traverse (restored_webhook T) s.webhooks
  runs ← traverse (restored_run T) s.runs
  some (record s { jobs = jobs; webhooks = webhooks; runs = runs })

-- A struct is read field by field as it was written, and so is a line; `nil` is left out.
pub record IsJson (T : JsonText) (J : Json) : Type 0 where
  pub job_lem : (j : Job) → J.unmarshal_job (J.marshal_job j) ≡ restored_job T j
  pub task_lem : (t : Task) → J.unmarshal_task (J.marshal_task t) ≡ some t
  pub webhook_lem :
      (e : WebhookEntry) → J.unmarshal_webhook (J.marshal_webhook e) ≡ restored_webhook T e
  pub run_lem : (r : JobRun) → J.unmarshal_run (J.marshal_run r) ≡ restored_run T r
  pub line_lem : (e : JournalEntry J.Raw) → J.decode (J.encode e) ≡ some e
  pub snapshot_lem :
      (s : Snapshot) → J.decode_snapshot (J.encode_snapshot s) ≡ restored_snapshot T s

module _ (J : Json) where
  abbrev pub entry : JournalOp → J.Raw → String → JournalEntry J.Raw
  entry op raw id = record { op = op; raw = raw; id = id; attempts = pos 0; next_attempt_at = 0 }

  -- The loaded value of an entry is stored by `store`; an error ends the replay.
  abbrev pub stored :
      {A : Type 0} → (A → MemStore → MemStore) → Option A → MemStore → Option MemStore
  stored store none m = none
  stored store (some a) m = some (store a m)

  abbrev pub apply_op : JournalOp → JournalEntry J.Raw → MemStore → Option MemStore
  apply_op op_job e m = stored save_job (J.unmarshal_job e.raw) m
  apply_op op_task_def e m = stored save_task (J.unmarshal_task e.raw) m
  apply_op op_task_def_delete e m = some (record m { task_defs = delete e.id m.task_defs })
  apply_op op_webhook_enqueue e m = stored enqueue_webhook (J.unmarshal_webhook e.raw) m
  apply_op op_webhook_ack e m = some (ack_webhook e.id m)
  apply_op op_webhook_nack e m = some (nack_webhook e.id e.attempts e.next_attempt_at m).1
  apply_op op_run_create e m = stored create_run (J.unmarshal_run e.raw) m
  apply_op op_run_update e m = stored create_run (J.unmarshal_run e.raw) m
  apply_op unknown e m = some m

  unfoldable pub apply_journal_entry : JournalEntry J.Raw → MemStore → Option MemStore
  apply_journal_entry e m = apply_op e.op e m

  -- The scanner ends with an error at a line that its buffer of a megabyte does not hold; a line that
  -- is no entry, such as one that was cut off, ends the replay.
  unfoldable pub replay_lines : List J.Line → MemStore → Option MemStore
  replay_lines [] m = some m
  replay_lines (line ∷ lines) m =
      if leb (2 ^ 20) (J.size line) then none else elim (J.decode line) [
        | none ↦ some m
        | some e ↦ elim (apply_journal_entry e m) [ none ↦ none | some m' ↦ replay_lines lines m' ]
      ]
