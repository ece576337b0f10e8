-- ===== src/FileStore/Samples.antt =====
-- manager/store/fsstore.go and contract/json_or_bytes.go: an encoding of JSON and a first start of the
-- store with it, for tests.
use workforce.Prelude.{
  suc, arith, ◌≡◌, refl, Bool, true, false, ◌||◌, Option, none, some, [], ◌∷◌, length, leb,
  if◌then◌else◌, ◌==◌, nat_eq, string_eq,
}
use workforce.Prelude.Int.{pos}
use workforce.Contract.Job.{Job, zero_job, Bytes}
use workforce.Contract.Task.{Task, JobRun}
use workforce.Contract.JsonOrBytes.{JsonText, IsJsonText, null, is_quoted}
use workforce.Store.{WebhookEntry, new_mem_store}
use workforce.FileStore.Entries.{
  Json, JournalEntry, Snapshot, IsJson, restored_job, restored_run, restored_webhook,
  restored_snapshot,
}
use workforce.FileStore.State.{FsStoreConfig, FsStore, Disk, idle}
use workforce.FileStore.Views.{acts}
use workforce.FileStore.Loading.{view}
use workforce.FileStore.Recovery.{IsDurable}
use workforce.FileStore.Writer.{load_snapshot}

-- Texts start with a brace, or are between a quote and the end; bytes are written after a quote and an
-- `A`.
abbrev pub is_text : Bytes → Bool
is_text [] = false
is_text (b ∷ bs) = b == 123 || is_quoted (b ∷ bs)

abbrev pub quoted : Bytes → Bytes
quoted [] = null
quoted (b ∷ bs) = 34 ∷ 65 ∷ b ∷ bs

abbrev pub unquoted : Bytes → Option Bytes
unquoted (q ∷ a ∷ bs) = if a == 65 then some bs else none
unquoted _ = none

abbrev pub texts : JsonText
texts = record {
  valid = is_text;
  compact = λ bs. bs;
  marshal_bytes = quoted;
  unmarshal_bytes = unquoted;
}

pub texts_law : IsJsonText texts
texts_law = record {
  nil_null = refl;
  compact_null = refl;
  quotes = λ b bs. (let full : leb 1 (suc (suc (length bs))) ≡ true = ground arith in rw full refl);
  compact_bytes = λ r. refl;
  unmarshal-marshal = λ b bs. refl;
}

-- Values are written as they are.
pub data TestRaw : Type 0 where
  raw_nil : TestRaw
  raw_job : Job → TestRaw
  raw_task : Task → TestRaw
  raw_webhook : WebhookEntry → TestRaw
  raw_run : JobRun → TestRaw

abbrev pub read_job : TestRaw → Option Job
read_job (raw_job j) = restored_job texts j
read_job _ = none

abbrev pub read_task : TestRaw → Option Task
read_task (raw_task t) = some t
read_task _ = none

abbrev pub read_webhook : TestRaw → Option WebhookEntry
read_webhook (raw_webhook e) = restored_webhook texts e
read_webhook _ = none

abbrev pub read_run : TestRaw → Option JobRun
read_run (raw_run r) = restored_run texts r
read_run _ = none

pub data TestLine : Type 0 where
  line_of : JournalEntry TestRaw → TestLine
  cut_off : TestLine

abbrev pub read_line : TestLine → Option (JournalEntry TestRaw)
read_line (line_of e) = some e
read_line cut_off = none

abbrev pub values : Json
values = record {
  Raw = TestRaw;
  nil = raw_nil;
  marshal_job = λ j. raw_job j;
  unmarshal_job = read_job;
  marshal_task = λ t. raw_task t;
  unmarshal_task = read_task;
  marshal_webhook = λ e. raw_webhook e;
  unmarshal_webhook = read_webhook;
  marshal_run = λ r. raw_run r;
  unmarshal_run = read_run;
  Line = TestLine;
  size = λ line. 100;
  encode = λ e. line_of e;
  decode = read_line;
  File = Snapshot;
  encode_snapshot = λ s. s;
  decode_snapshot = restored_snapshot texts;
}

pub values_law : IsJson texts values
values_law = record {
  job_lem = λ j. refl;
  task_lem = λ t. refl;
  webhook_lem = λ e. refl;
  run_lem = λ r. refl;
  line_lem = λ e. refl;
  snapshot_lem = λ s. refl;
}

abbrev pub config : FsStoreConfig
config = record { sync_interval = pos 0; compact_after = pos 2; journal_buf_size = pos 256 }

abbrev pub no_files : Disk values
no_files = record { snapshot = none; journal = []; run_files = [] }

abbrev pub fresh : FsStore values
fresh = record {
  hot = new_mem_store;
  queue = [];
  buffered = [];
  entry_count = 0;
  phase = idle;
  disk = no_files;
}

pub fresh-IsDurable : IsDurable texts values fresh
unfolding acts new_mem_store load_snapshot
fresh-IsDurable = record {
  js = [];
  bs = [];
  qs = [];
  base = view new_mem_store;
  loads = record { store = new_mem_store; loads = refl; shows = refl };
  lines = tt;
  buffer = tt;
  entries = tt;
  sound = record { jobs = tt; tasks = tt; webhooks = tt; runs = tt };
  at_phase = refl;
}

-- `{}`, and a text that is not what bytes are written as.
abbrev pub braces : Bytes
braces = 123 ∷ 125 ∷ []

abbrev pub greeting : Bytes
greeting = 34 ∷ 104 ∷ 105 ∷ 34 ∷ []

abbrev pub job_a : Job
job_a = record zero_job { id = "a"; payload = braces; result = 1 ∷ 2 ∷ [] }

abbrev pub job_b : Job
job_b = record zero_job { id = "b"; payload = greeting }
