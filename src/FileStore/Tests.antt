-- ===== src/FileStore/Tests.antt =====
-- manager/store/fsstore.go and contract/json_or_bytes.go: runs of the store with an encoding of JSON.
use workforce.Prelude.{◌≡◌, refl, inl, String, none, some, List, [], ◌++◌, ◌∷◌, nat_eq, string_eq}
use workforce.Prelude.Dict.{lookup, insert}
use workforce.Contract.Job.{Job, Bytes}
use workforce.Contract.JsonOrBytes.{marshal_json, unmarshal_json, carried}
use workforce.Contract.JsonOrBytes.RoundTrip.{round_trip, carried-eq-round_trip}
use workforce.Store
use workforce.Store.{WebhookEntry, MemStore, new_mem_store}
use workforce.FileStore.Entries.{restored_job}
use workforce.FileStore.State.{FsStore, Disk}
use workforce.FileStore.Operations
use workforce.FileStore.State.{FsStoreConfig, idle}
use workforce.Prelude.{ℕ, ◌+◌, true, length}
use workforce.Prelude.Int.{pos, ltb_ℤ}
use workforce.FileStore.Views.{mapped}
use workforce.FileStore.Loading.{kept_job, kept_run, kept_webhook, IsFitJob}
use workforce.FileStore.Recovery.{IsDurable}
use workforce.FileStore.Requests.{
  Event, client, writer, run, saves_job, updates_job, AreFair, run-IsDurable,
}
use workforce.FileStore.Writer.{
  load_snapshot, open_fs_store, crash, close, compacted, not_renamed, write, rename,
}
use workforce.Store.Logs.{log_of}
use workforce.FileStore.Entries.{replay_lines}
use workforce.FileStore.Writer.{opened}
use workforce.FileStore.Logs.{whole, cut_short, get_run_log_reader}
use workforce.FileStore.Logs.Lines.{
  Quiet, Call, append_all, parts, file_part, buffer_part, log_in, append_all-logs,
}
use workforce.FileStore.Logs.Restart.{open_fs_store-logs}
use workforce.FileStore.Reopening.{Survives, open_fs_store-crash}
use workforce.FileStore.Closing.{open_fs_store-close}
use workforce.FileStore.Faults.{crossed, open_fs_store-crossed, open_fs_store-fails}
use workforce.FileStore.Samples.{
  cut_off, texts, texts_law, values, values_law, config, no_files, fresh, fresh-IsDurable, braces,
  greeting, job_a, job_b,
}

carried_bytes : carried texts (1 ∷ 2 ∷ []) ≡ some (1 ∷ 2 ∷ [])
unfolding carried marshal_json unmarshal_json
carried_bytes = refl

carried_greeting : carried texts greeting ≡ none
unfolding carried marshal_json unmarshal_json
carried_greeting = refl

carried-eq-round_trip_example : carried texts greeting ≡ round_trip texts greeting
carried-eq-round_trip_example = carried-eq-round_trip texts greeting texts_law

-- Two changes of a job, an entry and a compaction that has replaced the snapshot.
abbrev finish : Job → Job
finish j = record j { payload = braces; result = 1 ∷ 2 ∷ [] }

abbrev fail : Job → Job
fail j = record j { payload = braces; result = []; failure_reason = "late" }

abbrev history : List (Event values config)
history =
    client (saves_job job_a)
    ∷ writer write
    ∷ client (updates_job "a" fail)
    ∷ writer write
    ∷ writer rename
    ∷ client (saves_job (record job_a { id = "c" }))
    ∷ []

history-AreFair : AreFair texts values values_law history
unfolding carried marshal_json unmarshal_json
history-AreFair = ((refl, refl), ((λ j fit. (refl, (refl, refl))), ((refl, refl), tt)))

open_fs_store-crash_example :
    Survives texts values values_law
      (run values config history fresh)
      0
      (crash values 0 (cut_off ∷ []) (run values config history fresh))
open_fs_store-crash_example =
    open_fs_store-crash texts values values_law config history fresh 0 (cut_off ∷ [])
      fresh-IsDurable history-AreFair (refl, refl)

open_fs_store-close_example :
    (r : FsStore values) × (open_fs_store values
        (close values config compacted (λ n. not_renamed) (run values config history fresh))
      ≡ some r)
    × ((id : String)
        → lookup id r.hot.jobs
          ≡ mapped (kept_job texts) (lookup id (run values config history fresh).hot.jobs))
    × ((name : String)
        → lookup name r.hot.task_defs ≡ lookup name (run values config history fresh).hot.task_defs)
    × ((id : String)
        → lookup id r.hot.webhooks
          ≡ mapped (kept_webhook texts) (lookup id (run values config history fresh).hot.webhooks))
    × ((id : String)
        → lookup id r.hot.runs
          ≡ mapped (kept_run texts) (lookup id (run values config history fresh).hot.runs))
open_fs_store-close_example =
    open_fs_store-close texts values values_law config history compacted (λ n. not_renamed) fresh
      fresh-IsDurable history-AreFair

-- A store with one job.
abbrev one_job : FsStore values
one_job = run values config (client (saves_job job_a) ∷ []) fresh

one_job-IsDurable : IsDurable texts values one_job
unfolding carried marshal_json unmarshal_json
one_job-IsDurable =
    run-IsDurable texts values values_law config (client (saves_job job_a) ∷ []) fresh
      ((refl, refl), tt) fresh-IsDurable

one_job_found : lookup "a" one_job.hot.jobs ≡ some job_a
unfolding run Operations.save_job Store.save_job new_mem_store insert
one_job_found = refl

abbrev roomy : FsStoreConfig
roomy = record config { compact_after = pos 500 }

one_job_idle : one_job.phase ≡ idle
unfolding run Operations.save_job
one_job_idle = refl

one_job_below :
    (n : ℕ)
    → ltb_ℤ (pos (0 + 1 + n)) (pos 500) ≡ true
    → ltb_ℤ (pos (one_job.entry_count + length one_job.queue + n)) roomy.compact_after ≡ true
unfolding run Operations.save_job
one_job_below n h = h

fail-IsFit : IsFitJob texts values (fail job_a)
unfolding carried marshal_json unmarshal_json
fail-IsFit = (refl, refl)

finish-IsFit : IsFitJob texts values (finish (fail job_a))
unfolding carried marshal_json unmarshal_json
finish-IsFit = (refl, refl)

open_fs_store-crossed_example :
    (t : FsStore values) × (crossed values "a" fail finish one_job ≡ some t)
    × (lookup "a" t.hot.jobs ≡ some (finish (fail job_a)))
    × ((r : FsStore values) × (open_fs_store values
            (close values roomy compacted (λ n. compacted) t)
          ≡ some r)
        × (lookup "a" r.hot.jobs ≡ some (kept_job texts (fail job_a))))
open_fs_store-crossed_example =
    open_fs_store-crossed texts values values_law roomy compacted (λ n. compacted) "a" fail finish
      one_job job_a one_job-IsDurable one_job_idle (one_job_below 2 refl) one_job_found refl refl
      fail-IsFit finish-IsFit

job_b_lost : restored_job texts job_b ≡ none
unfolding carried marshal_json unmarshal_json
job_b_lost = refl

open_fs_store-fails_example :
    open_fs_store values
      (close values roomy compacted (λ n. compacted) (Operations.save_job values job_b one_job))
    ≡ none
open_fs_store-fails_example =
    open_fs_store-fails texts values values_law roomy compacted (λ n. compacted) job_b one_job
      one_job-IsDurable one_job_idle (one_job_below 1 refl) (inl (job_b_lost, refl))

-- A line that is written and one of which a byte is.
abbrev hello : Bytes
hello = 104 ∷ 105 ∷ []

abbrev calls : List (Call values)
calls =
    record { run_id = "r"; bytes = hello; writing = whole; between = λ s. s }
    ∷ record { run_id = "q"; bytes = hello; writing = whole; between = λ s. s }
    ∷ record { run_id = "r"; bytes = hello; writing = cut_short 1; between = λ s. s }
    ∷ []

still : Quiet values (λ s. s)
still = record { files = λ s. refl; buffers = λ s. refl }

append_all-logs_example :
    (get_run_log_reader values "r" (append_all values calls fresh)
      ≡ get_run_log_reader values "r" fresh ++ parts values file_part "r" calls)
    × (log_of "r" (append_all values calls fresh).hot
        ≡ log_of "r" fresh.hot ++ parts values buffer_part "r" calls)
append_all-logs_example = append_all-logs values calls fresh "r" (still, (still, (still, tt)))

abbrev kept_files : Disk values
kept_files = record no_files { run_files = ("r", hello) ∷ [] }

starts_again : open_fs_store values kept_files ≡ some (opened values kept_files new_mem_store)
unfolding open_fs_store load_snapshot replay_lines
starts_again = refl

open_fs_store-logs_example :
    (get_run_log_reader values "r" (opened values kept_files new_mem_store)
      ≡ log_in "r" kept_files.run_files)
    × (log_of "r" (opened values kept_files new_mem_store).hot ≡ [])
open_fs_store-logs_example =
    open_fs_store-logs values kept_files (opened values kept_files new_mem_store) "r" starts_again
