-- ===== src/Protocol/Unstarted.antt =====
-- contract/proto_message.go, `resultV0Factory`: what becomes of the lines of a worker whose run could
-- not start.
use workforce.Prelude.{◌≡◌, refl, String, false, none, some, [], ◌==◌, string_eq}
use workforce.Prelude.Int.{pos, negsuc}
use workforce.Prelude.Dict.{lookup}
use workforce.Contract.Job.{Bytes}
use workforce.Contract.Task.{error}
use workforce.Protocol.Flags.{Flags, Netargv, IsReading, ok, err, missing, require_flag}
use workforce.Protocol.Factories.{
  Decoders, result_factory, result_of, fetch_failed, directory_failed,
}

module _ (N : Netargv) (law : IsReading N) where
  -- What a required flag reads, by the first of its values.
  require-found :
      (fs : Flags) (name v : String)
      → lookup name fs ≡ some v
      → (v == "") ≡ false
      → require_flag N (N.read fs) name ≡ ok v
  unfolding require_flag
  require-found fs name v h e = rw (law.find-read fs name, require_flag, h, e) refl

  require-absent :
      (fs : Flags) (name : String)
      → lookup name fs ≡ none
      → require_flag N (N.read fs) name ≡ err (missing name)
  unfolding require_flag
  require-absent fs name h = rw (law.find-read fs name, require_flag, h) refl

  module _ (D : Decoders) where
    -- The line that a worker writes when the artifact of a job was not fetched is refused, since it
    -- has no run identifier.
    pub result_factory-fetch_failed :
        (job_id reason : String) (payload : Bytes)
        → (job_id == "") ≡ false
        → result_factory N D (N.read (fetch_failed job_id reason)) payload ≡ err (missing "run-id")
    unfolding result_factory fetch_failed
    result_factory-fetch_failed job_id reason payload a =
        let fs = fetch_failed job_id reason in
        rw
          (
            require-found fs "job-id" job_id refl a,
            require-found fs "type" "error" refl refl,
            require-absent fs "run-id" refl,
          )
          refl

    -- The line that a worker writes when the directory of a job was not made is read as an error
    -- with exit code 0 whose reason is the text of the payload, whatever reason the line gives.
    pub result_factory-directory_failed :
        (job_id run_id reason : String) (payload : Bytes)
        → (job_id == "") ≡ false
        → (run_id == "") ≡ false
        → result_factory N D (N.read (directory_failed job_id run_id reason)) payload
          ≡ ok (record {
            parent_job_id = "";
            job_id = job_id;
            run_id = run_id;
            kind = error;
            duration = negsuc 0;
            warnings = "";
            reason = D.text payload;
            exit_code = pos 0;
            jobs = [];
            payload = [];
          })
    unfolding result_factory directory_failed result_of
    result_factory-directory_failed job_id run_id reason payload a b =
        let fs = directory_failed job_id run_id reason in
        rw
          (
            require-found fs "job-id" job_id refl a,
            require-found fs "type" "error" refl refl,
            require-found fs "run-id" run_id refl b,
            law.get-read fs "duration",
            law.get-read fs "exit-code",
            law.find-read fs "parent-job-id",
          )
          refl
