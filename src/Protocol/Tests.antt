-- ===== src/Protocol/Tests.antt =====
-- The factories on lines of one job, with flags that are read by an association list.
use workforce.Prelude.{◌≡◌, refl, none, [], is_some, string_eq}
use workforce.Prelude.Int.{pos, negsuc}
use workforce.Prelude.Dict.{lookup}
use workforce.Contract.Task.{error}
use workforce.Protocol.Flags.{Flags, Netargv, IsReading, ok, err, missing, values, or_empty}
use workforce.Protocol.Factories.{Decoders, result_factory, fetch_failed, directory_failed}
use workforce.Protocol.Unstarted.{result_factory-fetch_failed, result_factory-directory_failed}

abbrev listed : Netargv
listed = record {
  FlagSet = Flags;
  find = λ fs name. lookup name fs;
  get = λ fs name. or_empty (lookup name fs);
  has = λ fs name. is_some (lookup name fs);
  get_repeated = λ fs name. values name fs;
  read = λ fs. fs;
}

abbrev listed-IsReading : IsReading listed
listed-IsReading = record {
  find-read = λ fs name. refl;
  get-read = λ fs name. refl;
  has-read = λ fs name. refl;
  get_repeated-read = λ fs name. refl;
}

abbrev decoders : Decoders
decoders = record {
  parse_duration = λ s. none;
  parse_float = λ s. none;
  unmarshal_jobs = λ b. none;
  text = λ b. "";
}

result_factory-fetch_failed_example :
    result_factory listed decoders (fetch_failed "j1" "not found") [] ≡ err (missing "run-id")
result_factory-fetch_failed_example =
    result_factory-fetch_failed listed listed-IsReading decoders "j1" "not found" [] refl

result_factory-directory_failed_example :
    result_factory listed decoders (directory_failed "j1" "r1" "disk full") []
    ≡ ok (record {
      parent_job_id = "";
      job_id = "j1";
      run_id = "r1";
      kind = error;
      duration = negsuc 0;
      warnings = "";
      reason = "";
      exit_code = pos 0;
      jobs = [];
      payload = [];
    })
result_factory-directory_failed_example =
    result_factory-directory_failed listed listed-IsReading decoders "j1" "r1" "disk full" [] refl
      refl
