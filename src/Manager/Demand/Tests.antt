-- ===== src/Manager/Demand/Tests.antt =====
-- manager/dispatcher.go: checks of a server with one job and no worker that is connected.
use workforce.Prelude.{List, [], ◌∷◌, true}
use workforce.Prelude.Int.{pos}
use workforce.Contract.Job.{zero_job, Time}
use workforce.Manager.Config.{Config}
use workforce.Manager.Queue.{new_priority_queue, push_item, job_outranks}
use workforce.Manager.Samples.{sets, outside, config, server}
use workforce.Manager.Server.{Server}
use workforce.Manager.Demand.Cooldown.{AreSpaced, events_of, events_of-AreSpaced}

abbrev watched : Config
watched = record config { has_resource_shortage = true }

abbrev busy : Server sets outside
busy = record server {
  queue =
      (push_item job_outranks (record zero_job { id = "j"; cost = pos 500 }) new_priority_queue).1;
}

abbrev checks : List (Time × Server sets outside)
checks = (50, busy) ∷ (60, busy) ∷ (90, busy) ∷ []

events_of-AreSpaced_example :
    AreSpaced sets outside watched 0 (events_of sets outside watched checks 0)
events_of-AreSpaced_example = events_of-AreSpaced sets outside watched checks 0
