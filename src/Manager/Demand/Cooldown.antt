-- ===== src/Manager/Demand/Cooldown.antt =====
-- manager/dispatcher.go, `checkResourceShortage`: how far apart its events are, and what they report.
use workforce.Prelude.{
  ◌≡◌, refl, Bool, true, false, not, ◌||◌, Option, none, some, List, [], ◌∷◌, if◌then◌else◌,
  string_eq, nat_eq,
}
use workforce.Prelude.Int.{ltb_ℤ}
use workforce.Contract.Job.{Time}
use workforce.Manager.Config.{Config}
use workforce.Manager.Server.{Outside, Server}
use workforce.Manager.WorkerConn.{SimpleSet}
use workforce.Manager.Demand.{
  ResourceShortageEvent, check_resource_shortage, cools_down, event_of, shortage,
}

module _ (S : SimpleSet) (O : Outside) (c : Config) where
  -- The events of some checks with their times, each of the server as it was then.
  abbrev noted :
      Option ResourceShortageEvent
      → Time
      → List (Time × ResourceShortageEvent)
      → List (Time × ResourceShortageEvent)
  noted none now rest = rest
  noted (some e) now rest = (now, e) ∷ rest

  pub events_of : List (Time × Server S O) → Time → List (Time × ResourceShortageEvent)
  events_of [] last = []
  events_of ((now, s) ∷ checks) last =
      let (e, (last', s')) = check_resource_shortage S O c now last s in
      noted e now (events_of checks last')

  -- Each is of a demand above the capacity, and the first or the cooldown after the one before.
  abbrev pub AreSpaced : Time → List (Time × ResourceShortageEvent) → Type 0
  AreSpaced last [] = Unit {0}
  AreSpaced last ((now, e) ∷ events) =
      (cools_down S O c now last ≡ false)
      × (ltb_ℤ e.cluster_capacity e.pending_cost ≡ true)
      × AreSpaced now events

  -- A check has an event, which is due and whose demand exceeds the capacity, or changes nothing.
  pub data Checked (now last : Time) (s : Server S O)
      (o : Option ResourceShortageEvent × (Time × Server S O)) : Type 0 where
    quiet : o ≡ (none, (last, s)) → Checked now last s o
    event :
        (e : ResourceShortageEvent) (s' : Server S O)
        → o ≡ (some e, (now, s'))
        → cools_down S O c now last ≡ false
        → ltb_ℤ e.cluster_capacity e.pending_cost ≡ true
        → Checked now last s o

  branch-Checked :
      (watched cooling short : Bool) (now last : Time) (s : Server S O) (e : ResourceShortageEvent)
      (s' : Server S O)
      → cools_down S O c now last ≡ cooling
      → ltb_ℤ e.cluster_capacity e.pending_cost ≡ short
      → Checked now last s (
          if not watched || cooling
          then (none, (last, s))
          else if not short
          then (none, (last, s))
          else (some e, (now, s')))
  branch-Checked false cooling short now last s e s' f g = quiet refl
  branch-Checked true true short now last s e s' f g = quiet refl
  branch-Checked true false false now last s e s' f g = quiet refl
  branch-Checked true false true now last s e s' f g = event e s' refl f g

  check-Checked :
      (now last : Time) (s : Server S O)
      → Checked now last s (check_resource_shortage S O c now last s)
  unfolding check_resource_shortage
  check-Checked now last s =
      branch-Checked c.has_resource_shortage _ _ now last s (event_of S O c now s)
        (record s { pool = (shortage S O c now s).1 }) refl refl

  -- However the server changes between the checks, each event is of a demand that exceeds the
  -- capacity, and never sooner than the cooldown after the event before.
  pub events_of-AreSpaced :
      (checks : List (Time × Server S O)) (last : Time) → AreSpaced last (events_of checks last)
  unfolding events_of
  events_of-AreSpaced [] last = tt
  events_of-AreSpaced ((now, s) ∷ checks) last = elim (check-Checked now last s) [
    | quiet h ↦ rw h (events_of-AreSpaced checks last)
    | event e s' h f g ↦ rw h (f, g, events_of-AreSpaced checks now)
  ]
