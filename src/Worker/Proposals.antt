-- ===== src/Worker/Proposals.antt =====
-- worker/handle_message.go, `handlePropose`: when a worker accepts, and what a rejection leaves.
use workforce.Prelude.{
  is_some, String, ◌≡◌, ◌≢◌, refl, ◌∙◌, Bool, true, false, not, ◌&&◌, ◌||◌, some, List, [], ◌∷◌,
  ◌++◌, arith, string_eq, eq_iff, length, ◌==◌, leb, if◌then◌else◌,
}
use workforce.Prelude.Int.{◌+ℤ◌, wrap64, ltb_ℤ, ◌≤ℤ◌}
use workforce.Prelude.Dict.{Dict, lookup, insert, lookup-insert}
use workforce.Contract.Worker.{online, worker_state_eq}
use workforce.Worker.{
  Floats, Worker, ProposeMessage, accept, reject, is_limited, is_pressed, check_deps, send, reserve,
  handle_propose,
}

-- The names that neither the cache holds nor the path has.
abbrev absent : (String → Bool) → Dict String (Unit {0}) → List String → List String
absent look_path cache [] = []
absent look_path cache (d ∷ ds) =
    if is_some (lookup d cache) || look_path d
    then absent look_path cache ds
    else d ∷ absent look_path cache ds

-- A confirmed name may be cached: it changes no answer.
absent-insert :
    (look_path : String → Bool) (cache : Dict String (Unit {0})) (k : String) (ds : List String)
    → look_path k ≡ true
    → absent look_path (insert k tt cache) ds ≡ absent look_path cache ds
absent-insert look_path cache k [] h = refl
absent-insert look_path cache k (d ∷ ds) h =
    ground (arith, absent-insert look_path cache k ds, lookup-insert k d tt cache, eq_iff k d)

module _ (F : Floats) where
  -- Whatever was cached before, the missing dependencies are those that neither the cache nor the
  -- path has, in order.
  pub check_deps-eq-absent :
      (look_path : String → Bool) (deps : List String) (cache : Dict String (Unit {0}))
      → (check_deps F look_path deps cache).0 ≡ absent look_path cache deps
  unfolding check_deps
  check_deps-eq-absent look_path [] cache = refl
  check_deps-eq-absent look_path (d ∷ deps) cache = ground (
    arith,
    check_deps-eq-absent look_path deps cache,
    check_deps-eq-absent look_path deps (insert d tt cache),
    absent-insert look_path cache d deps,
  )

  -- What `handlePropose` asks of a proposal.
  pub record IsAdmissible (look_path : String → Bool) (m : ProposeMessage) (w : Worker F)
      : Type 0 where
    pub is_online : w.state ≡ online
    pub is_calm : (is_limited F w && is_pressed F w) ≡ false
    pub deps : absent look_path w.dep_cache m.artifact_deps ≡ []
    pub room : wrap64 (w.used_cap +ℤ m.cost) ≤ℤ w.capacity

  -- Accepted: one line, and the cost and the proposal are noted.
  pub record IsAccepted (m : ProposeMessage) (w w' : Worker F) : Type 0 where
    pub sent : w'.sent ≡ w.sent ++ accept m.job_id ∷ []
    pub used_cap : w'.used_cap ≡ wrap64 (w.used_cap +ℤ m.cost)
    pub noted : lookup m.job_id w'.pending_jobs ≡ some m
    pub others : (j : String) → j ≢ m.job_id → lookup j w'.pending_jobs ≡ lookup j w.pending_jobs
    pub tasks : w'.tasks ≡ w.tasks

  -- Refused: one line with a reason, and nothing is noted.
  pub record IsRefused (m : ProposeMessage) (w w' : Worker F) : Type 0 where
    pub reason : String
    pub detail : List String
    pub sent : w'.sent ≡ w.sent ++ reject m.job_id reason detail ∷ []
    pub used_cap : w'.used_cap ≡ w.used_cap
    pub pending_jobs : w'.pending_jobs ≡ w.pending_jobs
    pub tasks : w'.tasks ≡ w.tasks

  -- A proposal is accepted if it is admissible.
  pub admissible-IsAccepted :
      (look_path : String → Bool) (m : ProposeMessage) (w : Worker F)
      → IsAdmissible look_path m w
      → IsAccepted m w (handle_propose F look_path m w)
  unfolding handle_propose reserve send
  admissible-IsAccepted look_path m w a =
      let none_missing = check_deps-eq-absent look_path m.artifact_deps w.dep_cache ∙ a.deps in
      record {
        sent = ground (arith, none_missing);
        used_cap = ground (arith, none_missing);
        noted = ground (
          arith,
          none_missing,
          lookup-insert m.job_id m.job_id m w.pending_jobs,
          eq_iff m.job_id m.job_id,
        );
        others = λ j h.
            ground
              (arith, none_missing, lookup-insert m.job_id j m w.pending_jobs, eq_iff m.job_id j);
        tasks = ground (arith, none_missing);
      }

  abbrev refusal : (String → Bool) → ProposeMessage → Worker F → String
  refusal look_path m w =
      if not (w.state == online)
      then "draining"
      else if is_limited F w && is_pressed F w
      then "pressure"
      else if leb 1 (length (absent look_path w.dep_cache m.artifact_deps))
      then "missing_deps"
      else "capacity"

  abbrev named : (String → Bool) → ProposeMessage → Worker F → List String
  named look_path m w =
      if not (w.state == online) || (is_limited F w && is_pressed F w)
      then []
      else absent look_path w.dep_cache m.artifact_deps

  empty_of_length : (xs : List String) → leb 1 (length xs) ≡ false → xs ≡ []
  empty_of_length [] h = refl
  empty_of_length (x ∷ xs) h = absurd (ground arith)

  -- A proposal that is not admissible is refused.
  pub inadmissible-IsRefused :
      (look_path : String → Bool) (m : ProposeMessage) (w : Worker F)
      → ¬ IsAdmissible look_path m w
      → IsRefused m w (handle_propose F look_path m w)
  unfolding handle_propose reserve send
  inadmissible-IsRefused look_path m w h =
      let same = check_deps-eq-absent look_path m.artifact_deps w.dep_cache in
      let admitted : (w.state == online) ≡ true
          → (is_limited F w && is_pressed F w) ≡ false
          → leb 1 (length (absent look_path w.dep_cache m.artifact_deps)) ≡ false
          → ltb_ℤ w.capacity (wrap64 (w.used_cap +ℤ m.cost)) ≡ false
          → ⊥ =
        λ a b c d. h (record {
          is_online = ground arith;
          is_calm = b;
          deps = empty_of_length _ c;
          room = ground arith;
        }) in
      record {
        reason = refusal look_path m w;
        detail = named look_path m w;
        sent = ground (arith, same, admitted);
        used_cap = ground (arith, same, admitted);
        pending_jobs = ground (arith, same, admitted);
        tasks = ground (arith, same, admitted);
      }
