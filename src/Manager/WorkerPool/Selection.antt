-- ===== src/Manager/WorkerPool/Selection.antt =====
-- manager/worker_selector.go, `LeastLoadedSelector`: which worker it chooses.
use workforce.Prelude.{
  ℕ, ◌≡◌, refl, ◌⊎◌, inl, inr, Bool, true, false, ◌&&◌, List, [], ◌∷◌, arith, ltb, if◌then◌else◌,
  nat_eq, Bool-cases, if_yes, if_no,
}
use workforce.Prelude.Int.{ℤ, ltb_ℤ, eqb_ℤ}
use workforce.Manager.WorkerConn.{SimpleSet, WorkerConn, available_capacity}
use workforce.Manager.WorkerPool.{better, least_loaded}

-- Room and idle time of two workers, compared as `Select` does.
abbrev pub ahead : ℤ → ℕ → ℤ → ℕ → Bool
ahead a s b t = if ltb_ℤ b a then true else eqb_ℤ a b && ltb s t

ahead_irrefl : (a : ℤ) (s : ℕ) → ahead a s a s ≡ false
ahead_irrefl a s = ground arith

ahead_asym : (a b : ℤ) (s t : ℕ) → ahead a s b t ≡ true → ahead b t a s ≡ false
ahead_asym a b s t h = ground arith

ahead_trans :
    (a b c : ℤ) (s t u : ℕ) → ahead a s b t ≡ false → ahead b t c u ≡ false → ahead a s c u ≡ false
ahead_trans a b c s t u h k = ground arith

module _ (S : SimpleSet) where
  -- No worker of a list is better than `best`.
  abbrev pub NoneBetter : WorkerConn S → List (WorkerConn S) → Type 0
  NoneBetter best [] = Unit {0}
  NoneBetter best (w ∷ ws) = (better S w best ≡ false) × NoneBetter best ws

  -- A worker is one of a list.
  abbrev pub IsOneOf : WorkerConn S → List (WorkerConn S) → Type 0
  IsOneOf best [] = ⊥
  IsOneOf best (w ∷ ws) = (best ≡ w) ⊎ IsOneOf best ws

  better_irrefl : (w : WorkerConn S) → better S w w ≡ false
  unfolding better
  better_irrefl w = ahead_irrefl (available_capacity S w) w.last_idle_at

  better_asym : (v w : WorkerConn S) → better S v w ≡ true → better S w v ≡ false
  unfolding better
  better_asym v w h =
      ahead_asym (available_capacity S v) (available_capacity S w) v.last_idle_at w.last_idle_at h

  better_trans :
      (u v w : WorkerConn S) → better S u v ≡ false → better S v w ≡ false → better S u w ≡ false
  unfolding better
  better_trans u v w h k =
      ahead_trans (available_capacity S u) (available_capacity S v) (available_capacity S w)
        u.last_idle_at v.last_idle_at w.last_idle_at h k

  least_loaded-alone : (first : WorkerConn S) → least_loaded S first [] ≡ first
  unfolding least_loaded
  least_loaded-alone first = refl

  least_loaded-cons :
      (first w : WorkerConn S) (ws : List (WorkerConn S))
      → least_loaded S first (w ∷ ws) ≡ least_loaded S (if better S w first then w else first) ws
  unfolding least_loaded
  least_loaded-cons first w ws = refl

  -- One of the workers, and none of them better.
  pub record IsBest (best : WorkerConn S) (ws : List (WorkerConn S)) : Type 0 where
    pub is_one : IsOneOf best ws
    pub none_better : NoneBetter best ws

  -- A better second worker takes the place of the first.
  take_second :
      (best first w : WorkerConn S) (ws : List (WorkerConn S))
      → better S w first ≡ true
      → IsBest best (w ∷ ws)
      → IsBest best (first ∷ w ∷ ws)
  take_second best first w ws e h = record {
    is_one = inr h.is_one;
    none_better =
        (better_trans first w best (better_asym w first e) h.none_better.0, h.none_better);
  }

  -- A second worker that is not better is passed over.
  pass_second :
      (best first w : WorkerConn S) (ws : List (WorkerConn S))
      → better S w first ≡ false
      → IsBest best (first ∷ ws)
      → IsBest best (first ∷ w ∷ ws)
  pass_second best first w ws e h = record {
    is_one = elim h.is_one [ inl here ↦ inl here | inr there ↦ inr (inr there) ];
    none_better = (h.none_better.0, (better_trans w first best e h.none_better.0, h.none_better.1));
  }

  -- The least loaded of some workers is one of them, and none of them has more room, or as much
  -- and has been idle for longer.
  pub least_loaded-IsBest :
      (first : WorkerConn S) (ws : List (WorkerConn S))
      → IsBest (least_loaded S first ws) (first ∷ ws)
  least_loaded-IsBest first [] =
      rw (least_loaded-alone first)
        (record { is_one = inl refl; none_better = (better_irrefl first, tt) })
  least_loaded-IsBest first (w ∷ ws) = elim (Bool-cases (better S w first)) [
    | inl e ↦
        rw (least_loaded-cons first w ws, if_yes (better S w first) w first e)
          (take_second (least_loaded S w ws) first w ws e (least_loaded-IsBest w ws))
    | inr e ↦
        rw (least_loaded-cons first w ws, if_no (better S w first) w first e)
          (pass_second (least_loaded S first ws) first w ws e (least_loaded-IsBest first ws))
  ]
