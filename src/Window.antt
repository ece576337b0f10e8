-- ===== src/Window.antt =====
-- The sliding window of samples (worker/window/window.go). `MuWindow` (worker/window/mu_window.go)
-- calls these functions under a lock.
pub mod Contents
pub mod History
mod Tests
use workforce.Prelude.{
  ℕ, zero, suc, ◌+◌, ◌-◌, ◌%◌, Option, none, some, List, [], ◌∷◌, ◌++◌, ◌==◌, nat_eq, ltb, get_or,
  set, replicate, if◌then◌else◌, Bool, true, false,
}

pub record Window {ℓ} (T : Type ℓ) : Type ℓ where
  pub samples : List T
  pub cap : ℕ
  pub head : ℕ
  pub count : ℕ

module _ {ℓ} {T : Type ℓ} where
  -- `none` is the panic; `zero` is T's zero value. A negative capacity panics too.
  pub new : T → ℕ → Option (Window T)
  new z zero = none
  new z (suc c) = some (record { samples = replicate (suc c) z; cap = suc c; head = 0; count = 0 })

  -- Indices are below `cap`, so `(head + 1) % cap` does not overflow.
  pub push : T → Window T → Window T
  push v w = record w {
    samples = set w.samples w.head v;
    head = (w.head + 1) % w.cap;
    count = if ltb w.count w.cap then w.count + 1 else w.count;
  }

  abbrev pub start : Window T → ℕ
  start w = if w.count == w.cap then w.head else 0

  -- The rounds of `Each` from `i` on, `n` of them: what `fn` is called with.
  pub each_from : T → Window T → ℕ → ℕ → List T
  each_from z w zero i = []
  each_from z w (suc n) i = get_or w.samples ((start w + i) % w.cap) z ∷ each_from z w n (i + 1)

  pub each : T → Window T → List T
  each z w = each_from z w w.count 0

  -- The callback of `Average`: the first element stands alone, the others are added to it.
  pub sum_up : (T → T → T) → Bool → T → List T → T
  sum_up add is_first result [] = result
  sum_up add is_first result (v ∷ vs) = sum_up add false (if is_first then v else add result v) vs

  pub average : T → (T → T → T) → (T → ℕ → T) → Window T → T
  average z add divide w = if w.count == 0 then z else divide (sum_up add true z (each z w)) w.count
