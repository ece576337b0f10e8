-- ===== src/Window/Tests.antt =====
-- worker/window/window.go on a window of three samples.
use workforce.Prelude.{ℕ, ◌+◌, ◌/◌, ◌≡◌, refl, some, [], ◌∷◌, arith}
use workforce.Window.{Window, new, push, each, each_from, average, sum_up}
use workforce.Window.Contents.{IsWindow, each-push, push-IsWindow}
use workforce.Window.History.{push_all, each-push_all, average-eq-mean}

abbrev full : Window ℕ
full = record { samples = 4 ∷ 2 ∷ 3 ∷ []; cap = 3; head = 1; count = 3 }

full-IsWindow : IsWindow full
full-IsWindow = record {
  size = refl;
  nonempty = ground arith;
  head = ground arith;
  count = ground arith;
  growing = λ h. absurd (omega (arith, h));
}

each-push_example : each 0 (push 5 full) ≡ 3 ∷ 4 ∷ 5 ∷ []
unfolding each each_from
each-push_example = each-push 0 5 full full-IsWindow

push-IsWindow_example : IsWindow (push 5 full)
push-IsWindow_example = push-IsWindow 5 full full-IsWindow

new_three :
    new {T = ℕ} 0 3 ≡ some (record { samples = 0 ∷ 0 ∷ 0 ∷ []; cap = 3; head = 0; count = 0 })
unfolding new
new_three = refl

each-push_all_example :
    each {T = ℕ} 0 (
      push_all
        (record { samples = 0 ∷ 0 ∷ 0 ∷ []; cap = 3; head = 0; count = 0 })
        (1 ∷ 2 ∷ 3 ∷ 4 ∷ []))
    ≡ 2 ∷ 3 ∷ 4 ∷ []
each-push_all_example = each-push_all 0 3 (1 ∷ 2 ∷ 3 ∷ 4 ∷ []) new_three

average-eq-mean_example : average 0 (λ a b. a + b) (λ a n. a / n) full ≡ 3
unfolding each each_from
average-eq-mean_example = average-eq-mean 0 (λ a b. a + b) (λ a n. a / n) full

average_three : average 0 (λ a b. a + b) (λ a n. a / n) full ≡ 3
unfolding average each each_from sum_up
average_three = refl
