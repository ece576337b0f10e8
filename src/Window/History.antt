-- ===== src/Window/History.antt =====
-- What a window shows after any sequence of pushes, and what `Average` computes from it.
use mathlib.Core.List.{append_assoc, append-nil, foldl}
use native.Mathlib.Nat.{suc-add}
use workforce.Prelude.{
  ℕ, zero, suc, ◌+◌, ◌-◌, ◌≤◌, ◌≡◌, refl, ap, ap₂, sym, ◌∙◌, true, false, some, List, [], ◌∷◌, ◌++◌,
  arith, length, length-append, drop, ◌==◌, nat_eq, if◌then◌else◌, if_no,
}
use workforce.Window.{Window, new, push, each, sum_up, average}
use workforce.Window.Contents.{IsWindow, new-IsWindow, push-IsWindow, each-push, shown, length-each}

module _ {ℓ} {T : Type ℓ} where
  abbrev nil : List T
  nil = []

  -- The last `c` items of a list.
  abbrev pub recent : ℕ → List T → List T
  recent c xs = drop (length xs - c) xs

  length-drop : (n : ℕ) (xs : List T) → length (drop n xs) ≡ length xs - n
  length-drop zero xs = omega arith
  length-drop (suc n) [] = omega arith
  length-drop (suc n) (x ∷ xs) = omega (arith, length-drop n xs)

  drop-append : (n : ℕ) (xs ys : List T) → n ≤ length xs → drop n xs ++ ys ≡ drop n (xs ++ ys)
  drop-append zero xs ys h = refl
  drop-append (suc n) [] ys h = absurd (omega arith)
  drop-append (suc n) (x ∷ xs) ys h = drop-append n xs ys (omega arith)

  drop-nil : (n : ℕ) → drop n [] ≡ nil
  drop-nil zero = refl
  drop-nil (suc n) = refl

  drop-drop : (m n : ℕ) (xs : List T) → drop m (drop n xs) ≡ drop (n + m) xs
  drop-drop m zero xs = ap (λ k. drop k xs) (omega arith)
  drop-drop m (suc n) [] = drop-nil m ∙ sym (drop-nil (suc n + m))
  drop-drop m (suc n) (x ∷ xs) = drop-drop m n xs ∙ ap (λ k. drop k (x ∷ xs)) (sym (suc-add n m))

  recent-recent : (c : ℕ) (xs ys : List T) → recent c (recent c xs ++ ys) ≡ recent c (xs ++ ys)
  recent-recent c xs ys =
      let n = length xs - c in
      let joined : recent c xs ++ ys ≡ drop n (xs ++ ys) = drop-append n xs ys (omega arith) in
      let total = length-append xs ys in
      let left = length-drop n (xs ++ ys) in
      ap (recent c) joined
      ∙ drop-drop (length (drop n (xs ++ ys)) - c) n (xs ++ ys)
      ∙ ap (λ k. drop k (xs ++ ys)) (omega (arith, total, left))

  pub push_all : Window T → List T → Window T
  push_all w [] = w
  push_all w (v ∷ vs) = push_all (push v w) vs

  cap-push : (v : T) (w : Window T) → (push v w).cap ≡ w.cap
  unfolding push
  cap-push v w = refl

  push_all-IsWindow : (w : Window T) (vs : List T) → IsWindow w → IsWindow (push_all w vs)
  unfolding push_all
  push_all-IsWindow w [] h = h
  push_all-IsWindow w (v ∷ vs) h = push_all-IsWindow (push v w) vs (push-IsWindow v w h)

  shown-recent : (c : ℕ) (xs : List T) (v : T) → shown c xs v ≡ recent c (xs ++ v ∷ [])
  shown-recent c xs v =
      ap (λ n. drop (n - c) (xs ++ v ∷ [])) {x = length xs + 1}
        (omega (arith, length-append xs (v ∷ [])))

  each-push_all_from :
      (z : T) (w : Window T) (xs vs : List T)
      → IsWindow w
      → each z w ≡ recent w.cap xs
      → each z (push_all w vs) ≡ recent w.cap (xs ++ vs)
  unfolding push_all
  each-push_all_from z w xs [] h e = rw append-nil e
  each-push_all_from z w xs (v ∷ vs) h e =
      let one : each z (push v w) ≡ recent (push v w).cap (xs ++ v ∷ []) =
        each-push z v w h
        ∙ ap (λ ys. shown w.cap ys v) e
        ∙ shown-recent w.cap (recent w.cap xs) v
        ∙ recent-recent w.cap xs (v ∷ [])
        ∙ ap (λ c. recent c (xs ++ v ∷ [])) (sym (cap-push v w)) in
      each-push_all_from z (push v w) (xs ++ v ∷ []) vs (push-IsWindow v w h) one
      ∙ ap₂ recent (cap-push v w) (append_assoc xs (v ∷ []) vs)

  -- A window that `New` made visits, after any pushes, the last `cap` pushed items in the order in
  -- which they were pushed.
  pub each-push_all :
      (z : T) (c : ℕ) (vs : List T) {w : Window T}
      → new z c ≡ some w
      → each z (push_all w vs) ≡ recent c vs
  each-push_all z c vs {w} e =
      let (h, none_yet) = new-IsWindow z c e in
      each-push_all_from z w [] vs h (none_yet ∙ sym (drop-nil (0 - w.cap)))
      ∙ ap (λ n. recent n vs) (cap-new z c e)
    where
      cap-new : (z : T) (c : ℕ) {w : Window T} → new z c ≡ some w → w.cap ≡ c
      cap-new z zero e = absurd (unfold new in cc)
      cap-new z (suc c) e = unfold new in ground arith

  sum_up-foldl : (add : T → T → T) (x : T) (xs : List T) → sum_up add false x xs ≡ foldl add x xs
  unfolding sum_up
  sum_up-foldl add x [] = refl
  sum_up-foldl add x (y ∷ xs) = sum_up-foldl add (add x y) xs

  -- The zero value for no items, and else the items added up from the left, divided by how many
  -- they are.
  abbrev pub mean : T → (T → T → T) → (T → ℕ → T) → List T → T
  mean z add divide [] = z
  mean z add divide (x ∷ xs) = divide (foldl add x xs) (suc (length xs))

  mean_of :
      (z : T) (add : T → T → T) (divide : T → ℕ → T) (n : ℕ) (xs : List T)
      → length xs ≡ n
      → (if n == 0 then z else divide (sum_up add true z xs) n) ≡ mean z add divide xs
  mean_of z add divide zero [] e = refl
  mean_of z add divide zero (x ∷ xs) e = absurd (omega arith)
  mean_of z add divide (suc n) [] e = absurd (omega arith)
  mean_of z add divide (suc n) (x ∷ xs) e =
      if_no (suc n == 0) _ _ (ground arith)
      ∙ (unfold sum_up in ap₂ divide (sum_up-foldl add x xs) (sym e))

  -- `Average` is the mean of the items that `Each` visits, whatever zero value it starts from.
  pub average-eq-mean :
      (z : T) (add : T → T → T) (divide : T → ℕ → T) (w : Window T)
      → average z add divide w ≡ mean z add divide (each z w)
  unfolding average
  average-eq-mean z add divide w = mean_of z add divide w.count (each z w) (length-each z w)
