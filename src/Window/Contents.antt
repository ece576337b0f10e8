-- ===== src/Window/Contents.antt =====
-- worker/window/window.go: the fields of a window, and what it shows after a push.
use workforce.Prelude.{
  false, ℕ, zero, suc, ◌+◌, ◌-◌, ◌%◌, ◌≤◌, ◌<◌, ◌≡◌, refl, ap, ap₂, sym, ◌∙◌, some, List, [], ◌∷◌,
  ◌++◌, arith, length, length-set, length-replicate, drop, get_or, set, ltb, ◌==◌, nat_eq,
  if◌then◌else◌, Bool-cases, if_yes, if_no, inl, inr,
}
use native.Mathlib.Nat.{zero-add, mod-eq-sub-mod, mod-eq_of_lt, mod_self, mod-lt}
use workforce.Window.{Window, new, push, start, each_from, each}

abbrev tabulate {ℓ} : {T : Type ℓ} → (ℕ → T) → ℕ → ℕ → List T
tabulate f zero i = []
tabulate f (suc n) i = f i ∷ tabulate f n (i + 1)

tabulate_ext {ℓ} :
    {T : Type ℓ} (f g : ℕ → T) (n i : ℕ)
    → ((k : ℕ) → i ≤ k → k < i + n → f k ≡ g k)
    → tabulate f n i ≡ tabulate g n i
tabulate_ext f g zero i h = refl
tabulate_ext f g (suc n) i h =
    ap₂ ◌∷◌ (h i (omega arith) (omega arith))
      (tabulate_ext f g n (i + 1) λ k p q. h k (omega arith) (omega arith))

tabulate_snoc {ℓ} :
    {T : Type ℓ} (f : ℕ → T) (n i : ℕ) → tabulate f (suc n) i ≡ tabulate f n i ++ f (i + n) ∷ []
tabulate_snoc f zero i = ap (λ k. f k ∷ []) (omega arith)
tabulate_snoc f (suc n) i =
    ap (◌∷◌ (f i))
      (tabulate_snoc f n (i + 1) ∙ ap (λ k. tabulate f n (i + 1) ++ f k ∷ []) (omega arith))

tabulate_shift {ℓ} :
    {T : Type ℓ} (f : ℕ → T) (n i : ℕ) → tabulate (λ k. f (k + 1)) n i ≡ tabulate f n (i + 1)
tabulate_shift f zero i = refl
tabulate_shift f (suc n) i = ap (◌∷◌ (f (i + 1))) (tabulate_shift f n (i + 1))

length-tabulate {ℓ} : {T : Type ℓ} (f : ℕ → T) (n i : ℕ) → length (tabulate f n i) ≡ n
length-tabulate f zero i = refl
length-tabulate f (suc n) i = ap suc (length-tabulate f n (i + 1))

get_or-set {ℓ} :
    {T : Type ℓ} (xs : List T) (i j : ℕ) (v z : T)
    → i < length xs
    → get_or (set xs i v) j z ≡ (if i == j then v else get_or xs j z)
get_or-set [] i j v z h = absurd (omega arith)
get_or-set (x ∷ xs) zero zero v z h = refl
get_or-set (x ∷ xs) zero (suc j) v z h = ground arith
get_or-set (x ∷ xs) (suc i) zero v z h = ground arith
get_or-set (x ∷ xs) (suc i) (suc j) v z h = ground (arith, get_or-set xs i j v z)

next_index : (h c : ℕ) → h < c → (h + 1) % c ≡ (if h + 1 == c then 0 else h + 1)
next_index h c p = elim (Bool-cases (h + 1 == c)) [
  | inl e ↦ let same : h + 1 ≡ c = ground arith in rw (e, same) (mod_self c)
  | inr e ↦ rw e (mod-eq_of_lt (ground arith))
]

-- An index that passes the end at most once.
mod_once : (n c : ℕ) → 0 < c → n < c + c → n % c ≡ (if ltb n c then n else n - c)
mod_once n c p h = elim (Bool-cases (ltb n c)) [
  | inl e ↦ rw e (mod-eq_of_lt (ground arith))
  | inr e ↦ let le : c ≤ n = ground arith in rw e (mod-eq-sub-mod le ∙ mod-eq_of_lt (omega arith))
]

-- Behind the head, the item `k` places on is one further on from the head, and it is the one that
-- was just written for the last `k`.
full_index :
    (h c k : ℕ)
    → h < c
    → k < c
    → (((h + 1) % c + k) % c ≡ (h + (k + 1)) % c) × ((h == ((h + 1) % c + k) % c) ≡ (k + 1 == c))
full_index h c k p q =
    let next = next_index h c p in
    let first : (h + 1) % c ≤ h + 1 = ground (arith, next) in
    let below : (h + 1) % c < c = mod-lt (h + 1) (omega arith) in
    let one = mod_once ((h + 1) % c + k) c (omega arith) (omega arith) in
    let two = mod_once (h + (k + 1)) c (omega arith) (omega arith) in
    (ground (arith, next, one, two), ground (arith, next, one))

module _ {ℓ} {T : Type ℓ} where
  -- The fields of a window that `New` made and `Push` filled.
  pub record IsWindow (w : Window T) : Type 0 where
    pub size : length w.samples ≡ w.cap
    pub nonempty : 0 < w.cap
    pub head : w.head < w.cap
    pub count : w.count ≤ w.cap
    pub growing : w.count < w.cap → w.head ≡ w.count

  abbrev sample : T → Window T → ℕ → T
  sample z w k = get_or w.samples ((start w + k) % w.cap) z

  each_from-tabulate :
      (z : T) (w : Window T) (n i : ℕ) → each_from z w n i ≡ tabulate (sample z w) n i
  unfolding each_from
  each_from-tabulate z w zero i = refl
  each_from-tabulate z w (suc n) i = ap (◌∷◌ (sample z w i)) (each_from-tabulate z w n (i + 1))

  -- A new window is well formed and empty.
  pub new-IsWindow :
      (z : T) (c : ℕ) {w : Window T} → new z c ≡ some w → IsWindow w × (each z w ≡ [])
  unfolding new each each_from
  new-IsWindow z zero e = absurd (cc)
  new-IsWindow z (suc c) e = ground (arith, length-replicate c z)

  -- A push keeps it well formed.
  pub push-IsWindow : (v : T) (w : Window T) → IsWindow w → IsWindow (push v w)
  unfolding push
  push-IsWindow v w h =
      ground (arith, length-set w.samples w.head v, next_index w.head w.cap h.head)

  -- What a window shows after a push: the items it showed and the new one, less the oldest when
  -- it was full.
  abbrev pub shown : ℕ → List T → T → List T
  shown cap xs v = drop (length xs + 1 - cap) (xs ++ v ∷ [])

  sample-push :
      (z v : T) (w : Window T) (k : ℕ)
      → IsWindow w
      → sample z (push v w) k ≡ (
          if w.head == (start (push v w) + k) % w.cap
          then v
          else get_or w.samples ((start (push v w) + k) % w.cap) z)
  unfolding push
  sample-push z v w k h =
      get_or-set w.samples w.head ((start (push v w) + k) % w.cap) v z
        (omega (arith, h.head, h.size))

  start_growing : (w : Window T) → w.count < w.cap → start w ≡ 0
  start_growing w room = ground arith

  start-push_growing : (v : T) (w : Window T) → IsWindow w → w.count < w.cap → start (push v w) ≡ 0
  unfolding push
  start-push_growing v w h room = ground (arith, next_index w.head w.cap h.head, h.growing room)

  start_full : (w : Window T) → w.count ≡ w.cap → start w ≡ w.head
  start_full w full = ground arith

  start-push_full :
      (v : T) (w : Window T) → w.count ≡ w.cap → start (push v w) ≡ (w.head + 1) % w.cap
  unfolding push
  start-push_full v w full = ground arith

  growing_sample :
      (z v : T) (w : Window T) (k : ℕ)
      → IsWindow w
      → w.count < w.cap
      → k ≤ w.count
      → sample z (push v w) k ≡ (if w.count == k then v else sample z w k)
  growing_sample z v w k h room le =
      let first : start (push v w) ≡ 0 = start-push_growing v w h room in
      let now : (start (push v w) + k) % w.cap ≡ k =
        rw (first, zero-add) (mod-eq_of_lt (omega arith)) in
      let before : (start w + k) % w.cap ≡ k =
        rw (start_growing w room, zero-add) (mod-eq_of_lt (omega arith)) in
      sample-push z v w k h ∙ rw (now, before, h.growing room)

  full_sample :
      (z v : T) (w : Window T) (k : ℕ)
      → IsWindow w
      → w.count ≡ w.cap
      → k < w.cap
      → sample z (push v w) k ≡ (if k + 1 == w.cap then v else sample z w (k + 1))
  full_sample z v w k h full lt =
      let (spot, hit) = full_index w.head w.cap k h.head lt in
      sample-push z v w k h ∙ rw (start-push_full v w full, hit, spot, start_full w full)

  growing_shown :
      (z v : T) (w : Window T)
      → IsWindow w
      → w.count < w.cap
      → each z (push v w) ≡ shown w.cap (each z w) v
  unfolding each
  growing_shown z v w h room =
      let more : (push v w).count ≡ suc w.count = unfold push in ground arith in
      let old = each_from-tabulate z w w.count 0 in
      let kept : tabulate (sample z (push v w)) w.count 0 ≡ tabulate (sample z w) w.count 0 =
        tabulate_ext (sample z (push v w)) (sample z w) w.count 0 λ k p q.
          growing_sample z v w k h room (omega arith) ∙ if_no (w.count == k) _ _ (ground arith) in
      let last : sample z (push v w) (0 + w.count) ≡ v =
        ap (sample z (push v w)) (zero-add w.count)
        ∙ growing_sample z v w w.count h room (omega arith)
        ∙ if_yes (w.count == w.count) _ _ (ground arith) in
      let whole : each_from z (push v w) (push v w).count 0 ≡ each_from z w w.count 0 ++ v ∷ [] =
        ap (λ n. each_from z (push v w) n 0) more
        ∙ each_from-tabulate z (push v w) (suc w.count) 0
        ∙ tabulate_snoc (sample z (push v w)) w.count 0
        ∙ ap₂ (λ xs x. xs ++ x ∷ []) kept last
        ∙ ap (λ xs. xs ++ v ∷ []) (sym old) in
      let none_lost : length (each_from z w w.count 0) + 1 - w.cap ≡ 0 =
        omega (arith, ap length old, length-tabulate (sample z w) w.count 0) in
      rw none_lost whole

  full_list :
      (z v : T) (w : Window T) (c : ℕ)
      → IsWindow w
      → w.count ≡ w.cap
      → w.cap ≡ suc c
      → each z (push v w) ≡ shown w.cap (each z w) v
  unfolding each
  full_list z v w c h full size =
      let same : (push v w).count ≡ suc c = unfold push in ground arith in
      let old : each_from z w w.count 0 ≡ tabulate (sample z w) (suc c) 0 =
        ap (λ n. each_from z w n 0) (full ∙ size) ∙ each_from-tabulate z w (suc c) 0 in
      let kept : tabulate (sample z (push v w)) c 0 ≡ tabulate (sample z w) c (0 + 1) =
        tabulate_ext (sample z (push v w)) (λ k. sample z w (k + 1)) c 0
          (λ k p q.
            full_sample z v w k h full (omega arith) ∙ if_no (k + 1 == w.cap) _ _ (ground arith))
        ∙ tabulate_shift (sample z w) c 0 in
      let last : sample z (push v w) (0 + c) ≡ v =
        ap (sample z (push v w)) (zero-add c)
        ∙ full_sample z v w c h full (omega arith)
        ∙ if_yes (c + 1 == w.cap) _ _ (ground arith) in
      let whole : each_from z (push v w) (push v w).count 0
          ≡ tabulate (sample z w) c (0 + 1) ++ v ∷ [] =
        ap (λ n. each_from z (push v w) n 0) same
        ∙ each_from-tabulate z (push v w) (suc c) 0
        ∙ tabulate_snoc (sample z (push v w)) c 0
        ∙ ap₂ (λ xs x. xs ++ x ∷ []) kept last in
      let one_lost : length (tabulate (sample z w) (suc c) 0) + 1 - w.cap ≡ 1 =
        omega (arith, length-tabulate (sample z w) (suc c) 0) in
      rw (old, one_lost) whole

  full_shown :
      (z v : T) (w : Window T)
      → IsWindow w
      → w.count ≡ w.cap
      → each z (push v w) ≡ shown w.cap (each z w) v
  unfolding each
  full_shown z v w h full = full_list z v w (w.cap - 1) h full (omega (arith, h.nonempty))

  -- After a push, `Each` visits what it visited before and then the new item, without the oldest
  -- item if the window was full.
  pub each-push :
      (z v : T) (w : Window T) → IsWindow w → each z (push v w) ≡ shown w.cap (each z w) v
  each-push z v w h = elim (Bool-cases (w.count == w.cap)) [
    | inl full ↦ full_shown z v w h (ground arith)
    | inr room ↦ growing_shown z v w h (below w.count w.cap h.count room)
  ]
    where
      below : (n c : ℕ) → n ≤ c → (n == c) ≡ false → n < c
      below n c p q = ground arith

  pub length-each : (z : T) (w : Window T) → length (each z w) ≡ w.count
  unfolding each
  length-each z w =
      ap length (each_from-tabulate z w w.count 0) ∙ length-tabulate (sample z w) w.count 0
