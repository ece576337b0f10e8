-- ===== src/Locksmith/Quarantine.antt =====
-- manager/locksmith/cache.go, `QuarantineEvict`: whether its loop ends.
use workforce.Prelude.{
  suc, ◌+◌, ◌≤◌, ◌<◌, ◌≡◌, refl, ap, ◌∙◌, none, some, List, [], ◌∷◌, arith, length, Eq, ltb, if_no,
  if_yes, ◌⊎◌, inl, inr,
}
use workforce.Prelude.Dict.{delete, lookup-delete}
use workforce.Contract.Job.{Time}
use workforce.Locksmith.{Cache, back, drop_back, quarantined_at, quarantine_round, quarantine_evict}

abbrev All {ℓ κ} : {A : Type ℓ} → (A → Type κ) → List A → Type κ
All P [] = Unit
All P (x ∷ xs) = P x × All P xs

length-drop_back : {A : Type 0} (x : A) (xs : List A) → length (drop_back (x ∷ xs)) ≡ length xs
unfolding drop_back
length-drop_back x [] = refl
length-drop_back x (y ∷ xs) = ap suc (length-drop_back y xs)

has_back : {A : Type 0} (x : A) (xs : List A) → (a : A) × (back (x ∷ xs) ≡ some a)
unfolding back
has_back x [] = (x, refl)
has_back x (y ∷ xs) = has_back y xs

back_nil : {A : Type 0} {xs : List A} → xs ≡ [] → back xs ≡ none
unfolding back
back_nil e = rw e

empty : {A : Type 0} (xs : List A) → length xs ≤ 0 → xs ≡ []
empty [] h = refl
empty (x ∷ xs) h = absurd (omega arith)

List-cases : {A : Type 0} (xs : List A) → (xs ≡ []) ⊎ ((k : A) × (ks : List A) × (xs ≡ k ∷ ks))
List-cases [] = inl refl
List-cases (k ∷ ks) = inr (k, ks, refl)

module _ {K V : Type 0} ⦃eq : Eq K⦄ where
  -- While the oldest quarantine has not passed at any reading of the clock, the loop runs through
  -- all its readings and does not end.
  pub quarantine_evict-spins :
      (clock : List Time) (key : K) (c : Cache K V)
      → back c.quarantine_list ≡ some key
      → All (λ t. t ≤ quarantined_at key c + c.quarantine_ttl) clock
      → quarantine_evict clock c ≡ none
  unfolding quarantine_evict
  quarantine_evict-spins [] key c h a = rw (h, quarantine_evict)
  quarantine_evict-spins (now ∷ clock) key c h a =
      let same : quarantine_round now key c ≡ c =
        unfold quarantine_round in
        if_no (ltb (quarantined_at key c + c.quarantine_ttl) now) _ _ (ground arith) in
      rw (h, quarantine_evict) (rw same (quarantine_evict-spins clock key c h a.1))

  -- Every quarantine of the cache has passed at `t`.
  abbrev HavePassed : Cache K V → Time → Type 0
  HavePassed c t = (key : K) → quarantined_at key c + c.quarantine_ttl < t

  released : Time → K → Cache K V → Cache K V
  released now key c = record c {
    quarantine_list = drop_back c.quarantine_list;
    cache = delete key c.cache;
    quarantine = delete key c.quarantine;
  }

  released-HavePassed :
      (now t : Time) (key : K) (c : Cache K V) → HavePassed c t → HavePassed (released now key c) t
  unfolding released
  released-HavePassed now t key c h j = ground (arith, h j, lookup-delete key j c.quarantine)

  All-released-HavePassed :
      (now : Time) (key : K) (c : Cache K V) (clock : List Time)
      → All (HavePassed c) clock
      → All (HavePassed (released now key c)) clock
  All-released-HavePassed now key c [] a = tt
  All-released-HavePassed now key c (t ∷ clock) a =
      (released-HavePassed now t key c a.0, All-released-HavePassed now key c clock a.1)

  released_round :
      (now : Time) (key : K) (c : Cache K V)
      → quarantined_at key c + c.quarantine_ttl < now
      → quarantine_round now key c ≡ released now key c
  unfolding quarantine_round released
  released_round now key c h =
      if_yes (ltb (quarantined_at key c + c.quarantine_ttl) now) _ _ (ground arith)

  -- When every quarantine has passed at every reading, as many rounds as there are quarantined keys
  -- end the loop, with none left.
  pub quarantine_evict-ends :
      (clock : List Time) (c : Cache K V)
      → length c.quarantine_list ≤ length clock
      → All (HavePassed c) clock
      → (c' : Cache K V) × (quarantine_evict clock c ≡ some c') × (c'.quarantine_list ≡ [])
  unfolding quarantine_evict
  quarantine_evict-ends [] c le a =
      let e : c.quarantine_list ≡ [] = empty c.quarantine_list le in
      (c, rw (back_nil e, quarantine_evict), e)
  quarantine_evict-ends (now ∷ clock) c le a = elim (List-cases c.quarantine_list) [
    | inl e ↦ (c, rw (back_nil e, quarantine_evict), e)
    | inr (k, ks, e) ↦
        let (key, h) = has_back k ks in
        let last : back c.quarantine_list ≡ some key = ap back e ∙ h in
        let shorter : length (drop_back c.quarantine_list) ≤ length clock =
          omega (arith, ap (λ xs. length (drop_back xs)) e, length-drop_back k ks, ap length e) in
        let rest =
          quarantine_evict-ends clock (released now key c) (unfold released in shorter)
            (All-released-HavePassed now key c clock a.1) in
        rw (last, quarantine_evict) (rw (released_round now key c (a.0 key)) rest)
  ]
