-- ===== src/Locksmith/Expiry.antt =====
-- manager/locksmith/cache.go: what `Get` finds after a `Put`, and for how long.
use workforce.Prelude.{
  true, Option-cases, ℕ, ◌+◌, ◌≤◌, ◌<◌, ◌≡◌, refl, ap, ◌∙◌, none, some, List, [], ◌∷◌, arith, Eq,
  ◌==◌, nat_eq, ltb, if◌then◌else◌, if_yes, if_no, Bool-cases, inl, inr,
}
use workforce.Prelude.Dict.{lookup, lookup-insert}
use workforce.Contract.Job.{Time}
use workforce.Locksmith.{
  quarantine_item, Entry, Cache, find, move_to_front, update, evict, make_room, fresh, add, put,
  read, get,
}

module _ {K V : Type 0} where
  find_elem : (i : ℕ) (es : List (Entry K V)) (e : Entry K V) → find i es ≡ some e → e.elem ≡ i
  unfolding find
  find_elem i [] e h = absurd (cc)
  find_elem i (d ∷ es) e h = ground (arith, find_elem i es e)

  pub find-move_to_front :
      (i : ℕ) (es : List (Entry K V)) (e : Entry K V)
      → find i es ≡ some e
      → find i (move_to_front i es) ≡ some e
  unfolding move_to_front
  find-move_to_front i es e h =
      rw (h, move_to_front) (unfold find in ground (arith, find_elem i es e h))

  pub find-update :
      (i : ℕ) (f : Entry K V → Entry K V) (es : List (Entry K V)) (e : Entry K V)
      → (f e).elem ≡ e.elem
      → find i es ≡ some e
      → find i (update i f es) ≡ some (f e)
  unfolding find update
  find-update i f [] e k h = absurd (cc)
  find-update i f (d ∷ es) e k h = elim (Bool-cases (d.elem == i)) [
    | inl t ↦
        let same : d ≡ e = ground arith in rw (t, same) (ground (arith, find_elem i (d ∷ es) e h))
    | inr t ↦ rw t (rw t (find-update i f es e k (rw t at h)))
  ]

module _ {K V : Type 0} ⦃eq : Eq K⦄ where
  -- The element that the map holds for `key`, and the entry in it.
  pub record Holds (key : K) (e : Entry K V) (c : Cache K V) : Type 0 where
    pub elem : lookup key c.cache ≡ some e.elem
    pub entry : find e.elem c.lru_list ≡ some e

  get_read :
      (now : Time) (key : K) (i : ℕ) (e : Entry K V) (c : Cache K V)
      → lookup key c.cache ≡ some i
      → find i c.lru_list ≡ some e
      → (get now key c).0 ≡ (if ltb e.expiry now then none else some e.value)
  unfolding get read
  get_read now key i e c h t = rw (h, get) (rw (t, get) (ground arith))

  get_held :
      (now : Time) (key : K) (e : Entry K V) (c : Cache K V)
      → Holds key e c
      → (get now key c).0 ≡ (if ltb e.expiry now then none else some e.value)
  get_held now key e c h = get_read now key e.elem e c h.elem h.entry

  put_held :
      (now : Time) (key : K) (v : V) (e : Entry K V) (c : Cache K V)
      → Holds key e c
      → Holds key (record e { value = v }) (put now key v c)
  unfolding put
  put_held now key v e c h = record {
    elem = rw (h.elem, put) h.elem;
    entry =
        rw (h.elem, put)
          (find-move_to_front e.elem _ (record e { value = v })
            (find-update e.elem (λ d. record d { value = v }) c.lru_list e refl h.entry));
  }

  add_held :
      (now : Time) (key : K) (v : V) (c : Cache K V)
      → Holds key (fresh now key v c) (add now key v c)
  unfolding add find
  add_held now key v c = record {
    elem = ground (arith, lookup-insert key key c.next_elem c.cache, eq.decides key key);
    entry = ground arith;
  }

  ttl-make_room : (c : Cache K V) → (make_room c).ttl ≡ c.ttl
  unfolding make_room evict
  ttl-make_room c = ground arith

  put_absent :
      (now : Time) (key : K) (v : V) (c : Cache K V)
      → lookup key c.cache ≡ none
      → (e : Entry K V) × Holds key e (put now key v c) × (e.value ≡ v) × (e.expiry ≡ now + c.ttl)
  unfolding put
  put_absent now key v c h =
      rw (h, put)
        (
          fresh now key v (make_room c),
          add_held now key v (make_room c),
          refl,
          ap (λ t. now + t) (ttl-make_room c),
        )

  -- A `Put` of a new key is found until the time to live has passed since, and not after.
  pub get-put_absent :
      (now later : Time) (key : K) (v : V) (c : Cache K V)
      → lookup key c.cache ≡ none
      → (get later key (put now key v c)).0 ≡ (if ltb (now + c.ttl) later then none else some v)
  get-put_absent now later key v c h =
      let (e, held, value, expiry) = put_absent now key v c h in
      get_held later key e (put now key v c) held ∙ rw (value, expiry)

  -- A `Put` of a key that the cache still maps keeps the expiry of its entry: once that has passed,
  -- no `Put` brings the key back, however late or early it comes.
  pub get-put_expired :
      (now later : Time) (key : K) (v : V) (e : Entry K V) (c : Cache K V)
      → Holds key e c
      → e.expiry < later
      → (get later key (put now key v c)).0 ≡ none
  get-put_expired now later key v e c h late =
      get_held later key (record e { value = v }) (put now key v c) (put_held now key v e c h)
      ∙ if_yes (ltb e.expiry later) none (some v) (ground arith)

  -- While the entry is alive, a `Put` replaces the value that `Get` returns.
  pub get-put_alive :
      (now later : Time) (key : K) (v : V) (e : Entry K V) (c : Cache K V)
      → Holds key e c
      → later ≤ e.expiry
      → (get later key (put now key v c)).0 ≡ some v
  get-put_alive now later key v e c h early =
      get_held later key (record e { value = v }) (put now key v c) (put_held now key v e c h)
      ∙ if_no (ltb e.expiry later) none (some v) (ground arith)

  -- A second read of an element, after the first.
  read_again :
      (now : Time) (key : K) (i : ℕ) (e : Entry K V) (c : Cache K V)
      → lookup key c.cache ≡ some i
      → find i c.lru_list ≡ some e
      → (get now key (read now key i e c).1).0 ≡ (read now key i e c).0
  unfolding read quarantine_item
  read_again now key i e c h t =
      let same = find_elem i c.lru_list e t in
      let late = record e { quarantine = true } in
      let marked =
        get_read now key i late (quarantine_item now key i c) h
          (find-update i (λ d. record d { quarantine = true }) c.lru_list e refl t) in
      let again = get_read now key i e c h t in
      let front =
        get_read now key i e (record c { lru_list = move_to_front i c.lru_list }) h
          (find-move_to_front i c.lru_list e t) in
      elim (Bool-cases (ltb e.expiry now)) [
        | inl old ↦ elim (Bool-cases e.quarantine) [
          | inl q ↦ rw (old, q) (again ∙ rw old)
          | inr q ↦ rw (old, q) (marked ∙ rw old)
        ]
        | inr young ↦ rw young (front ∙ rw young)
      ]

  -- A lookup that changes nothing.
  get_absent :
      (now : Time) (key : K) (c : Cache K V) → lookup key c.cache ≡ none → get now key c ≡ (none, c)
  unfolding get
  get_absent now key c h = rw (h, get) refl

  get_dangling :
      (now : Time) (key : K) (i : ℕ) (c : Cache K V)
      → lookup key c.cache ≡ some i
      → find i c.lru_list ≡ none
      → get now key c ≡ (none, c)
  unfolding get
  get_dangling now key i c h t = rw (h, get) (rw (t, get) refl)

  get_found :
      (now : Time) (key : K) (i : ℕ) (e : Entry K V) (c : Cache K V)
      → lookup key c.cache ≡ some i
      → find i c.lru_list ≡ some e
      → get now key c ≡ read now key i e c
  unfolding get
  get_found now key i e c h t = rw (h, get) (rw (t, get) refl)

  -- Looking a key up twice at the same time finds the same: the first lookup may move its entry to
  -- the front or quarantine it, and neither changes what the second finds.
  pub get-get :
      (now : Time) (key : K) (c : Cache K V) → (get now key (get now key c).1).0 ≡ (get now key c).0
  get-get now key c = elim (Option-cases (lookup key c.cache)) [
    | inl h ↦ let same = get_absent now key c h in rw same (ap (λ r. r.0) same)
    | inr (i, h) ↦ elim (Option-cases (find i c.lru_list)) [
      | inl t ↦ let same = get_dangling now key i c h t in rw same (ap (λ r. r.0) same)
      | inr (e, t) ↦ rw (get_found now key i e c h t) (read_again now key i e c h t)
    ]
  ]
