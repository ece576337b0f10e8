-- ===== src/Locksmith.antt =====
-- The cache behind the rejected proposals (manager/locksmith/cache.go). A `*list.Element` is the
-- number of the entry that it holds; `lru_list` and `quarantine_list` have their front first. The
-- clock is an argument of each operation; a duration is not negative.
pub mod Expiry
pub mod Quarantine
mod Tests
use workforce.Prelude.{
  ℕ, zero, suc, ◌+◌, Bool, true, false, not, ◌&&◌, Option, none, some, List, [], ◌∷◌, length, Eq,
  ◌==◌, nat_eq, ◌*◌, leb, ltb, if◌then◌else◌,
}
use workforce.Prelude.Dict.{Dict, lookup, insert, delete}
use workforce.Contract.Job.{Time}

pub record Entry {ℓ κ} (K : Type ℓ) (V : Type κ) : Type (ℓ ⊔ κ) where
  pub elem : ℕ
  pub key : K
  pub value : V
  pub expiry : Time
  pub quarantine : Bool

pub record Cache {ℓ κ} (K : Type ℓ) (V : Type κ) : Type (ℓ ⊔ κ) where
  pub capacity : ℕ
  pub cache : Dict K ℕ
  pub lru_list : List (Entry K V)
  pub ttl : ℕ
  pub quarantine_ttl : ℕ
  pub quarantine : Dict K Time
  pub quarantine_list : List K
  pub next_elem : ℕ

-- container/list: the last element, and the others
pub back {ν} : {A : Type ν} → List A → Option A
back [] = none
back (e ∷ []) = some e
back (e ∷ d ∷ es) = back (d ∷ es)

pub drop_back {ν} : {A : Type ν} → List A → List A
drop_back [] = []
drop_back (e ∷ []) = []
drop_back (e ∷ d ∷ es) = e ∷ drop_back (d ∷ es)

-- container/list, on the entries by the number of their element
module _ {ℓ κ} {K : Type ℓ} {V : Type κ} where
  pub find : ℕ → List (Entry K V) → Option (Entry K V)
  find i [] = none
  find i (e ∷ es) = if e.elem == i then some e else find i es

  pub remove : ℕ → List (Entry K V) → List (Entry K V)
  remove i [] = []
  remove i (e ∷ es) = let rest = remove i es in if e.elem == i then rest else e ∷ rest

  pub move_to_front : ℕ → List (Entry K V) → List (Entry K V)
  move_to_front i es = elim (find i es) [ none ↦ es | some e ↦ e ∷ remove i es ]

  -- A write through the pointer that the element holds.
  pub update : ℕ → (Entry K V → Entry K V) → List (Entry K V) → List (Entry K V)
  update i f [] = []
  update i f (e ∷ es) = let rest = update i f es in if e.elem == i then f e ∷ es else e ∷ rest

abbrev pub minute : ℕ
minute = 60_000_000_000

module _ {ℓ κ} {K : Type ℓ} {V : Type κ} ⦃eq : Eq K⦄ where
  -- `NewCache` without options
  abbrev pub default_cache : Cache K V
  default_cache = record {
    capacity = 100;
    cache = [];
    lru_list = [];
    ttl = minute * 15;
    quarantine_ttl = minute * 15;
    quarantine = [];
    quarantine_list = [];
    next_elem = 0;
  }

  abbrev pub with_capacity : ℕ → Cache K V → Cache K V
  with_capacity capacity c = record c { capacity = capacity }

  -- `WithLRU` does nothing.
  abbrev pub with_lru : Bool → Cache K V → Cache K V
  with_lru enabled c = c

  abbrev pub with_ttl : ℕ → Cache K V → Cache K V
  with_ttl ttl c = record c { ttl = ttl }

  abbrev pub with_quarantine : ℕ → Cache K V → Cache K V
  with_quarantine ttl c = record c { quarantine_ttl = ttl }

  pub evict : Cache K V → Cache K V
  evict c = elim (back c.lru_list) [
    | none ↦ c
    | some e ↦ record c { lru_list = remove e.elem c.lru_list; cache = delete e.key c.cache }
  ]

  -- The eviction in `Put`, and the new entry.
  pub make_room : Cache K V → Cache K V
  make_room c = if leb c.capacity (length c.cache) then evict c else c

  abbrev pub fresh : Time → K → V → Cache K V → Entry K V
  fresh now key value c = record {
    elem = c.next_elem;
    key = key;
    value = value;
    expiry = now + c.ttl;
    quarantine = false;
  }

  pub add : Time → K → V → Cache K V → Cache K V
  add now key value c = record c {
    lru_list = fresh now key value c ∷ c.lru_list;
    cache = insert key c.next_elem c.cache;
    next_elem = suc c.next_elem;
  }

  pub put : Time → K → V → Cache K V → Cache K V
  put now key value c = elim (lookup key c.cache) [
    | some i ↦ record c {
      lru_list = move_to_front i (update i (λ e. record e { value = value }) c.lru_list);
    }
    | none ↦ add now key value (make_room c)
  ]

  -- `quarantineItem` at the element `i` of `key`.
  pub quarantine_item : Time → K → ℕ → Cache K V → Cache K V
  quarantine_item now key i c = record c {
    lru_list = update i (λ e. record e { quarantine = true }) c.lru_list;
    quarantine = insert key now c.quarantine;
    quarantine_list = key ∷ c.quarantine_list;
  }

  -- The part of `Get` that runs once the element `i` holds the entry `e`.
  pub read : Time → K → ℕ → Entry K V → Cache K V → Option V × Cache K V
  read now key i e c =
      if ltb e.expiry now
      then (none, if not e.quarantine then quarantine_item now key i c else c)
      else (some e.value, record c { lru_list = move_to_front i c.lru_list })

  -- An element that the map holds is in the list.
  unfoldable pub get : Time → K → Cache K V → Option V × Cache K V
  get now key c = elim (lookup key c.cache) [
    | none ↦ (none, c)
    | some i ↦ elim (find i c.lru_list) [ none ↦ (none, c) | some e ↦ read now key i e c ]
  ]

  pub increase_ttl : Time → K → Cache K V → Bool × Cache K V
  increase_ttl now key c = elim (lookup key c.cache) [
    | none ↦ (false, c)
    | some i ↦
        (true, record c { lru_list = update i (λ e. record e { expiry = now + c.ttl }) c.lru_list })
  ]

  abbrev pub size : Cache K V → ℕ
  size c = length c.cache

  -- The rounds of `QuarantineExpiredItems` over the bindings of the map.
  pub quarantine_each : Time → Dict K ℕ → Cache K V → Cache K V
  quarantine_each now [] c = c
  quarantine_each now ((key, i) ∷ rest) c = elim (find i c.lru_list) [
    | none ↦ quarantine_each now rest c
    | some e ↦
        quarantine_each now rest
          (if ltb e.expiry now && not e.quarantine then quarantine_item now key i c else c)
  ]

  pub quarantine_expired_items : Time → Cache K V → Cache K V
  quarantine_expired_items now c = quarantine_each now c.cache c

  -- A missing key reads as the zero time.
  abbrev pub quarantined_at : K → Cache K V → Time
  quarantined_at key c = elim (lookup key c.quarantine) [ none ↦ 0 | some t ↦ t ]

  -- A round of `QuarantineEvict`, at a key that the list ends in.
  pub quarantine_round : Time → K → Cache K V → Cache K V
  quarantine_round now key c =
      if ltb (quarantined_at key c + c.quarantine_ttl) now
      then record c {
        quarantine_list = drop_back c.quarantine_list;
        cache = delete key c.cache;
        quarantine = delete key c.quarantine;
      }
      else c

  -- `QuarantineEvict`, with the clock readings of its rounds; `none` while the loop still runs when
  -- they are used up.
  pub quarantine_evict : List Time → Cache K V → Option (Cache K V)
  quarantine_evict [] c = elim (back c.quarantine_list) [ none ↦ some c | some key ↦ none ]
  quarantine_evict (now ∷ clock) c = elim (back c.quarantine_list) [
    | none ↦ some c
    | some key ↦ quarantine_evict clock (quarantine_round now key c)
  ]
