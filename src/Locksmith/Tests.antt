-- ===== src/Locksmith/Tests.antt =====
-- manager/locksmith/cache.go on a cache of two entries with a time to live of 10.
use workforce.Prelude.{ℕ, String, ◌≡◌, refl, true, false, some, none, [], ◌∷◌, arith, string_eq}
use workforce.Prelude.Dict.{insert, delete}
use workforce.Locksmith.{
  Cache, Entry, default_cache, with_capacity, with_lru, with_ttl, with_quarantine, put, add,
  make_room, evict, get, find, back, quarantine_evict,
}
use workforce.Locksmith.Expiry.{Holds, get-put_absent, get-put_expired, get-put_alive}
use workforce.Locksmith.Quarantine.{quarantine_evict-spins, quarantine_evict-ends}

abbrev small : Cache String ℕ
small = with_capacity 2 (with_lru true (with_ttl 10 (with_quarantine 10 default_cache)))

abbrev entry : Entry String ℕ
entry = record { elem = 0; key = "a"; value = 1; expiry = 15; quarantine = false }

abbrev one : Cache String ℕ
one = record small { cache = ("a", 0) ∷ []; lru_list = entry ∷ []; next_elem = 1 }

held : Holds "a" entry one
unfolding find
held = record { elem = refl; entry = refl }

put_once : put 5 "a" 1 small ≡ one
unfolding put add make_room evict insert delete back
put_once = refl

get-put_absent_example : (get 15 "a" (put 5 "a" 1 small)).0 ≡ some 1
get-put_absent_example = get-put_absent 5 15 "a" 1 small refl

get-put_expired_example : (get 21 "a" (put 20 "a" 2 one)).0 ≡ none
get-put_expired_example = get-put_expired 20 21 "a" 2 entry one held (ground arith)

get-put_alive_example : (get 15 "a" (put 12 "a" 2 one)).0 ≡ some 2
get-put_alive_example = get-put_alive 12 15 "a" 2 entry one held (ground arith)

abbrev locked : Cache String ℕ
locked = record one { quarantine = ("a", 20) ∷ []; quarantine_list = "a" ∷ [] }

back_locked : back locked.quarantine_list ≡ some "a"
unfolding back
back_locked = refl

quarantine_evict-spins_example : quarantine_evict (25 ∷ 30 ∷ []) locked ≡ none
quarantine_evict-spins_example =
    quarantine_evict-spins (25 ∷ 30 ∷ []) "a" locked back_locked (ground arith, (ground arith, tt))

quarantine_evict-ends_example :
    (c : Cache String ℕ) × (quarantine_evict (31 ∷ []) locked ≡ some c) × (c.quarantine_list ≡ [])
quarantine_evict-ends_example =
    quarantine_evict-ends (31 ∷ []) locked (ground arith) (λ k. ground arith, tt)
