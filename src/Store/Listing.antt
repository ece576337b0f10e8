-- ===== src/Store/Listing.antt =====
-- manager/store/memstore.go, `ListJobs`: where a cursor leads, and what a page holds.
pub mod Keys
pub mod Order
pub mod Pages
pub mod Shuffles
use mathlib.Core.List.{append_assoc}
use mathlib.Core.Path.{subst}
use workforce.Prelude.{
  ℕ, zero, suc, ◌+◌, ◌-◌, ◌^◌, ◌≤◌, ◌<◌, ◌≡◌, refl, sym, ap, ap₂, ◌∙◌, ◌⊎◌, inl, inr, String, Bool,
  true, false, Option, none, some, List, [], ◌∷◌, ◌++◌, arith, length, length-append, take, drop,
  ltb, leb, if◌then◌else◌, if_yes, if_no, ◌==◌, string_eq, eq_iff, Bool-cases,
}
use workforce.Contract.Job.{Job}
use workforce.Store.{
  MemStore, root_jobs, place_after, start_of, last_id, page_of, with_cursor, list_jobs,
}

-- No job has this identifier.
abbrev pub HasNo : String → List Job → Type 0
HasNo c [] = Unit {0}
HasNo c (j ∷ js) = ((j.id == c) ≡ false) × HasNo c js

-- Identifiers are not empty and differ.
abbrev pub AreDistinct : List Job → Type 0
AreDistinct [] = Unit {0}
AreDistinct (j ∷ js) = ((j.id == "") ≡ false) × HasNo j.id js × AreDistinct js

HasNo-at :
    (c : String) (ps : List Job) (j : Job) (more : List Job)
    → HasNo c (ps ++ j ∷ more)
    → (j.id == c) ≡ false
HasNo-at c [] j more h = h.0
HasNo-at c (p ∷ ps) j more h = HasNo-at c ps j more h.1

differ_sym : (a b : String) → (a == b) ≡ false → (b == a) ≡ false
differ_sym a b h = ground (arith, h, eq_iff a b, eq_iff b a)

HasNo-before :
    (ps : List Job) (j : Job) (more : List Job) → AreDistinct (ps ++ j ∷ more) → HasNo j.id ps
HasNo-before [] j more d = tt
HasNo-before (p ∷ ps) j more d =
    (differ_sym j.id p.id (HasNo-at p.id ps j more d.1), HasNo-before ps j more d.2)

pub named :
    (ps : List Job) (j : Job) (more : List Job)
    → AreDistinct (ps ++ j ∷ more)
    → (j.id == "") ≡ false
named [] j more d = d.0
named (p ∷ ps) j more d = named ps j more d.2

same_id : (s : String) → (s == s) ≡ true
same_id s = ground (arith, eq_iff s s)

place_after-append :
    (ps : List Job) (j : Job) (more : List Job)
    → HasNo j.id ps
    → place_after j.id (ps ++ j ∷ more) ≡ some (suc (length ps))
unfolding place_after
place_after-append [] j more h = rw (same_id j.id) refl
place_after-append (p ∷ ps) j more h =
    let later = place_after-append ps j more h.1 in rw h.0 (rw (later, place_after) refl)

pub start_of-append :
    (ps : List Job) (j : Job) (more : List Job)
    → AreDistinct (ps ++ j ∷ more)
    → start_of j.id (ps ++ j ∷ more) ≡ suc (length ps)
unfolding start_of
start_of-append ps j more d =
    rw (named ps j more d)
      (rw (place_after-append ps j more (HasNo-before ps j more d), start_of) refl)

pub take-append :
    (ps : List Job) (j : Job) (more : List Job)
    → take (suc (length ps)) (ps ++ j ∷ more) ≡ ps ++ j ∷ []
take-append [] j more = refl
take-append (p ∷ ps) j more = ap (◌∷◌ p) (take-append ps j more)

pub take_all : (n : ℕ) (xs : List Job) → n ≡ length xs → take n xs ≡ xs
take_all zero [] e = refl
take_all zero (x ∷ xs) e = absurd (omega (arith, e))
take_all (suc n) [] e = absurd (omega (arith, e))
take_all (suc n) (x ∷ xs) e = ap (◌∷◌ x) (take_all n xs (omega (arith, e)))

pub drop-append : (xs ys : List Job) → drop (length xs) (xs ++ ys) ≡ ys
drop-append [] ys = refl
drop-append (x ∷ xs) ys = drop-append xs ys

pub last_id-append : (ps : List Job) (j : Job) → last_id (ps ++ j ∷ []) ≡ some j.id
unfolding last_id
last_id-append [] j = refl
last_id-append (p ∷ []) j = refl
last_id-append (p ∷ q ∷ ps) j = last_id-append (q ∷ ps) j

-- The last job of a full page.
pub split_page :
    (limit : ℕ) (rest : List Job)
    → 0 < limit
    → limit < length rest
    → (ps : List Job) × (j : Job) × (more : List Job) × (rest ≡ ps ++ j ∷ more)
      × (suc (length ps) ≡ limit)
split_page zero rest h k = absurd (omega arith)
split_page (suc n) [] h k = absurd (omega arith)
split_page (suc zero) (x ∷ rest) h k = ([], x, rest, refl, refl)
split_page (suc (suc n)) (x ∷ rest) h k =
    let (ps, j, more, e, l) = split_page (suc n) rest (omega arith) (omega arith) in
    (x ∷ ps, j, more, ap (◌∷◌ x) e, ap suc l)

pub page_done :
    (cursor : String) (limit b : ℕ) (all : List Job)
    → start_of cursor all ≡ b
    → length all ≤ b
    → page_of cursor limit all ≡ some ([], "")
unfolding page_of
page_done cursor limit b all e h = rw e (if_yes (leb (length all) b) _ _ (ground arith))

pub page_last :
    (cursor : String) (limit b : ℕ) (all : List Job)
    → start_of cursor all ≡ b
    → b < length all
    → length all ≤ b + limit
    → b + limit < 2 ^ 63
    → page_of cursor limit all ≡ some (take (length all - b) (drop b all), "")
unfolding page_of
page_last cursor limit b all e h k small =
    let stop : (if ltb (length all) (b + limit) then length all else b + limit) ≡ length all =
      ground arith in
    rw (e, stop)
      (if_no (leb (length all) b) _ _ (ground arith)
        ∙ if_no (leb (2 ^ 63) (b + limit)) _ _ (ground arith)
        ∙ if_no (ltb (length all) (length all)) _ _ (ground arith))

with_cursor_lem :
    (page : List Job) (id : String) → last_id page ≡ some id → with_cursor page ≡ some (page, id)
unfolding with_cursor
with_cursor_lem page id l = rw (l, with_cursor) refl

pub page_more :
    (cursor : String) (limit b : ℕ) (all : List Job) (id : String)
    → start_of cursor all ≡ b
    → 0 < limit
    → b + limit < length all
    → b + limit < 2 ^ 63
    → last_id (take limit (drop b all)) ≡ some id
    → page_of cursor limit all ≡ some (take limit (drop b all), id)
unfolding page_of
page_more cursor limit b all id e p h small l =
    let stop : (if ltb (length all) (b + limit) then length all else b + limit) ≡ b + limit =
      ground arith in
    let width : b + limit - b ≡ limit = omega arith in
    rw (e, stop, width)
      (if_no (leb (length all) b) _ _ (ground arith)
        ∙ if_no (leb (2 ^ 63) (b + limit)) _ _ (ground arith)
        ∙ if_yes (ltb (b + limit) (length all)) _ _ (ground arith)
        ∙ with_cursor_lem (take limit (drop b all)) id l)
