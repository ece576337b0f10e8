-- ===== src/Store/Logs/Subscribers.antt =====
-- manager/store/memstore.go: the two ends of a subscription to the logs of a job.
use mathlib.Core.Path.{subst}
use workforce.Prelude.{
  ℕ, suc, ◌≡◌, refl, String, Bool, true, false, ◌||◌, none, some, List, [], ◌∷◌, ◌++◌, inl, inr,
  arith, ◌==◌, nat_eq, string_eq, Option-cases, Bool-cases, ltb, length, eq_iff,
}
use workforce.Prelude.Dict.{lookup, insert, lookup-insert}
use workforce.Store.{MemStore, Chan, list_job_runs}
use workforce.Store.Logs.{
  backlog, subscribers, subscribe_job_logs, close_chan, close_all, close_job_log_subscribers,
  end_subscription,
}

abbrev pub member : ℕ → List ℕ → Bool
member r [] = false
member r (q ∷ qs) = q == r || member r qs

-- A channel that exists and is closed.
pub record IsClosed (ch : ℕ) (m : MemStore) : Type 0 where
  pub chan : Chan
  pub found : lookup ch m.chans ≡ some chan
  pub closed : chan.is_closed ≡ true

close_chan-IsClosed : (ch d : ℕ) (m : MemStore) → IsClosed ch m → IsClosed ch (close_chan d m)
unfolding close_chan
close_chan-IsClosed ch d m h = elim (Option-cases (lookup d m.chans)) [
  | inl e ↦ rw (e, close_chan) h
  | inr (c, e) ↦ elim (Bool-cases c.is_closed) [
    | inl t ↦
        rw (e, close_chan) (rw t (record { chan = h.chan; found = h.found; closed = h.closed }))
    | inr t ↦
        let found = lookup-insert d ch (record c { is_closed = true }) m.chans in
        rw (e, close_chan)
          (rw t (elim (Bool-cases (d == ch)) [
            | inl s ↦ record {
              chan = record c { is_closed = true };
              found = ground (arith, found, s);
              closed = refl;
            }
            | inr s ↦ record {
              chan = h.chan;
              found = ground (arith, found, s, h.found);
              closed = h.closed;
            }
          ]))
  ]
]

close_all-IsClosed :
    (ch : ℕ) (chs : List ℕ) (m : MemStore) → IsClosed ch m → IsClosed ch (close_all chs m)
unfolding close_all
close_all-IsClosed ch [] m h = h
close_all-IsClosed ch (d ∷ chs) m h =
    close_all-IsClosed ch chs (close_chan d m) (close_chan-IsClosed ch d m h)

-- A channel that exists.
pub record Exists (ch : ℕ) (m : MemStore) : Type 0 where
  pub chan : Chan
  pub found : lookup ch m.chans ≡ some chan

closes_it : (ch : ℕ) (m : MemStore) → Exists ch m → IsClosed ch (close_chan ch m)
unfolding close_chan
closes_it ch m h = elim (Bool-cases h.chan.is_closed) [
  | inl t ↦ rw (h.found, close_chan) (rw t (record { chan = h.chan; found = h.found; closed = t }))
  | inr t ↦
      let closed : Chan = record h.chan { is_closed = true } in
      let found = lookup-insert ch ch closed m.chans in
      rw (h.found, close_chan)
        (rw t (record { chan = closed; found = ground (arith, found); closed = refl }))
]

close_chan-Exists : (ch d : ℕ) (m : MemStore) → Exists ch m → Exists ch (close_chan d m)
unfolding close_chan
close_chan-Exists ch d m h = elim (Option-cases (lookup d m.chans)) [
  | inl e ↦ rw (e, close_chan) h
  | inr (c, e) ↦ elim (Bool-cases c.is_closed) [
    | inl t ↦ rw (e, close_chan) (rw t (record { chan = h.chan; found = h.found }))
    | inr t ↦
        let found = lookup-insert d ch (record c { is_closed = true }) m.chans in
        rw (e, close_chan)
          (rw t (elim (Bool-cases (d == ch)) [
            | inl s ↦ record {
              chan = record c { is_closed = true };
              found = ground (arith, found, s);
            }
            | inr s ↦ record { chan = h.chan; found = ground (arith, found, s, h.found) }
          ]))
  ]
]

-- Closing a list of channels closes each that exists.
closes_each :
    (ch : ℕ) (chs : List ℕ) (m : MemStore)
    → member ch chs ≡ true
    → Exists ch m
    → IsClosed ch (close_all chs m)
unfolding close_all
closes_each ch [] m h x = absurd (ground arith)
closes_each ch (d ∷ chs) m h x = elim (Bool-cases (d == ch)) [
  | inl e ↦
      let same : d ≡ ch = ground arith in
      rw same (close_all-IsClosed ch chs (close_chan ch m) (closes_it ch m x))
  | inr e ↦ closes_each ch chs (close_chan d m) (rw e at h) (close_chan-Exists ch d m x)
]

closing_again : (ch : ℕ) (m : MemStore) → IsClosed ch m → (close_chan ch m).panicked ≡ true
unfolding close_chan
closing_again ch m h = rw (h.found, close_chan) (rw h.closed refl)

-- The store closes a channel and its subscriber closes it again.
end_subscription-close_job_log_subscribers :
    (job_id : String) (ch : ℕ) (m : MemStore)
    → member ch (subscribers job_id m.job_subscribers) ≡ true
    → Exists ch m
    → (end_subscription job_id ch (close_job_log_subscribers job_id m)).panicked ≡ true
unfolding end_subscription close_job_log_subscribers
end_subscription-close_job_log_subscribers job_id ch m h x =
    let c = closes_each ch (subscribers job_id m.job_subscribers) m h x in
    closing_again ch _ (record { chan = c.chan; found = c.found; closed = c.closed })

member_last : (r : ℕ) (xs : List ℕ) → member r (xs ++ r ∷ []) ≡ true
member_last r [] = ground arith
member_last r (x ∷ xs) = ground (arith, member_last r xs)

-- What a subscriber holds: a channel that exists and is noted for the job.
pub record IsSubscribed (job_id : String) (ch : ℕ) (m : MemStore) : Type 0 where
  pub noted : member ch (subscribers job_id m.job_subscribers) ≡ true
  pub exists : Exists ch m

subscribe_job_logs-IsSubscribed :
    (job_id : String) (ch : ℕ) (m m' : MemStore)
    → subscribe_job_logs job_id m ≡ some (ch, m')
    → IsSubscribed job_id ch m'
unfolding subscribe_job_logs
subscribe_job_logs-IsSubscribed job_id ch m m' e =
    let first = backlog (list_job_runs job_id m) m in
    let chan : Chan = record { buffer = first; is_closed = false } in
    let subs = subscribers job_id m.job_subscribers ++ m.next_chan ∷ [] in
    let after : MemStore = record m {
      chans = insert m.next_chan chan m.chans;
      next_chan = suc m.next_chan;
      job_subscribers = insert job_id subs m.job_subscribers;
    } in
    elim (Bool-cases (ltb 64 (length first))) [
      | inl t ↦ absurd (none_lem (rw t at e))
      | inr t ↦
          let q : (m.next_chan, after) ≡ (ch, m') = some_lem (rw t at e) in
          subst (λ r. IsSubscribed job_id r.0 r.1) q
            (record {
              noted = ground (
                arith,
                lookup-insert job_id job_id subs m.job_subscribers,
                eq_iff job_id job_id,
                member_last m.next_chan (subscribers job_id m.job_subscribers),
              );
              exists = record {
                chan = chan;
                found = ground (arith, lookup-insert m.next_chan m.next_chan chan m.chans);
              };
            })
    ]
  where
    none_lem : {A : Type 0} {a : A} → none ≡ some a → ⊥
    none_lem h = cc

    some_lem : {A : Type 0} {a b : A} → some a ≡ some b → a ≡ b
    some_lem h = cc

-- A client subscribes to the logs of a job, the job ends and the store closes its subscriptions,
-- and then the context of the client is done: the goroutine of the subscription closes the channel
-- again and panics.
pub end_subscription-subscribe_job_logs :
    (job_id : String) (ch : ℕ) (m m' : MemStore)
    → subscribe_job_logs job_id m ≡ some (ch, m')
    → (end_subscription job_id ch (close_job_log_subscribers job_id m')).panicked ≡ true
end_subscription-subscribe_job_logs job_id ch m m' e =
    let s = subscribe_job_logs-IsSubscribed job_id ch m m' e in
    end_subscription-close_job_log_subscribers job_id ch m' s.noted s.exists
