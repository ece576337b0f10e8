-- ===== src/Webhooks/Delivery.antt =====
-- manager/webhooks/dispatcher.go, `processPending`: what becomes of each entry of the queue.
use workforce.Prelude.{
  ◌≡◌, refl, ◌∙◌, sym, ap, ℕ, String, Bool, true, false, not, ◌&&◌, ◌||◌, Option, none, some, List,
  [], ◌∷◌, arith, leb, if◌then◌else◌, ◌==◌, string_eq, eq_iff, Bool-cases, inl, inr,
}
use workforce.Prelude.Int.{ℤ, pos, ◌+ℤ◌, wrap64, ltb_ℤ}
use workforce.Prelude.Dict.{Dict, lookup, Fresh, lookup-insert, lookup-delete, AllValues}
use workforce.Contract.Job.{Time}
use workforce.Manager.Config.{WebhookDispatcherConfig}
use workforce.Store.{MemStore, WebhookEntry, select, dequeue_webhooks, ack_webhook, nack_webhook}
use workforce.Webhooks.{
  schedule_retry, process_entries, process_pending, backoff_of, time_add, earliest,
}

-- Each entry is bound once, to its own identifier.
abbrev pub AreKeyed : Dict String WebhookEntry → Type 0
AreKeyed [] = Unit {0}
AreKeyed ((k, e) ∷ m) = (e.id ≡ k) × Fresh k m × AreKeyed m

-- No entry has this identifier, which is tested the way round that a lookup tests it.
abbrev Lacks : String → List WebhookEntry → Type 0
Lacks id [] = Unit {0}
Lacks id (e ∷ es) = ((id == e.id) ≡ false) × Lacks id es

flip_test : (a b : String) → (a == b) ≡ false → (b == a) ≡ false
flip_test a b h = ground (arith, h, eq_iff a b, eq_iff b a)

module _ (converted : ℕ → ℤ) (cfg : WebhookDispatcherConfig) (now : Time)
    (delivers : WebhookEntry → Bool) where
  abbrev attempts_of : WebhookEntry → ℤ
  attempts_of e = wrap64 (e.attempts +ℤ pos 1)

  abbrev is_exhausted : WebhookEntry → Bool
  is_exhausted e =
      ltb_ℤ (pos 0) cfg.max_webhook_attempts && not (ltb_ℤ (attempts_of e) cfg.max_webhook_attempts)

  -- The entry after its turn.
  abbrev pub outcome : WebhookEntry → Option WebhookEntry
  outcome e =
      if delivers e || is_exhausted e
      then none
      else some (record e {
        attempts = attempts_of e;
        next_attempt_at = time_add now (backoff_of converted cfg (attempts_of e));
      })

  -- What one pass makes of what the queue holds.
  abbrev pub fate : Option WebhookEntry → Option WebhookEntry
  fate none = none
  fate (some e) = if leb e.next_attempt_at now then outcome e else some e

  abbrev settled : WebhookEntry → MemStore → MemStore
  settled e m = if delivers e then ack_webhook e.id m else (schedule_retry converted cfg now e m).1

  lookup-ack :
      (e : WebhookEntry) (m : MemStore) (j : String)
      → lookup j (ack_webhook e.id m).webhooks ≡ (if e.id == j then none else lookup j m.webhooks)
  unfolding ack_webhook
  lookup-ack e m j = lookup-delete e.id j m.webhooks

  retried : WebhookEntry → WebhookEntry
  retried e = record e {
    attempts = attempts_of e;
    next_attempt_at = time_add now (backoff_of converted cfg (attempts_of e));
  }

  lookup-nack :
      (e : WebhookEntry) (m : MemStore) (j : String)
      → lookup e.id m.webhooks ≡ some e
      → lookup j
          (nack_webhook e.id
            (attempts_of e)
            (time_add now (backoff_of converted cfg (attempts_of e)))
            m).1.webhooks
        ≡ (if e.id == j then some (retried e) else lookup j m.webhooks)
  unfolding nack_webhook retried
  lookup-nack e m j h = rw (h, nack_webhook) (lookup-insert e.id j (retried e) m.webhooks)

  lookup-settled :
      (e : WebhookEntry) (m : MemStore) (j : String)
      → lookup e.id m.webhooks ≡ some e
      → lookup j (settled e m).webhooks ≡ (if e.id == j then outcome e else lookup j m.webhooks)
  unfolding schedule_retry retried
  lookup-settled e m j h = ground (arith, lookup-ack e m j, lookup-nack e m j h)

  process_entries-cons :
      (e : WebhookEntry) (es : List WebhookEntry) (w : Time) (m : MemStore)
      → (v : Time) × ((process_entries converted cfg now delivers (e ∷ es) w m).1
          ≡ (process_entries converted cfg now delivers es v (settled e m)).1)
  unfolding process_entries
  process_entries-cons e es w m = elim (Bool-cases (delivers e)) [
    | inl t ↦ (w, rw t refl)
    | inr f ↦ (earliest (schedule_retry converted cfg now e m).0 w, rw f refl)
  ]

  -- Entries that are bound to their identifiers, which differ.
  abbrev AreBound : List WebhookEntry → MemStore → Type 0
  AreBound [] m = Unit {0}
  AreBound (e ∷ es) m = (lookup e.id m.webhooks ≡ some e) × Lacks e.id es × AreBound es m

  -- The fate of an identifier among entries.
  abbrev fate_among : List WebhookEntry → String → Option WebhookEntry → Option WebhookEntry
  fate_among [] id o = o
  fate_among (e ∷ es) id o = if e.id == id then outcome e else fate_among es id o

  settled-AreBound :
      (e : WebhookEntry) (es : List WebhookEntry) (m : MemStore)
      → lookup e.id m.webhooks ≡ some e
      → Lacks e.id es
      → AreBound es m
      → AreBound es (settled e m)
  settled-AreBound e [] m h l b = tt
  settled-AreBound e (f ∷ es) m h l b =
      (lookup-settled e m f.id h ∙ rw l.0 b.0, b.1, settled-AreBound e es m h l.1 b.2)

  fate_among-Lacks :
      (es : List WebhookEntry) (id : String) (o : Option WebhookEntry)
      → Lacks id es
      → fate_among es id o ≡ o
  fate_among-Lacks [] id o l = refl
  fate_among-Lacks (e ∷ es) id o l = rw (flip_test id e.id l.0) (fate_among-Lacks es id o l.1)

  process_entries-nil :
      (w : Time) (m : MemStore) → (process_entries converted cfg now delivers [] w m).1 ≡ m
  unfolding process_entries
  process_entries-nil w m = refl

  lookup-process_entries :
      (es : List WebhookEntry) (w : Time) (m : MemStore) (id : String)
      → AreBound es m
      → lookup id (process_entries converted cfg now delivers es w m).1.webhooks
        ≡ fate_among es id (lookup id m.webhooks)
  lookup-process_entries [] w m id b = rw (process_entries-nil w m)
  lookup-process_entries (e ∷ es) w m id b =
      let (v, step) = process_entries-cons e es w m in
      let rest =
        lookup-process_entries es v (settled e m) id (settled-AreBound e es m b.0 b.1 b.2) in
      let here = lookup-settled e m id b.0 in
      ap (λ n. lookup id n.webhooks) step
      ∙ rest
      ∙ ap (fate_among es id) here
      ∙ elim (Bool-cases (e.id == id)) [
        | inl t ↦
            let same : e.id ≡ id = (eq_iff e.id id).0 t in
            rw t (fate_among-Lacks es id (outcome e) (rw same at b.1))
        | inr f ↦ rw f
      ]

  -- The entries that are due, in a dictionary.
  abbrev due_in : Dict String WebhookEntry → List WebhookEntry
  due_in d = select (λ e. leb e.next_attempt_at now) d

  due_in-Lacks :
      (d : Dict String WebhookEntry) (id : String) → AreKeyed d → Fresh id d → Lacks id (due_in d)
  due_in-Lacks [] id k f = tt
  due_in-Lacks ((j, e) ∷ d) id k f = elim (Bool-cases (leb e.next_attempt_at now)) [
    | inl t ↦ rw t (rw k.0 (flip_test j id f.0), due_in-Lacks d id k.2 f.1)
    | inr n ↦ rw n (due_in-Lacks d id k.2 f.1)
  ]

  fate_among-due_in :
      (d : Dict String WebhookEntry) (id : String)
      → AreKeyed d
      → fate_among (due_in d) id (lookup id d) ≡ fate (lookup id d)
  fate_among-due_in [] id k = refl
  fate_among-due_in ((j, e) ∷ d) id k =
      let rest = fate_among-due_in d id k.2 in
      elim (Bool-cases (j == id)) [
        | inl t ↦
            let same : j ≡ id = (eq_iff j id).0 t in
            let own : (e.id == id) ≡ true = rw k.0 t in
            let lacks = due_in-Lacks d id k.2 (rw (sym same) k.1) in
            elim (Bool-cases (leb e.next_attempt_at now)) [
              | inl l ↦ rw (l, t, own, l) refl
              | inr l ↦ rw (l, t, l) (fate_among-Lacks (due_in d) id (some e) lacks)
            ]
        | inr f ↦
            let own : (e.id == id) ≡ false = rw k.0 f in
            elim (Bool-cases (leb e.next_attempt_at now)) [
              | inl l ↦ rw (l, f, own) rest
              | inr l ↦ rw (l, f) rest
            ]
      ]

  due_in-AreBound :
      (d : Dict String WebhookEntry) (m : MemStore)
      → AreKeyed d
      → AllValues (λ e. lookup e.id m.webhooks ≡ some e) d
      → AreBound (due_in d) m
  due_in-AreBound [] m k a = tt
  due_in-AreBound ((j, e) ∷ d) m k a = elim (Bool-cases (leb e.next_attempt_at now)) [
    | inl t ↦ rw t (a.0, due_in-Lacks d e.id k.2 (rw k.0 k.1), due_in-AreBound d m k.2 a.1)
    | inr f ↦ rw f (due_in-AreBound d m k.2 a.1)
  ]

-- A binding in the rest of a dictionary is found in the whole.
bound_later :
    (j : String) (e : WebhookEntry) (c d : Dict String WebhookEntry)
    → AreKeyed c
    → Fresh j c
    → AllValues (λ f. lookup f.id d ≡ some f) c
    → AllValues (λ f. lookup f.id ((j, e) ∷ d) ≡ some f) c
bound_later j e [] d k l a = tt
bound_later j e ((i, f) ∷ c) d k l a = (
  (let apart : (j == f.id) ≡ false = rw k.0 (flip_test i j l.0) in rw apart a.0),
  bound_later j e c d k.2 l.1 a.1,
)

keyed_bound :
    (d : Dict String WebhookEntry) → AreKeyed d → AllValues (λ e. lookup e.id d ≡ some e) d
keyed_bound [] k = tt
keyed_bound ((j, e) ∷ d) k = (
  rw (sym k.0) (rw ((eq_iff e.id e.id).1 refl) refl),
  bound_later j e d d k.2 k.1 (keyed_bound d k.2),
)

-- One pass over the queue: an entry that is due is gone once it is delivered or its attempts are
-- used up, and is otherwise kept with one attempt more and the time of the next; an entry that is
-- not due is untouched, and none is made.
pub lookup-process_pending :
    (converted : ℕ → ℤ) (cfg : WebhookDispatcherConfig) (now : Time)
    (delivers : WebhookEntry → Bool) (m : MemStore) (id : String)
    → AreKeyed m.webhooks
    → lookup id (process_pending converted cfg now delivers m).1.webhooks
      ≡ fate converted cfg now delivers (lookup id m.webhooks)
unfolding process_pending dequeue_webhooks
lookup-process_pending converted cfg now delivers m id k =
    lookup-process_entries converted cfg now delivers (due_in converted cfg now delivers m.webhooks)
      0 m id (due_in-AreBound converted cfg now delivers m.webhooks m k (keyed_bound m.webhooks k))
    ∙ fate_among-due_in converted cfg now delivers m.webhooks id k
