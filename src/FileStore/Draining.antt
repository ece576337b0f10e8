-- ===== src/FileStore/Draining.antt =====
-- manager/store/fsstore_journal.go, `runWriter`: a close that comes to no compaction.
use mathlib.Core.List.{append_assoc, append-nil}
use workforce.Prelude.{
  ◌≡◌, refl, sym, ap, ◌∙◌, inl, inr, ℕ, suc, ◌+◌, ◌≤◌, arith, true, List, [], ◌∷◌, ◌++◌, map,
  length, if◌then◌else◌, Bool-cases,
}
use workforce.Prelude.Int.{ℤ, pos, negsuc, ltb_ℤ, eqb_ℤ}
use workforce.FileStore.Entries.{Json, JournalEntry}
use workforce.FileStore.State.{FsStoreConfig, idle, Disk, FsStore}
use workforce.FileStore.Writer.{
  flush, write_line, write_entry, write, writer_turn, Outcome, compacted, not_renamed,
  not_truncated, settle, drain, close,
}

below_trans : (a b : ℕ) (x : ℤ) → a ≤ b → ltb_ℤ (pos b) x ≡ true → ltb_ℤ (pos a) x ≡ true
below_trans a b (pos n) h k = ground arith
below_trans a b (negsuc n) h k = ground arith

module _ (J : Json) where
  -- The files with the buffer and some entries in the journal.
  abbrev pub with_lines : List (JournalEntry J.Raw) → FsStore J → Disk J
  with_lines q s = record s.disk { journal = s.disk.journal ++ (s.buffered ++ map J.encode q) }

module _ (J : Json) (c : FsStoreConfig) where
  settle-idle : (o : Outcome J c) (s : FsStore J) → s.phase ≡ idle → settle J c o s ≡ s
  unfolding writer_turn
  settle-idle compacted s h = rw h refl
  settle-idle not_renamed s h = rw h refl
  settle-idle not_truncated s h = rw h refl

  -- The two ways of a write that starts no compaction.
  abbrev buffered_with : JournalEntry J.Raw → FsStore J → FsStore J
  buffered_with e s = record s {
    buffered = s.buffered ++ J.encode e ∷ [];
    entry_count = suc s.entry_count;
  }

  written_once :
      (e : JournalEntry J.Raw) (q : List (JournalEntry J.Raw)) (s : FsStore J)
      → s.phase ≡ idle
      → ltb_ℤ (pos (suc s.entry_count)) c.compact_after ≡ true
      → writer_turn J c write (record s { queue = e ∷ q }) ≡ (
          if eqb_ℤ c.sync_interval (pos 0)
          then flush J (buffered_with e (record s { queue = q }))
          else buffered_with e (record s { queue = q }))
  unfolding writer_turn write_entry write_line flush
  written_once e q s h k = elim (Bool-cases (eqb_ℤ c.sync_interval (pos 0))) [
    | inl t ↦ rw (h, t, k) refl
    | inr f ↦ rw (h, f, k) refl
  ]

  drain-with_lines :
      (outcome : ℕ → Outcome J c) (q : List (JournalEntry J.Raw)) (s : FsStore J)
      → s.phase ≡ idle
      → ltb_ℤ (pos (s.entry_count + length q)) c.compact_after ≡ true
      → (flush J (drain J c outcome q s)).disk ≡ with_lines J q s
  unfolding drain flush
  drain-with_lines outcome [] s h k =
      ap (λ ls. record s.disk { journal = s.disk.journal ++ ls }) (sym (append-nil s.buffered))
  drain-with_lines outcome (e ∷ q) s h k =
      let one = written_once e q s h (below_trans _ _ c.compact_after (omega arith) k) in
      let same : (t : FsStore J) → t.phase ≡ idle → settle J c (outcome (length q)) t ≡ t =
        λ t p. settle-idle (outcome (length q)) t p in
      let left : ltb_ℤ (pos (suc s.entry_count + length q)) c.compact_after ≡ true =
        below_trans _ _ c.compact_after (omega arith) k in
      let line = J.encode e ∷ [] in
      let next = λ (u t : FsStore J) (e1 : u ≡ t) (p : t.phase ≡ idle).
        ap (λ v. (flush J (drain J c outcome q v)).disk)
          (ap (settle J c (outcome (length q))) e1 ∙ same t p) in
      elim (Bool-cases (eqb_ℤ c.sync_interval (pos 0))) [
        | inl t ↦
            let s1 = flush J (buffered_with e (record s { queue = q })) in
            next _ s1 (one ∙ rw t refl) h
            ∙ drain-with_lines outcome q s1 h left
            ∙ ap (λ ls. record s.disk { journal = ls })
                (append_assoc s.disk.journal (s.buffered ++ line) (map J.encode q)
                  ∙ ap (λ ls. s.disk.journal ++ ls) (append_assoc s.buffered line (map J.encode q)))
        | inr f ↦
            let s1 = buffered_with e (record s { queue = q }) in
            next _ s1 (one ∙ rw f refl) h
            ∙ drain-with_lines outcome q s1 h left
            ∙ ap (λ ls. record s.disk { journal = s.disk.journal ++ ls })
                (append_assoc s.buffered line (map J.encode q))
      ]

  -- The files after a close, where no compaction is under way or comes to be due.
  pub close-with_lines :
      (first : Outcome J c) (outcome : ℕ → Outcome J c) (s : FsStore J)
      → s.phase ≡ idle
      → ltb_ℤ (pos (s.entry_count + length s.queue)) c.compact_after ≡ true
      → close J c first outcome s ≡ with_lines J s.queue s
  unfolding close flush
  close-with_lines first outcome s h k =
      rw (settle-idle first s h) (drain-with_lines outcome s.queue s h k)
