-- ===== src/Transaction/Exclusive.antt =====
-- At most one transaction writes, and no two have the same id.
use cypher_lite.Prelude.{
  ℕ, ◌+◌, ◌≤◌, ◌<◌, ◌≡◌, ◌↔◌, ◌⊎◌, inl, inr, refl, sym, ◌∙◌, subst, true, false, List, [], ◌∷◌,
  ◌++◌, arith, u64_mod, Bool-cases, if◌then◌else◌,
}
use cypher_lite.Core.{transaction_conflict}
use cypher_lite.Core.Result.{Result, ok, err, panic}
use cypher_lite.Transaction.{
  TransactionManager, ReadTransaction, WriteTransaction, new_manager, take_tx_id, begin_read,
  begin_write, commit, release, update_current_frame,
}
use cypher_lite.Transaction.Steps.{
  Live, reader, writer, System, Step, reads, writes, conflicts, commits, ends_write, ends_read,
  advances, Reached, starts, continues, id_of, Descends, writer_count, Guarded, IsExclusive,
}

Descends-mono : (a b : ℕ) (xs : List Live) → a ≤ b → Descends a xs → Descends b xs
unfolding Descends
Descends-mono a b [] le d = tt
Descends-mono a b (x ∷ xs) le d = (omega arith, d.1)

-- A transaction that ends, or that is replaced by one of the same id.
Descends-remove :
    (n : ℕ) (before after : List Live) (x : Live)
    → Descends n (before ++ (x ∷ after))
    → Descends n (before ++ after)
unfolding Descends
Descends-remove n [] after x d = Descends-mono (id_of x) n after (omega arith) d.1
Descends-remove n (b ∷ before) after x d = (d.0, Descends-remove (id_of b) before after x d.1)

Descends-replace :
    (n : ℕ) (before after : List Live) (x y : Live)
    → id_of y ≡ id_of x
    → Descends n (before ++ (x ∷ after))
    → Descends n (before ++ (y ∷ after))
unfolding Descends
Descends-replace n [] after x y e d =
    (omega arith, Descends-mono (id_of x) (id_of y) after (omega arith) d.1)
Descends-replace n (b ∷ before) after x y e d =
    (d.0, Descends-replace (id_of b) before after x y e d.1)

writer_count-reader :
    (before after : List Live) (tx : ReadTransaction)
    → writer_count (before ++ (reader tx ∷ after)) ≡ writer_count (before ++ after)
unfolding writer_count
writer_count-reader [] after tx = refl
writer_count-reader (reader b ∷ before) after tx = writer_count-reader before after tx
writer_count-reader (writer b ∷ before) after tx =
    omega (arith, writer_count-reader before after tx)

writer_count-writer :
    (before after : List Live) (tx : WriteTransaction)
    → writer_count (before ++ (writer tx ∷ after)) ≡ 1 + writer_count (before ++ after)
unfolding writer_count
writer_count-writer [] after tx = refl
writer_count-writer (reader b ∷ before) after tx = writer_count-writer before after tx
writer_count-writer (writer b ∷ before) after tx =
    omega (arith, writer_count-writer before after tx)

Guarded-remove :
    (before after : List Live) (x : Live)
    → Guarded (before ++ (x ∷ after))
    → Guarded (before ++ after)
unfolding Guarded
Guarded-remove [] after (reader tx) g = g
Guarded-remove [] after (writer tx) g = g.1
Guarded-remove (reader b ∷ before) after x g = Guarded-remove before after x g
Guarded-remove (writer b ∷ before) after x g = (g.0, Guarded-remove before after x g.1)

Guarded-writer :
    (before after : List Live) (tx : WriteTransaction)
    → Guarded (before ++ (writer tx ∷ after))
    → tx.guard ≡ true
unfolding Guarded
Guarded-writer [] after tx g = g.0
Guarded-writer (reader b ∷ before) after tx g = Guarded-writer before after tx g
Guarded-writer (writer b ∷ before) after tx g = Guarded-writer before after tx g.1

Guarded-replace :
    (before after : List Live) (x y : WriteTransaction)
    → y.guard ≡ true
    → Guarded (before ++ (writer x ∷ after))
    → Guarded (before ++ (writer y ∷ after))
unfolding Guarded
Guarded-replace [] after x y e g = (e, g.1)
Guarded-replace (reader b ∷ before) after x y e g = Guarded-replace before after x y e g
Guarded-replace (writer b ∷ before) after x y e g = (g.0, Guarded-replace before after x y e g.1)

-- Both outcomes of `begin_write`.
begin_write-cases :
    (m : TransactionManager)
    → ((m.locked ≡ true) × (begin_write m ≡ (err transaction_conflict, m)))
      ⊎ ((m.locked ≡ false)
          × (begin_write m ≡ (
            ok (record {
              tx_id = m.next_tx_id;
              snapshot_frame = m.current_frame;
              committed = false;
              guard = true;
            }),
            record (take_tx_id m) { locked = true },
          )))
unfolding begin_write
begin_write-cases m = elim (Bool-cases m.locked) [
  | inl held ↦ inl (held, rw held refl)
  | inr free ↦ inr (free, rw free refl)
]

begin_read-IsExclusive :
    (m : TransactionManager) (live : List Live)
    → m.next_tx_id + 1 < u64_mod
    → IsExclusive (record { manager = m; live = live })
    → IsExclusive (record { manager = (begin_read m).1; live = reader (begin_read m).0 ∷ live })
unfolding begin_read take_tx_id Descends writer_count Guarded
begin_read-IsExclusive m live room good = record {
  ids = (omega arith, good.ids);
  writers = good.writers;
  guarded = good.guarded;
}

-- What each outcome of `begin_write` leaves.
AfterBegin : List Live → Result WriteTransaction × TransactionManager → Type 0
AfterBegin live (ok tx, m) = IsExclusive (record { manager = m; live = writer tx ∷ live })
AfterBegin live (err e, m) = IsExclusive (record { manager = m; live = live })
AfterBegin live (panic, m) = Unit

begin_write-IsExclusive :
    (m : TransactionManager) (live : List Live)
    → m.next_tx_id + 1 < u64_mod
    → IsExclusive (record { manager = m; live = live })
    → AfterBegin live (begin_write m)
unfolding AfterBegin take_tx_id Descends writer_count Guarded
begin_write-IsExclusive m live room good = elim (begin_write-cases m) [
  | inl (held, refused) ↦ subst (AfterBegin live) (sym refused) good
  | inr (free, begun) ↦
      let all : writer_count live ≡ (if m.locked then 1 else 0) = good.writers in
      let no_writer : writer_count live ≡ 0 = ground arith in
      subst (AfterBegin live) (sym begun) (record {
        ids = (omega arith, good.ids);
        writers = omega arith;
        guarded = (refl, good.guarded);
      })
]

release-IsExclusive :
    (m : TransactionManager) (before after : List Live) (tx : WriteTransaction)
    → IsExclusive (record { manager = m; live = before ++ (writer tx ∷ after) })
    → IsExclusive (record { manager = release tx m; live = before ++ after })
unfolding release
release-IsExclusive m before after tx good =
    let guard = Guarded-writer before after tx good.guarded in
    let count = writer_count-writer before after tx in
    let all = good.writers in
    record {
      ids = Descends-remove m.next_tx_id before after (writer tx) good.ids;
      writers = rw guard (ground arith);
      guarded = Guarded-remove before after (writer tx) good.guarded;
    }

-- A commit keeps the id and the guard.
commit-IsExclusive :
    (m : TransactionManager) (before after : List Live) (tx : WriteTransaction) (frame : ℕ)
    → IsExclusive (record { manager = m; live = before ++ (writer tx ∷ after) })
    → IsExclusive (record {
      manager = (commit tx m frame).1;
      live = before ++ (writer (commit tx m frame).0 ∷ after);
    })
unfolding commit update_current_frame
commit-IsExclusive m before after tx frame good =
    let done : WriteTransaction = record tx { committed = true } in
    let guard = Guarded-writer before after tx good.guarded in
    record {
      ids = Descends-replace m.next_tx_id before after (writer tx) (writer done) refl good.ids;
      writers =
          writer_count-writer before after done
          ∙ (sym (writer_count-writer before after tx) ∙ good.writers);
      guarded = Guarded-replace before after tx done guard good.guarded;
    }

pub Step-IsExclusive : (s t : System) → Step s t → IsExclusive s → IsExclusive t
Step-IsExclusive _ _ (reads m live room) good = begin_read-IsExclusive m live room good
Step-IsExclusive _ _ (writes m m' live tx room e) good =
    unfold AfterBegin in subst (AfterBegin live) e (begin_write-IsExclusive m live room good)
Step-IsExclusive _ _ (conflicts m m' live error e) good =
    unfold AfterBegin in
    elim (begin_write-cases m) [
      | inl (held, refused) ↦ subst (AfterBegin live) (sym refused ∙ e) good
      | inr (free, begun) ↦ let clash = sym begun ∙ e in cc
    ]
Step-IsExclusive _ _ (commits m before after tx frame) good =
    commit-IsExclusive m before after tx frame good
Step-IsExclusive _ _ (ends_write m before after tx) good =
    release-IsExclusive m before after tx good
Step-IsExclusive _ _ (ends_read m before after tx) good = record {
  ids = Descends-remove m.next_tx_id before after (reader tx) good.ids;
  writers = sym (writer_count-reader before after tx) ∙ good.writers;
  guarded = Guarded-remove before after (reader tx) good.guarded;
}
Step-IsExclusive _ _ (advances m live frame) good =
    unfold update_current_frame in
    record { ids = good.ids; writers = good.writers; guarded = good.guarded }

-- In every system that can be reached, the ids of the live transactions are below the next one and
-- all different, and at most one transaction writes, exactly while the lock is held.
pub Reached-IsExclusive : (s : System) → Reached s → IsExclusive s
Reached-IsExclusive _ starts =
    unfold new_manager Descends writer_count Guarded in
    record { ids = tt; writers = refl; guarded = tt }
Reached-IsExclusive t (continues s _ before step) =
    Step-IsExclusive s t step (Reached-IsExclusive s before)

-- A writer is turned away exactly while another one lives.
pub begin_write-conflict :
    (s : System)
    → Reached s
    → (begin_write s.manager ≡ (err transaction_conflict, s.manager)) ↔ (1 ≤ writer_count s.live)
begin_write-conflict s reached =
    let all : writer_count s.live ≡ (if s.manager.locked then 1 else 0) =
      (Reached-IsExclusive s reached).writers in
    elim (begin_write-cases s.manager) [
      | inl (held, refused) ↦ ((λ e. ground arith), (λ lives. refused))
      | inr (free, begun) ↦
          ((λ e. let clash = sym begun ∙ e in cc), (λ lives. absurd (ground arith)))
    ]
