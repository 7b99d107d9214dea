-- ===== src/Transaction/Steps.antt =====
-- The transactions that live at the same time, as steps in any order, and what is claimed of them.
use cypher_lite.Prelude.{ℕ, ◌+◌, ◌<◌, ◌≡◌, true, List, [], ◌∷◌, ◌++◌, u64_mod, if◌then◌else◌}
use cypher_lite.Core.{CypherLiteError}
use cypher_lite.Core.Result.{ok, err}
use cypher_lite.Transaction.{
  TransactionManager, ReadTransaction, WriteTransaction, new_manager, begin_read, begin_write,
  commit, release, update_current_frame,
}

-- A transaction that has begun and not ended.
pub data Live : Type 0 where
  reader : ReadTransaction → Live
  writer : WriteTransaction → Live

-- The newest transaction comes first.
pub record System : Type 0 where
  pub manager : TransactionManager
  pub live : List Live

-- Whatever the threads do, it is a sequence of these steps. A transaction begins while there are ids.
pub data Step : System → System → Type 0 where
  reads :
      (m : TransactionManager) (live : List Live)
      → m.next_tx_id + 1 < u64_mod
      → Step
          (record { manager = m; live = live })
          (record { manager = (begin_read m).1; live = reader (begin_read m).0 ∷ live })
  writes :
      (m m' : TransactionManager) (live : List Live) (tx : WriteTransaction)
      → m.next_tx_id + 1 < u64_mod
      → begin_write m ≡ (ok tx, m')
      → Step
          (record { manager = m; live = live })
          (record { manager = m'; live = writer tx ∷ live })
  conflicts :
      (m m' : TransactionManager) (live : List Live) (e : CypherLiteError)
      → begin_write m ≡ (err e, m')
      → Step (record { manager = m; live = live }) (record { manager = m'; live = live })
  commits :
      (m : TransactionManager) (before after : List Live) (tx : WriteTransaction) (frame : ℕ)
      → Step
          (record { manager = m; live = before ++ (writer tx ∷ after) })
          (record {
            manager = (commit tx m frame).1;
            live = before ++ (writer (commit tx m frame).0 ∷ after);
          })
  ends_write :
      (m : TransactionManager) (before after : List Live) (tx : WriteTransaction)
      → Step
          (record { manager = m; live = before ++ (writer tx ∷ after) })
          (record { manager = release tx m; live = before ++ after })
  ends_read :
      (m : TransactionManager) (before after : List Live) (tx : ReadTransaction)
      → Step
          (record { manager = m; live = before ++ (reader tx ∷ after) })
          (record { manager = m; live = before ++ after })
  advances :
      (m : TransactionManager) (live : List Live) (frame : ℕ)
      → Step
          (record { manager = m; live = live })
          (record { manager = update_current_frame m frame; live = live })

pub data Reached : System → Type 0 where
  starts : Reached (record { manager = new_manager; live = [] })
  continues : (s t : System) → Reached s → Step s t → Reached t

abbrev pub id_of : Live → ℕ
id_of (reader tx) = tx.tx_id
id_of (writer tx) = tx.tx_id

-- The ids decrease strictly from `n`, so that no two are the same.
unfoldable pub Descends : ℕ → List Live → Type 0
Descends n [] = Unit
Descends n (x ∷ xs) = (id_of x < n) × Descends (id_of x) xs

unfoldable pub writer_count : List Live → ℕ
writer_count [] = 0
writer_count (reader tx ∷ xs) = writer_count xs
writer_count (writer tx ∷ xs) = 1 + writer_count xs

-- Every writer has the lock.
unfoldable pub Guarded : List Live → Type 0
Guarded [] = Unit
Guarded (reader tx ∷ xs) = Guarded xs
Guarded (writer tx ∷ xs) = (tx.guard ≡ true) × Guarded xs

pub record IsExclusive (s : System) : Type 0 where
  pub ids : Descends s.manager.next_tx_id s.live
  pub writers : writer_count s.live ≡ (if s.manager.locked then 1 else 0)
  pub guarded : Guarded s.live
