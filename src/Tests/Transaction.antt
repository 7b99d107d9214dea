-- ===== src/Tests/Transaction.antt =====
-- Transactions at concrete inputs.
use cypher_lite.Prelude.{◌≡◌, ◌↔◌, ◌≤◌, refl, true, false, some, [], ◌∷◌, ◌++◌, arith}
use cypher_lite.Core.{transaction_conflict}
use cypher_lite.Core.Result.{err}
use cypher_lite.OrdMap
use cypher_lite.Wal.Format.{new_frame}
use cypher_lite.Wal.Reader.{with_snapshot, index_frame, read_page, supersedes}
use cypher_lite.Wal.Reader.Latest.{index_frames}
use cypher_lite.Wal.Reader.Snapshot.{begin_read-isolated}
use cypher_lite.Transaction.{
  TransactionManager, WriteTransaction, new_manager, take_tx_id, begin_read, begin_write,
}
use cypher_lite.Transaction.Steps.{
  System, reader, writer, Reached, starts, continues, reads, writes, IsExclusive, writer_count,
}
use cypher_lite.Transaction.Exclusive.{Reached-IsExclusive, begin_write-conflict}
use cypher_lite.Tests.Wal.{blank}

-- One reader, then one writer.
abbrev one_reader : System
one_reader = record {
  manager = (begin_read new_manager).1;
  live = reader (begin_read new_manager).0 ∷ [];
}

abbrev first_writer : WriteTransaction
first_writer = record { tx_id = 2; snapshot_frame = 0; committed = false; guard = true }

abbrev busy : TransactionManager
busy = record { current_frame = 0; locked = true; next_tx_id = 3 }

abbrev both : System
both = record { manager = busy; live = writer first_writer ∷ one_reader.live }

both-Reached : Reached both
unfolding begin_read begin_write new_manager take_tx_id
both-Reached =
    continues one_reader both (continues _ one_reader starts (reads new_manager [] (omega arith)))
      (writes (begin_read new_manager).1 busy one_reader.live first_writer (omega arith) refl)

Reached-IsExclusive_example : IsExclusive both
Reached-IsExclusive_example = Reached-IsExclusive both both-Reached

begin_write-conflict_example :
    (begin_write busy ≡ (err transaction_conflict, busy)) ↔ (1 ≤ writer_count both.live)
begin_write-conflict_example = begin_write-conflict both both-Reached

-- Two frames are committed, and then a third.
abbrev at_two : TransactionManager
at_two = record new_manager { current_frame = 2 }

begin_read-isolated_example :
    index_frames
      (with_snapshot (begin_read at_two).0.snapshot_frame)
      ((new_frame 2 7 6 1 blank ∷ []) ++ (new_frame 3 7 6 1 blank ∷ []))
    ≡ index_frames
        (with_snapshot (begin_read at_two).0.snapshot_frame)
        (new_frame 2 7 6 1 blank ∷ [])
unfolding new_frame
begin_read-isolated_example =
    begin_read-isolated at_two (new_frame 2 7 6 1 blank ∷ []) (new_frame 3 7 6 1 blank ∷ [])
      (λ e. absurd (omega arith)) (omega arith, tt)

-- A transaction begins when no frame is committed, and a reader at its snapshot shows frame 3 all the
-- same.
begin_read_sees_later :
    read_page
      (index_frame
        (with_snapshot (begin_read new_manager).0.snapshot_frame)
        (new_frame 3 7 6 1 (9 ∷ [])))
      7
    ≡ some (9 ∷ [])
unfolding begin_read new_manager index_frame read_page supersedes new_frame OrdMap.get OrdMap.insert
begin_read_sees_later = refl
