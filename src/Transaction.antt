-- ===== src/Transaction.antt =====
-- crates/cypherlite-storage/src/transaction/mvcc.rs: snapshots of the log, and the one writer.
pub mod Steps
pub mod Exclusive
use cypher_lite.Prelude.{ℕ, Bool, true, false, if◌then◌else◌, add_u64}
use cypher_lite.Core.{transaction_conflict}
use cypher_lite.Core.Result.{Result, ok, err}

-- What the manager and its transactions share: `locked` is the state of the mutex.
pub record TransactionManager : Type 0 where
  pub current_frame : ℕ
  pub locked : Bool
  pub next_tx_id : ℕ

pub record ReadTransaction : Type 0 where
  pub tx_id : ℕ
  pub snapshot_frame : ℕ

-- `guard` is whether `_guard` holds the lock.
pub record WriteTransaction : Type 0 where
  pub tx_id : ℕ
  pub snapshot_frame : ℕ
  pub committed : Bool
  pub guard : Bool

unfoldable pub new_manager : TransactionManager
new_manager = record { current_frame = 0; locked = false; next_tx_id = 1 }

-- `fetch_add` wraps around.
unfoldable pub take_tx_id : TransactionManager → TransactionManager
take_tx_id m = record m { next_tx_id = add_u64 m.next_tx_id 1 }

unfoldable pub begin_read : TransactionManager → ReadTransaction × TransactionManager
begin_read m = (record { tx_id = m.next_tx_id; snapshot_frame = m.current_frame }, take_tx_id m)

unfoldable pub begin_write : TransactionManager → Result WriteTransaction × TransactionManager
unfolding take_tx_id
begin_write m = if m.locked then (err transaction_conflict, m) else (
  ok (record {
    tx_id = m.next_tx_id;
    snapshot_frame = m.current_frame;
    committed = false;
    guard = true;
  }),
  record (take_tx_id m) { locked = true },
)

unfoldable pub update_current_frame : TransactionManager → ℕ → TransactionManager
update_current_frame m frame = record m { current_frame = frame }

unfoldable pub commit :
    WriteTransaction → TransactionManager → ℕ → WriteTransaction × TransactionManager
unfolding update_current_frame
commit tx m new_frame = (record tx { committed = true }, update_current_frame m new_frame)

-- The guard, if it is there, releases the lock when it goes: `rollback` takes it, and so does the end
-- of the transaction's life.
unfoldable pub release : WriteTransaction → TransactionManager → TransactionManager
release tx m = record m { locked = if tx.guard then false else m.locked }

abbrev pub rollback : WriteTransaction → TransactionManager → TransactionManager
rollback = release
