-- ===== src/VarDb/Cell.antt =====
-- What a database of l_builtin/src/vardb.rs promises: a cell that holds the variables, in which only
-- the room may be short.
mod Tests
pub mod Calm
pub mod Opened
pub mod Created
pub mod Refinement
pub mod Memory
pub mod Flock
pub mod Contents
use l_builtin.Base.{
  ℕ, Option, none, some, List, [], ◌∷◌, Bool, true, false, Bytes, length, ok, err, Outcome,
  if◌then◌else◌, leb,
}
use l_builtin.VarDb.{DatabaseRepr, Rkyv}
use l_builtin.VarDb.File.{input_output_error}
use l_builtin.VarDb.Region.{out_of_memory}

-- The variables, and the room for their bytes where it is bounded.
pub record Cell : Type 0 where
  pub value : DatabaseRepr
  pub room : Option ℕ

abbrev pub has_room : Option ℕ → ℕ → Bool
has_room none n = true
has_room (some room) n = leb n room

abbrev pub stored : Cell → DatabaseRepr → Option Bytes → Outcome (Unit {0}) × Cell
stored cell value none = (err input_output_error, cell)
stored cell value (some bytes) =
    if has_room cell.room (length bytes)
    then (ok tt, record cell { value = value })
    else (err out_of_memory, cell)

-- A use of the database. A fork is the process going on in its child, which has another number.
pub data Use : Type 0 where
  read : Use
  write : (DatabaseRepr → DatabaseRepr) → Use
  fork : ℕ → Use

pub data Reply : Type 0 where
  contents : DatabaseRepr → Reply
  done : Reply
  failed : ℕ → Reply

abbrev pub written_reply : Outcome (Unit {0}) → Reply
written_reply (ok u) = Reply.done
written_reply (err code) = Reply.failed code

abbrev pub read_reply : Outcome DatabaseRepr → Reply
read_reply (ok repr) = Reply.contents repr
read_reply (err code) = Reply.failed code

module _ (rkyv : Rkyv) where
  abbrev pub after_write : Outcome (Unit {0}) × Cell → Reply × Cell
  after_write (result, cell) = (written_reply result, cell)

  abbrev pub use_cell : Use → Cell → Reply × Cell
  use_cell Use.read cell = (Reply.contents cell.value, cell)
  use_cell (Use.write f) cell =
      after_write (stored cell (f cell.value) (rkyv.to_bytes (f cell.value)))
  use_cell (Use.fork pid) cell = (Reply.done, cell)

  unfoldable pub use_cells : List Use → Cell → List Reply
  use_cells [] cell = []
  use_cells (call ∷ calls) cell = let r = use_cell call cell in r.0 ∷ use_cells calls r.1
