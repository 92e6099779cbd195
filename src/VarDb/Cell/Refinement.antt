-- ===== src/VarDb/Cell/Refinement.antt =====
-- l_builtin/src/vardb.rs: whichever backing a database has, its users see a cell.
use l_builtin.Base.{
  ℕ, ◌+◌, ◌-◌, ◌≡◌, ◌≤◌, ◌<◌, ◌^◌, refl, ap, sym, none, some, List, [], ◌∷◌, Bytes, ok, err,
  Outcome, length, leb, Bool-cases, Option-cases, inl, inr, arith,
}
use mathlib.Core.Path.{subst}
use l_builtin.VarDb.{DatabaseRepr, Rkyv, RkyvLaws}
use l_builtin.VarDb.File.{input_output_error}
use l_builtin.VarDb.Region.{read_blob_from_mem, write_blob_to_mem, out_of_memory}
use l_builtin.VarDb.Header.{HasMagic}
use l_builtin.VarDb.Stored.{final}
use l_builtin.VarDb.Trip.{write_blob_to_mem-read}
use l_builtin.VarDb.Os.{Os}
use l_builtin.VarDb.Backend.{DbPath, FlockBackend, MemfdBackend, MmapBackend}
use l_builtin.VarDb.Database.{LockedDatabase, read, with_write}
use l_builtin.VarDb.Cell.{
  Cell, Use, Reply, read_reply, written_reply, use_cell, use_cells, stored, after_write,
}
use l_builtin.VarDb.Cell.Calm.{FileHas, RegionHas}
use l_builtin.VarDb.Cell.Contents.{
  both, Shows, Shows-written, write_blob_at-calm, unserialized, HasMagic-final,
}
use l_builtin.VarDb.Cell.Flock.{IsFlockPath, On, read-Gives, with_write-Gives}
use l_builtin.VarDb.Cell.Memory.{
  memfd_read-Gives, memfd_write-Gives, mmap_read-Gives, mmap_write-Gives,
}

module _ (rwlock_size : ℕ) (rkyv : Rkyv) where
  abbrev pub read_to_reply :
      Outcome DatabaseRepr × (LockedDatabase × Os) → Reply × (LockedDatabase × Os)
  read_to_reply (result, s) = (read_reply result, s)

  abbrev pub write_to_reply :
      Outcome (Unit {0}) × (LockedDatabase × Os) → Reply × (LockedDatabase × Os)
  write_to_reply (result, s) = (written_reply result, s)

  abbrev pub forked : ℕ → LockedDatabase × Os → LockedDatabase × Os
  forked pid (db, os) = (db, record os { pid = pid })

  abbrev pub use_database : Use → LockedDatabase × Os → Reply × (LockedDatabase × Os)
  use_database Use.read s = read_to_reply (read rwlock_size rkyv s)
  use_database (Use.write f) s = write_to_reply (with_write rwlock_size rkyv f s)
  use_database (Use.fork pid) s = (Reply.done, forked pid s)

  unfoldable pub use_databases : List Use → LockedDatabase × Os → List Reply
  use_databases [] s = []
  use_databases (call ∷ calls) s = let r = use_database call s in r.0 ∷ use_databases calls r.1

  -- The system is calm, the database is open, and what its blob holds is what the cell does. An open
  -- file has its header, and its name leads to it; a region is smaller than half the address space.
  abbrev pub Represents : LockedDatabase × Os → Cell → Type 0
  Represents (LockedDatabase.flock b, os) cell =
      (path : DbPath) × (inode : ℕ) × (content : Bytes) × (IsFlockPath path)
      × (HasMagic content)
      × (Shows rkyv 32 content cell.value)
      × (On path inode content (b, os))
      × (cell.room ≡ none)
  Represents (LockedDatabase.memfd b, os) cell =
      (content : Bytes) × (Shows rkyv rwlock_size content cell.value)
      × (FileHas (DbPath.mem b.name) b.inode content os)
      × (cell.room ≡ none)
  Represents (LockedDatabase.mmap b, os) cell =
      (mem : Bytes) × (read_blob_from_mem rkyv b.len_offset mem ≡ (ok cell.value, mem))
      × (RegionHas b.region mem os)
      × (b.len_offset + 8 ≤ length mem)
      × (length mem < 2 ^ 63)
      × (cell.room ≡ some (length mem - (b.len_offset + 8)))

  unstored :
      (len_offset : ℕ) (mem : Bytes) (repr : DatabaseRepr)
      → rkyv.to_bytes repr ≡ none
      → write_blob_to_mem rkyv repr len_offset mem ≡ (err input_output_error, mem)
  unfolding write_blob_to_mem
  unstored len_offset mem repr e = rw e refl

  module _ (laws : RkyvLaws rkyv) where
    abbrev pub Agree : Reply × (LockedDatabase × Os) → Reply × Cell → Type 0
    Agree r c = (r.0 ≡ c.0) × Represents r.1 c.1

    reads_alike :
        (s : LockedDatabase × Os) (cell : Cell)
        → Represents s cell
        → Agree (use_database Use.read s) (use_cell rkyv Use.read cell)
    unfolding read
    reads_alike (LockedDatabase.flock b, os) cell
          (path, inode, content, h, magic_kept, shows, on, room) =
        let r =
          (read-Gives rkyv path inode content h magic_kept cell.value shows).apply (b, os) on in
        (ap read_reply r.0, (path, inode, content, h, magic_kept, shows, r.1, room))
    reads_alike (LockedDatabase.memfd b, os) cell (content, shows, has, room) =
        let r =
          (memfd_read-Gives rwlock_size rkyv (DbPath.mem b.name) b content cell.value shows).apply
            os has in
        (ap read_reply r.0, (content, shows, r.1, room))
    reads_alike (LockedDatabase.mmap b, os) cell (mem, shows, has, inside, small, room) =
        let r = (mmap_read-Gives rwlock_size rkyv b mem cell.value shows).apply os has in
        (ap read_reply r.0, (mem, shows, r.1, inside, small, room))

    module _ (f : DatabaseRepr → DatabaseRepr) where
      Alike : LockedDatabase × Os → Cell → Type 0
      Alike s cell = Agree (use_database (Use.write f) s) (use_cell rkyv (Use.write f) cell)

      as_stored :
          (s : LockedDatabase × Os) (cell : Cell) (x : Outcome (Unit {0}) × Cell)
          → stored cell (f cell.value) (rkyv.to_bytes (f cell.value)) ≡ x
          → Agree (use_database (Use.write f) s) (after_write rkyv x)
          → Alike s cell
      unfolding Alike
      as_stored s cell x e =
          subst (λ y. Agree (use_database (Use.write f) s) (after_write rkyv y)) (sym e)

      flock_writes-Alike :
          (b : FlockBackend) (os : Os) (cell : Cell)
          → Represents (LockedDatabase.flock b, os) cell
          → Alike (LockedDatabase.flock b, os) cell
      unfolding with_write Alike
      flock_writes-Alike b os cell (path, inode, content, h, magic_kept, shows, on, room) =
          elim (Option-cases (rkyv.to_bytes (f cell.value))) [
            | inl e ↦
                let gives =
                  with_write-Gives rkyv path inode content h magic_kept cell.value shows f content
                    (err input_output_error) (unserialized rkyv 32 content (f cell.value) e) in
                let r = gives.apply (b, os) on in
                rw e (ap written_reply r.0, (path, inode, content, h, magic_kept, shows, r.1, room))
            | inr (bytes, e) ↦
                let gives =
                  with_write-Gives rkyv path inode content h magic_kept cell.value shows f
                    (final content bytes 32) (ok tt)
                    (write_blob_at-calm rkyv 32 content bytes (f cell.value) e) in
                let r = gives.apply (b, os) on in
                rw (e, room)
                  (
                    ap written_reply r.0,
                    (
                      path,
                      inode,
                      final content bytes 32,
                      h,
                      HasMagic-final content bytes magic_kept,
                      Shows-written rkyv laws 32 content bytes (f cell.value) e,
                      r.1,
                      refl,
                    ),
                  )
          ]

      memfd_writes-Alike :
          (b : MemfdBackend) (os : Os) (cell : Cell)
          → Represents (LockedDatabase.memfd b, os) cell
          → Alike (LockedDatabase.memfd b, os) cell
      unfolding with_write Alike
      memfd_writes-Alike b os cell (content, shows, has, room) =
          elim (Option-cases (rkyv.to_bytes (f cell.value))) [
            | inl e ↦
                let gives =
                  memfd_write-Gives rwlock_size rkyv (DbPath.mem b.name) b content cell.value shows
                    f content (err input_output_error)
                    (unserialized rkyv rwlock_size content (f cell.value) e) in
                let r = gives.apply os has in
                rw e (ap written_reply r.0, (content, shows, r.1, room))
            | inr (bytes, e) ↦
                let gives =
                  memfd_write-Gives rwlock_size rkyv (DbPath.mem b.name) b content cell.value shows
                    f (final content bytes rwlock_size) (ok tt)
                    (write_blob_at-calm rkyv rwlock_size content bytes (f cell.value) e) in
                let r = gives.apply os has in
                rw (e, room)
                  (
                    ap written_reply r.0,
                    (
                      final content bytes rwlock_size,
                      Shows-written rkyv laws rwlock_size content bytes (f cell.value) e,
                      r.1,
                      refl,
                    ),
                  )
          ]

      mmap_writes-Alike :
          (b : MmapBackend) (os : Os) (cell : Cell)
          → Represents (LockedDatabase.mmap b, os) cell
          → Alike (LockedDatabase.mmap b, os) cell
      unfolding with_write Alike
      mmap_writes-Alike b os cell (mem, shows, has, inside, small, room) =
          let gives = mmap_write-Gives rwlock_size rkyv b mem cell.value shows f in
          elim (Option-cases (rkyv.to_bytes (f cell.value))) [
            | inl e ↦
                let r =
                  (gives mem (err input_output_error)
                      (unstored b.len_offset mem (f cell.value) e)).apply
                    os has in
                rw e (ap written_reply r.0, (mem, shows, r.1, inside, small, room))
            | inr (bytes, e) ↦
                let trip =
                  write_blob_to_mem-read rkyv laws (f cell.value) bytes mem b.len_offset e small in
                elim (Bool-cases (leb (length bytes) (length mem - (b.len_offset + 8)))) [
                  | inl fits ↦
                      let t = trip.0 (ground arith) in
                      let w = write_blob_to_mem rkyv (f cell.value) b.len_offset mem in
                      let r = (gives w.1 (ok tt) (both w t.0 refl)).apply os has in
                      as_stored (LockedDatabase.mmap b, os) cell
                        (ok tt, record cell { value = f cell.value }) (rw (e, room, fits) refl)
                        (
                          ap written_reply r.0,
                          (w.1, t.2, r.1, rw t.1 inside, rw t.1 small, rw t.1 room),
                        )
                  | inr big ↦
                      let r =
                        (gives mem (err out_of_memory) (trip.1 (ground arith))).apply os has in
                      as_stored (LockedDatabase.mmap b, os) cell (err out_of_memory, cell)
                        (rw (e, room, big) refl)
                        (ap written_reply r.0, (mem, shows, r.1, inside, small, room))
                ]
          ]

    pub uses_alike :
        (call : Use) (s : LockedDatabase × Os) (cell : Cell)
        → Represents s cell
        → Agree (use_database call s) (use_cell rkyv call cell)
    unfolding Alike
    uses_alike Use.read s cell h = reads_alike s cell h
    uses_alike (Use.write f) (LockedDatabase.flock b, os) cell h = flock_writes-Alike f b os cell h
    uses_alike (Use.write f) (LockedDatabase.memfd b, os) cell h = memfd_writes-Alike f b os cell h
    uses_alike (Use.write f) (LockedDatabase.mmap b, os) cell h = mmap_writes-Alike f b os cell h
    uses_alike (Use.fork pid) (LockedDatabase.flock b, os) cell h = (refl, h)
    uses_alike (Use.fork pid) (LockedDatabase.memfd b, os) cell h = (refl, h)
    uses_alike (Use.fork pid) (LockedDatabase.mmap b, os) cell h = (refl, h)

    -- On a calm system, where `flock` may still be interrupted, an open database replies to any reads,
    -- writes and forks as the cell it represents: reads give the last value that was written, a write
    -- that does not fit into a region or cannot be serialized is refused and leaves the value. The
    -- serializer keeps to its laws.
    pub use_databases-use_cells :
        (calls : List Use) (s : LockedDatabase × Os) (cell : Cell)
        → Represents s cell
        → use_databases calls s ≡ use_cells rkyv calls cell
    unfolding use_databases use_cells
    use_databases-use_cells [] s cell h = refl
    use_databases-use_cells (call ∷ calls) s cell h =
        let r = uses_alike call s cell h in
        let rest =
          use_databases-use_cells calls (use_database call s).1 (use_cell rkyv call cell).1 r.1 in
        rw (r.0, rest) refl
