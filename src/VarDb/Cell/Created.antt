-- ===== src/VarDb/Cell/Created.antt =====
-- l_builtin/src/vardb.rs: memory that was just opened on a calm system holds no blob.
use l_builtin.Base.{
  ◌∙◌, ◌>>◌, ℕ, zero, suc, ◌+◌, ◌-◌, ◌≡◌, ◌≤◌, ◌<◌, ◌^◌, ◌∙◌, refl, ap, none, [], ◌∷◌, Bytes, ok,
  err, Outcome, length, leb, ltb, Bool-cases, inl, inr, arith, replicate, take, drop, succeed,
  length-replicate, length-take, if◌then◌else◌, ◌==◌, true, false,
}
use l_builtin.Base.Assoc.{bytes_key, id_key}
use l_builtin.Base.Hoare.{Gives, gives_then}
use l_builtin.VarDb.{Rkyv, default_repr}
use l_builtin.VarDb.File.{len, set_len, resized}
use l_builtin.VarDb.Blob.{read_blob_into, read_blob_at}
use l_builtin.VarDb.Region.{read_blob_from_mem, from_ne_bytes}
use l_builtin.VarDb.Os.{Os, may_fail, memfd_create, mmap_anonymous, open_inode}
use l_builtin.VarDb.Lock.{init_pshared_rwlock, as_last_error}
use l_builtin.VarDb.Backend.{DbPath, MemfdBackend, MmapBackend, memfd_create_fd, anon_mmap}
use l_builtin.VarDb.Backend.Memfd.{long_enough}
use l_builtin.VarDb.Backend.Memfd
use l_builtin.VarDb.Backend.Mmap
use l_builtin.VarDb.Cell.Calm.{
  FileHas, RegionHas, IsCalm, may_fail-Gives, on_file-Gives, get-put_same,
}
use l_builtin.VarDb.Cell.Contents.{Shows}

abbrev pub nuls : ℕ → Bytes
nuls n = replicate n 0

-- The rwlock of a database is initialised without an error.
init_pshared_rwlock-Gives :
    (before : Os → Type 0)
    → ((os : Os) → before os → os.faults ≡ [])
    → Gives before init_pshared_rwlock (ok tt) before
unfolding init_pshared_rwlock
init_pshared_rwlock-Gives before calm =
    let one = may_fail-Gives before calm in
    let plain = set_errno before one in
    gives_then (λ _. (λ os. as_last_error (may_fail os)) >> may_fail) tt plain
      (gives_then (λ _. may_fail) tt plain one)
  where
    set_errno :
        (before : Os → Type 0)
        → Gives before may_fail (ok tt) before
        → Gives before (λ os. as_last_error (may_fail os)) (ok tt) before
    set_errno before one = record {
      apply = λ os h. let r = one.apply os h in go (may_fail os) r.0 r.1;
    }
      where
        go :
            (x : Outcome (Unit {0}) × Os)
            → x.0 ≡ ok tt
            → before x.1
            → ((as_last_error x).0 ≡ ok tt) × before (as_last_error x).1
        go (ok u, os) e h = (e, h)
        go (err code, os) e h = cc

-- The next inode, and a calm system
abbrev pub IsNext : ℕ → Os → Type 0
IsNext n os = (os.next_inode ≡ n) × IsCalm os

memfd_create-Gives :
    (name : Bytes) (n : ℕ) → Gives (IsNext n) memfd_create (ok n) (FileHas (DbPath.mem name) n [])
unfolding memfd_create
memfd_create-Gives name n =
    gives_then (λ _. open_inode (λ s i. s) none) tt (may_fail-Gives (IsNext n) (λ os h. h.1.0))
      (record { apply = λ os h. rw h.0 (refl, (get-put_same os.inodes n [], h.1, tt)) })

calm_call :
    (path : DbPath) (inode : ℕ) (content : Bytes)
    → Gives (FileHas path inode content) may_fail (ok tt) (FileHas path inode content)
calm_call path inode content = may_fail-Gives (FileHas path inode content) (λ os h. h.1.0)

pub succeed-Gives :
    {A : Type 0} (before : Os → Type 0) (a : A) → Gives before (succeed a) (ok a) before
succeed-Gives before a = record { apply = λ os h. (refl, h) }

module _ (rwlock_size : ℕ) (rkyv : Rkyv) where
  module _ (name : Bytes) (n : ℕ) where
    abbrev pub With : Bytes → Os → Type 0
    With = FileHas (DbPath.mem name) n

    abbrev pub first_content : Bytes
    first_content = if ltb 0 rwlock_size then resized [] rwlock_size else []

    pub Shows-first : Shows rkyv rwlock_size first_content default_repr
    unfolding read_blob_into read_blob_at len resized
    Shows-first = elim (Bool-cases (ltb 0 rwlock_size)) [
      | inl e ↦
          let size = length-take rwlock_size (nuls rwlock_size) in
          let all : length (nuls rwlock_size) ≡ rwlock_size = length-replicate rwlock_size 0 in
          let short : leb (length (take rwlock_size (nuls rwlock_size))) rwlock_size ≡ true =
            ground arith in
          rw (e, short) refl
      | inr e ↦ let none_left : leb 0 rwlock_size ≡ true = ground arith in rw (e, none_left) refl
    ]

    long_enough-Gives : Gives (With []) (long_enough rwlock_size n 0) (ok tt) (With first_content)
    unfolding set_len
    long_enough-Gives = elim (Bool-cases (ltb 0 rwlock_size)) [
      | inl e ↦ rw e (
          on_file-Gives (DbPath.mem name) n [] (resized [] rwlock_size) (set_len rwlock_size)
            (ok tt) refl)
      | inr e ↦ rw e (succeed-Gives (With []) tt)
    ]

    abbrev pub backend : MemfdBackend
    backend = record { inode = n; name = name }

    pub open_memfd-Gives :
        Gives (IsNext n) (Memfd.open_backend rwlock_size name) (ok backend) (With first_content)
    unfolding Memfd.open_backend memfd_create_fd len
    open_memfd-Gives =
        gives_then _ n
          (gives_then _ n (memfd_create-Gives name n)
            (gives_then _ tt (calm_call (DbPath.mem name) n []) (succeed-Gives (With []) n)))
          (gives_then _ 0 (on_file-Gives (DbPath.mem name) n [] [] len (ok 0) refl) (
            gives_then _ tt long_enough-Gives (
              gives_then _ tt (calm_call (DbPath.mem name) n first_content) (
                gives_then _ tt (init_pshared_rwlock-Gives (With first_content) (λ os h. h.1.0))
                  (succeed-Gives (With first_content) backend)))))

-- A region of NULs holds no blob.
drop-replicate : (k n : ℕ) → drop k (nuls n) ≡ nuls (n - k)
drop-replicate zero n = let e : n ≡ n - 0 = omega arith in ap nuls e
drop-replicate (suc k) zero = let e : 0 ≡ 0 - suc k = omega arith in ap nuls e
drop-replicate (suc k) (suc n) =
    let e : n - k ≡ suc n - suc k = omega arith in drop-replicate k n ∙ ap nuls e

take-replicate : (k n : ℕ) → k ≤ n → take k (nuls n) ≡ nuls k
take-replicate zero n h = refl
take-replicate (suc k) zero h = absurd (omega arith)
take-replicate (suc k) (suc n) h = ap (λ t. 0 ∷ t) (take-replicate k n (omega arith))

module _ (rwlock_size : ℕ) (rkyv : Rkyv) where
  module _ (name : Bytes) (size n : ℕ) (room : rwlock_size + 16 ≤ size)
      (small : size < 2 ^ 63) where
    pub Shows-zeros : read_blob_from_mem rkyv rwlock_size (nuls size) ≡ (ok default_repr, nuls size)
    unfolding read_blob_from_mem from_ne_bytes
    Shows-zeros =
        let all : length (nuls size) ≡ size = length-replicate size 0 in
        let h1 : ltb size (rwlock_size + 8) ≡ false = ground arith in
        let h2 : 8 ≤ size - rwlock_size = omega arith in
        rw (all, h1, drop-replicate rwlock_size size, take-replicate 8 (size - rwlock_size) h2) refl

    abbrev pub mapped : MmapBackend
    mapped = record { region = n; size = size; len_offset = rwlock_size; name = name }

    abbrev pub NextRegion : Os → Type 0
    NextRegion os = (os.next_region ≡ n) × IsCalm os

    anon_mmap-Gives : Gives NextRegion (anon_mmap size) (ok n) (RegionHas n (nuls size))
    unfolding anon_mmap mmap_anonymous
    anon_mmap-Gives =
        let some_size : (size == 0) ≡ false = ground arith in
        rw some_size (
          gives_then _ tt (may_fail-Gives NextRegion (λ os h. h.1.0)) (record {
            apply = λ os h. rw h.0 (refl, (get-put_same os.regions n (nuls size), h.1));
          }))

    pub open_mmap-Gives :
        Gives NextRegion
          (Mmap.open_backend rwlock_size size name)
          (ok mapped)
          (RegionHas n (nuls size))
    unfolding Mmap.open_backend
    open_mmap-Gives =
        let fits : leb (2 ^ 64) size ≡ false = ground arith in
        let enough : ltb size (rwlock_size + 8 + 8) ≡ false = ground arith in
        rw (fits, enough)
          (gives_then _ n anon_mmap-Gives (
            gives_then _ tt (init_pshared_rwlock-Gives (RegionHas n (nuls size)) (λ os h. h.1.0))
              (succeed-Gives (RegionHas n (nuls size)) mapped)))
