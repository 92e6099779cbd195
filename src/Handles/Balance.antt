-- ===== src/Handles/Balance.antt =====
-- What the steps of the handlers do to the mappings and descriptors that a process holds.
use l_builtin.Base.{ap, ◌∙◌, ℕ, ◌≡◌, ◌<◌, ◌+◌, Option, none, some, Bytes, Bool, true, false, arith}
use l_builtin.Base.Hoare.{Meets, Ends}
use l_builtin.Shell.{Calls}
use l_builtin.Handles.Entries.{here_is_one, at}
use l_builtin.Handles.Ledger.{Gains, Books, Accounting, Holds, gained}
use l_builtin.Handles.Mapping.{mapped, sized, opened, map_descriptor, map_anonymous, map_named}

module _ {World : Type 0} (calls : Calls World) (books : Books World)
    (laws : Accounting books calls) where
  pub mapped-held :
      (m f : ℕ → ℕ) (r : Option ℕ × World)
      → ((q : ℕ) → books.held r.1 q ≡ gained r.0 q + m q)
      → ((g : ℕ) → books.open_files r.1 g ≡ f g)
      → Ends (Gains books m f) (Holds books m f) (mapped r)
  mapped-held m f (none, w) h o = record {
    mapped_all = λ q. (let e = h q in omega arith);
    open_all = o;
  }
  mapped-held m f (some ptr, w) h o = record { mapped_all = h; open_all = o }

  pub map_anonymous-meets :
      (size : ℕ) (m f : ℕ → ℕ)
      → Meets (Holds books m f) (map_anonymous calls size) (Gains books m f) (Holds books m f)
  unfolding map_anonymous
  map_anonymous-meets size m f = record {
    apply = λ w h.
        mapped-held m f (calls.mmap none size w)
          (λ q.
            laws.mmap_held none size w q
            ∙ ap (λ x. gained (calls.mmap none size w).0 q + x) (h.mapped_all q))
          (λ g. laws.mmap_open none size w g ∙ h.open_all g);
  }

  closed :
      (fd : ℕ) (f : ℕ → ℕ) (w : World)
      → ((g : ℕ) → books.open_files w g ≡ at fd g + f g)
      → (g : ℕ) → books.open_files (calls.close fd w) g ≡ f g
  closed fd f w o g =
      let here = o fd in
      let one : 0 < books.open_files w fd = here_is_one fd (f fd) (books.open_files w fd) here in
      let shut = laws.close_open fd w one g in let was = o g in omega arith

  map_descriptor-meets :
      (fd size : ℕ) (m f : ℕ → ℕ)
      → Meets
          (Holds books m (λ g. at fd g + f g))
          (map_descriptor calls fd size)
          (Gains books m f)
          (Holds books m f)
  map_descriptor-meets fd size m f = record {
    apply = λ w h.
        let r = calls.mmap (some fd) size w in
        let kept : (g : ℕ) → books.open_files r.1 g ≡ at fd g + f g =
          λ g. laws.mmap_open (some fd) size w g ∙ h.open_all g in
        mapped-held m f (r.0, calls.close fd r.1)
          (λ q.
            laws.close_held fd r.1 q
            ∙ laws.mmap_held (some fd) size w q
            ∙ ap (λ x. gained r.0 q + x) (h.mapped_all q))
          (closed fd f r.1 kept);
  }

  sized-meets :
      (fd size : ℕ) (m f : ℕ → ℕ) (r : Bool × World)
      → Holds books m (λ g. at fd g + f g) r.1
      → Ends (Gains books m f) (Holds books m f) (sized calls fd size r)
  sized-meets fd size m f (true, w) h = (map_descriptor-meets fd size m f).apply w h
  sized-meets fd size m f (false, w) h = record {
    mapped_all = λ q. laws.close_held fd w q ∙ h.mapped_all q;
    open_all = closed fd f w h.open_all;
  }

  opened-meets :
      (size : ℕ) (create : Bool) (m f : ℕ → ℕ) (r : Option ℕ × World)
      → ((q : ℕ) → books.held r.1 q ≡ m q)
      → ((g : ℕ) → books.open_files r.1 g ≡ gained r.0 g + f g)
      → Ends (Gains books m f) (Holds books m f) (opened calls size create r)
  opened-meets size create m f (none, w) h o = record {
    mapped_all = h;
    open_all = λ g. (let e = o g in omega arith);
  }
  opened-meets size true m f (some fd, w) h o =
      let same = laws.ftruncate_same fd size w in
      sized-meets fd size m f (calls.ftruncate fd size w) (record {
        mapped_all = λ q. same.same_held q ∙ h q;
        open_all = λ g. same.same_open g ∙ o g;
      })
  opened-meets size false m f (some fd, w) h o =
      (map_descriptor-meets fd size m f).apply w (record { mapped_all = h; open_all = o })

  pub map_named-meets :
      (name : Bytes) (size : ℕ) (create : Bool) (m f : ℕ → ℕ)
      → Meets
          (Holds books m f)
          (map_named calls name size create)
          (Gains books m f)
          (Holds books m f)
  unfolding map_named
  map_named-meets name size create m f = record {
    apply = λ w h.
        opened-meets size create m f (calls.shm_open name create w)
          (λ q. laws.shm_open_held name create w q ∙ h.mapped_all q)
          (λ g.
            laws.shm_open_open name create w g
            ∙ ap (λ x. gained (calls.shm_open name create w).0 g + x) (h.open_all g));
  }
