-- ===== src/Handles/Keeping.antt =====
-- What the steps of the handlers (Handles/Commands) do to the registry and to the mappings that its
-- entries own.
use l_builtin.Base.{
  ◌∙◌, ℕ, ◌≡◌, ◌+◌, List, [], ◌∷◌, Option, none, some, Bytes, arith, Command, ok, err,
}
use l_builtin.Base.Hoare.{Meets, Ends}
use l_builtin.Shell.{Calls}
use l_builtin.Handles.{Process, pointers, HandleEntry}
use l_builtin.Handles.Entries.{
  get-fresh, Distinct, Distinct-put, Distinct-wider, Distinct-remove, occurrences-put,
  occurrences-remove, remove-absent, occurrences,
}
use l_builtin.Handles.Ledger.{Books, Same, Accounting, Holds, Balanced}
use l_builtin.Handles.Mapping.{unmap}
use l_builtin.Handles.Commands.{beside, known, call, store_handle, take_handle, lookup_handle}
use mathlib.Core.Path.{subst}
use l_builtin.Base.Assoc.{id_key, get, put}
use l_builtin.Base.{Outcome, ◌^◌, ◌%◌, sym, ◌⊎◌, inl, inr, Option-cases}
use l_builtin.Handles.{take, lookup}
use l_builtin.Handles.Ledger.{Gains}
use l_builtin.Handles.Entries.{here_is_one}

module _ {World : Type 0} (calls : Calls World) (books : Books World)
    (laws : Accounting books calls) where
  -- The condition of the process, with mappings that no entry has yet.
  abbrev pub Holding : (ℕ → ℕ) → (ℕ → ℕ) → ℕ → List ℕ → Process World → Type 0
  Holding = Balanced books

  pub fewer :
      (o f : ℕ → ℕ) (room : ℕ) (pending : List ℕ) (p : Process World)
      → Holding o f (room + 1) pending p
      → Holding o f room pending p
  fewer o f room pending p b = record {
    distinct = b.distinct;
    has_room = (let h = b.has_room in omega arith);
    holding = b.holding;
  }

  pub map-meets :
      (command : Command World ℕ) (o f : ℕ → ℕ) (room : ℕ)
      → ((m : ℕ → ℕ) → Meets (Holds books m f) command (Gains books m f) (Holds books m f))
      → Meets
          (Holding o f (room + 1) [])
          (call command)
          (λ ptr. Holding o f (room + 1) (ptr ∷ []))
          (Holding o f room [])
  unfolding call
  map-meets command o f room meets = record {
    apply = λ p b.
        let m : ℕ → ℕ = λ q. occurrences q (pointers p.registry) + o q in
        let start : Holds books m f p.world = record {
          mapped_all = λ q. (let h = b.holding.mapped_all q in omega arith);
          open_all = b.holding.open_all;
        } in
        go p b (command p.world) ((meets m).apply p.world start);
  }
    where
      go :
          (p : Process World)
          → Holding o f (room + 1) [] p
          → (r : Outcome ℕ × World)
          → Ends
              (Gains books (λ q. occurrences q (pointers p.registry) + o q) f)
              (Holds books (λ q. occurrences q (pointers p.registry) + o q) f)
              r
          → Ends
              (λ ptr. Holding o f (room + 1) (ptr ∷ []))
              (Holding o f room [])
              (beside p.registry r)
      go p b (ok ptr, w) h = record {
        distinct = b.distinct;
        has_room = b.has_room;
        holding = record {
          mapped_all = λ q. (let e = h.mapped_all q in omega arith);
          open_all = h.open_all;
        };
      }
      go p b (err c, w) h = record {
        distinct = b.distinct;
        has_room = let e = b.has_room in omega arith;
        holding = record {
          mapped_all = λ q. (let e = h.mapped_all q in omega arith);
          open_all = h.open_all;
        };
      }

  pub moved :
      (o f : ℕ → ℕ) (room : ℕ) (pending : List ℕ) (p : Process World) (w : World)
      → Holding o f room pending p
      → Same books p.world w
      → Holding o f room pending (record { registry = p.registry; world = w })
  moved o f room pending p w b s = record {
    distinct = b.distinct;
    has_room = b.has_room;
    holding = record {
      mapped_all = λ q. s.same_held q ∙ b.holding.mapped_all q;
      open_all = λ g. s.same_open g ∙ b.holding.open_all g;
    };
  }

  -- A call that leaves mappings and descriptors alone.
  pub unchanged-meets :
      {A : Type 0} (command : Command World A) (o f : ℕ → ℕ) (room : ℕ) (pending : List ℕ)
      → ((w : World) → Same books w (command w).1)
      → Meets
          (Holding o f room pending)
          (call command)
          (λ _. Holding o f room pending)
          (Holding o f room pending)
  unfolding call
  unchanged-meets {A} command o f room pending same = record {
    apply = λ p b. go p b (command p.world) (same p.world);
  }
    where
      go :
          (p : Process World)
          → Holding o f room pending p
          → (r : Outcome A × World) → Same books p.world r.1
          → Ends (λ _. Holding o f room pending) (Holding o f room pending) (beside p.registry r)
      go p b (ok a, w) s = moved o f room pending p w b s
      go p b (err c, w) s = moved o f room pending p w b s

  pub store-meets :
      (ptr : ℕ) (name : Option Bytes) (o f : ℕ → ℕ) (room : ℕ)
      → Meets
          (Holding o f (room + 1) (ptr ∷ []))
          (store_handle ptr name)
          (λ _. Holding o f room [])
          (Holding o f room [])
  unfolding store_handle
  store-meets ptr name o f room = record {
    apply = λ p b.
        let m = p.registry.entries in
        let n = p.registry.next in
        let fresh = get-fresh n m b.distinct in
        let big = b.has_room in
        let e : (n + 1) % 2 ^ 64 ≡ n + 1 = omega arith in
        record {
          distinct =
              subst (λ k. Distinct k (put m n (record { ptr = ptr; name = name }))) (sym e)
                (Distinct-put m (n + 1) n (record { ptr = ptr; name = name }) (omega arith) fresh
                  (Distinct-wider n m b.distinct));
          has_room = omega arith;
          holding = record {
            mapped_all = λ q.
                (let h = b.holding.mapped_all q in
                  let t = occurrences-put m n q (record { ptr = ptr; name = name }) fresh in
                  omega arith);
            open_all = b.holding.open_all;
          };
        };
  }

  pub take-meets :
      (id : ℕ) (o f : ℕ → ℕ) (room : ℕ)
      → Meets
          (Holding o f room [])
          (take_handle id)
          (λ e. Holding o f room (e.ptr ∷ []))
          (Holding o f room [])
  unfolding take_handle
  take-meets id o f room = record {
    apply = λ p b. go p b (Option-cases (get p.registry.entries id));
  }
    where
      go :
          (p : Process World)
          → Holding o f room [] p
          → (get p.registry.entries id ≡ none)
            ⊎ ((e : HandleEntry) × (get p.registry.entries id ≡ some e))
          → Ends
              (λ e. Holding o f room (e.ptr ∷ []))
              (Holding o f room [])
              (known
                (get p.registry.entries id)
                (record { registry = (take id p.registry).1; world = p.world }))
      go p b (inl absent) = rw (absent, remove-absent p.registry.entries id absent) b
      go p b (inr (e, found)) = rw found (record {
        distinct = Distinct-remove p.registry.entries p.registry.next id b.distinct;
        has_room = b.has_room;
        holding = record {
          mapped_all = λ q.
              (let h = b.holding.mapped_all q in
                let t =
                  occurrences-remove p.registry.entries p.registry.next id q e b.distinct found in
                omega arith);
          open_all = b.holding.open_all;
        };
      })

  pub lookup-meets :
      (id : ℕ) (o f : ℕ → ℕ) (room : ℕ)
      → Meets
          (Holding o f room [])
          (lookup_handle id)
          (λ _. Holding o f room [])
          (Holding o f room [])
  unfolding lookup_handle
  lookup-meets id o f room = record { apply = λ p b. go p b (lookup id p.registry) }
    where
      go :
          (p : Process World)
          → Holding o f room [] p
          → (r : Option ℕ) → Ends (λ _. Holding o f room []) (Holding o f room []) (known r p)
      go p b none = b
      go p b (some ptr) = b

  pub unmap-meets :
      (ptr size : ℕ) (o f : ℕ → ℕ) (room : ℕ)
      → Meets
          (Holding o f room (ptr ∷ []))
          (call (unmap calls ptr size))
          (λ _. Holding o f room [])
          (Holding o f room [])
  unfolding unmap call
  unmap-meets ptr size o f room = record {
    apply = λ p b.
        let here = b.holding.mapped_all ptr in
        let one =
          here_is_one ptr (0 + occurrences ptr (pointers p.registry) + o ptr)
            (books.held p.world ptr) (omega arith) in
        record {
          distinct = b.distinct;
          has_room = b.has_room;
          holding = record {
            mapped_all = λ q.
                (let h = b.holding.mapped_all q in
                  let t = laws.munmap_held ptr size p.world one q in omega arith);
            open_all = λ g. laws.munmap_open ptr size p.world g ∙ b.holding.open_all g;
          };
        };
  }
