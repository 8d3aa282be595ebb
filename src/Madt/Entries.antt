-- ===== src/Madt/Entries.antt =====
-- The five lists that a sequence of entries is read into.
use flurry.Prelude.{
  ℕ, zero, suc, ◌+◌, ◌<◌, ◌≤◌, ◌≡◌, ◌∙◌, refl, ap, ◌==◌, ltb, if◌then◌else◌, arith, ◌⊎◌, inl, inr,
  Bool-cases, List, [], ◌∷◌,
}
use flurry.Prelude.Outcome.{Outcome, ok, panic, ◌>>=◌}
use flurry.Prelude.Memory.{Mem}
use flurry.Madt.{
  Madt, entry_type, lapic_entry, ioapic_entry, lapic_nmi_entry, ioapic_iso_entry, ioapic_nmi_entry,
  kmalloc_node, read_entry,
}

-- The entries of one type among those at the addresses, each as it is read, in reverse before `found`.
abbrev pub of_type {ℓ} : {A : Type ℓ} → ℕ → (ℕ → A) → Mem → List ℕ → List A → List A
of_type kind read m [] found = found
of_type kind read m (a ∷ rest) found =
    of_type kind read m rest (if entry_type m a == kind then read a ∷ found else found)

-- Every list has the entries of its type, the last one first.
pub record Collects (m : Mem) (addrs : List ℕ) (s s' : Madt) : Type 0 where
  pub lapics : s'.lapics ≡ of_type 0 (lapic_entry m) m addrs s.lapics
  pub ioapics : s'.ioapics ≡ of_type 1 (ioapic_entry m) m addrs s.ioapics
  pub ioapic_isos : s'.ioapic_isos ≡ of_type 2 (ioapic_iso_entry m) m addrs s.ioapic_isos
  pub ioapic_nmis : s'.ioapic_nmis ≡ of_type 3 (ioapic_nmi_entry m) m addrs s.ioapic_nmis
  pub lapic_nmis : s'.lapic_nmis ≡ of_type 4 (lapic_nmi_entry m) m addrs s.lapic_nmis

-- The nodes that the entries take: one for each of a type below 5.
abbrev pub nodes : Mem → List ℕ → ℕ
nodes m [] = 0
nodes m (a ∷ rest) = (if ltb (entry_type m a) 5 then 1 else 0) + nodes m rest

-- What reading these entries comes to where the heap has room: the lists, and the room that is left.
pub record Reads (o : Outcome Madt) (m : Mem) (addrs : List ℕ) (s : Madt) : Type 0 where
  pub final : Madt
  pub returns : o ≡ ok final
  pub lists : Collects m addrs s final
  pub left : final.room + nodes m addrs ≡ s.room

-- Either there is no room for the nodes and the machine stops, or the entries are read.
abbrev pub ReadsOrStops : Outcome Madt → Mem → List ℕ → Madt → Type 0
ReadsOrStops o m addrs s = ((s.room < nodes m addrs) × (o ≡ panic)) ⊎ Reads o m addrs s

kmalloc_node-cases :
    (room : ℕ)
    → ((room ≡ 0) × (kmalloc_node room ≡ panic))
      ⊎ ((left : ℕ) × (room ≡ suc left) × (kmalloc_node room ≡ ok left))
unfolding kmalloc_node
kmalloc_node-cases zero = inl (refl, refl)
kmalloc_node-cases (suc left) = inr (left, refl, refl)

module _ (m : Mem) (a : ℕ) (s : Madt) where
  -- The lists with the entry, whatever its type, and the room that is left.
  abbrev entered : ℕ → Madt
  entered left = record {
    lapics = of_type 0 (lapic_entry m) m (a ∷ []) s.lapics;
    ioapics = of_type 1 (ioapic_entry m) m (a ∷ []) s.ioapics;
    ioapic_isos = of_type 2 (ioapic_iso_entry m) m (a ∷ []) s.ioapic_isos;
    ioapic_nmis = of_type 3 (ioapic_nmi_entry m) m (a ∷ []) s.ioapic_nmis;
    lapic_nmis = of_type 4 (lapic_nmi_entry m) m (a ∷ []) s.lapic_nmis;
    room = left;
  }

  pub read_entry-known :
      entry_type m a < 5 → read_entry m a s ≡ (kmalloc_node s.room >>= (λ left. ok (entered left)))
  unfolding read_entry
  read_entry-known known = ground arith

  pub read_entry-unknown : 5 ≤ entry_type m a → read_entry m a s ≡ ok s
  unfolding read_entry
  read_entry-unknown unknown = ground arith

  entered-Collects : (left : ℕ) → Collects m (a ∷ []) s (entered left)
  entered-Collects left = record {
    lapics = refl;
    ioapics = refl;
    ioapic_isos = refl;
    ioapic_nmis = refl;
    lapic_nmis = refl;
  }

  passed-Collects : 5 ≤ entry_type m a → Collects m (a ∷ []) s s
  passed-Collects unknown = record {
    lapics = ground arith;
    ioapics = ground arith;
    ioapic_isos = ground arith;
    ioapic_nmis = ground arith;
    lapic_nmis = ground arith;
  }

  -- One entry goes to the list of its type, if there is room for its node.
  pub read_entry-ReadsOrStops : ReadsOrStops (read_entry m a s) m (a ∷ []) s
  read_entry-ReadsOrStops = elim (Bool-cases (ltb (entry_type m a) 5)) [
    | inl known ↦
        let below : entry_type m a < 5 = ground arith in
        elim (kmalloc_node-cases s.room) [
          | inl full ↦ inl (
            rw known (omega (arith, full.0)),
            read_entry-known below ∙ ap (λ o. o >>= (λ left. ok (entered left))) full.1,
          )
          | inr free ↦ inr (record {
            final = entered free.0;
            returns = read_entry-known below ∙ ap (λ o. o >>= (λ left. ok (entered left))) free.2;
            lists = entered-Collects free.0;
            left = rw known (omega (arith, free.1));
          })
        ]
    | inr unknown ↦
        let above : 5 ≤ entry_type m a = ground arith in
        inr (record {
          final = s;
          returns = read_entry-unknown above;
          lists = passed-Collects above;
          left = rw unknown (omega arith);
        })
  ]

pub no_entry : (m : Mem) (s : Madt) → Reads (ok s) m [] s
no_entry m s = record {
  final = s;
  returns = refl;
  lists = record {
    lapics = refl;
    ioapics = refl;
    ioapic_isos = refl;
    ioapic_nmis = refl;
    lapic_nmis = refl;
  };
  left = omega arith;
}

Collects-cons :
    (m : Mem) (a : ℕ) (rest : List ℕ) (s s' s'' : Madt)
    → Collects m (a ∷ []) s s'
    → Collects m rest s' s''
    → Collects m (a ∷ rest) s s''
Collects-cons m a rest s s' s'' h k = record {
  lapics = k.lapics ∙ ap (of_type 0 (lapic_entry m) m rest) h.lapics;
  ioapics = k.ioapics ∙ ap (of_type 1 (ioapic_entry m) m rest) h.ioapics;
  ioapic_isos = k.ioapic_isos ∙ ap (of_type 2 (ioapic_iso_entry m) m rest) h.ioapic_isos;
  ioapic_nmis = k.ioapic_nmis ∙ ap (of_type 3 (ioapic_nmi_entry m) m rest) h.ioapic_nmis;
  lapic_nmis = k.lapic_nmis ∙ ap (of_type 4 (lapic_nmi_entry m) m rest) h.lapic_nmis;
}

-- The first entry, then the others by `next`.
pub ReadsOrStops-cons :
    (m : Mem) (a : ℕ) (rest : List ℕ) (s : Madt) (next : Madt → Outcome Madt)
    → ((s' : Madt) → ReadsOrStops (next s') m rest s')
    → ReadsOrStops (read_entry m a s >>= next) m (a ∷ rest) s
ReadsOrStops-cons m a rest s next others = elim (read_entry-ReadsOrStops m a s) [
  | inl stops ↦ inl (omega (arith, stops.0), ap (λ o. o >>= next) stops.1)
  | inr first ↦ elim (others first.final) [
    | inl stops ↦
        inl (omega (arith, stops.0, first.left), ap (λ o. o >>= next) first.returns ∙ stops.1)
    | inr r ↦ inr (record {
      final = r.final;
      returns = ap (λ o. o >>= next) first.returns ∙ r.returns;
      lists = Collects-cons m a rest s first.final r.final first.lists r.lists;
      left = omega (arith, r.left, first.left);
    })
  ]
]
