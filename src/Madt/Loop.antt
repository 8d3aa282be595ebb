-- ===== src/Madt/Loop.antt =====
-- The loop over the table's entries.
use flurry.Prelude.{
  ℕ, zero, suc, ◌+◌, ◌^◌, ◌<◌, ◌≤◌, ◌≡◌, ◌∙◌, ap, ◌⊎◌, inl, inr, refl, true, false, ltb, ◌&&◌,
  if◌then◌else◌, Bool, Bool-cases, arith, List, [], ◌∷◌, length, some,
}
use flurry.Prelude.Words.{add64, sub64}
use flurry.Prelude.Memory.{Mem}
use flurry.Prelude.Outcome.{Outcome, panic, out_of_fuel, ◌>>=◌}
use flurry.Madt.{Madt, read32, entry_type, entry_length, read_entries, madt_init}
use flurry.Madt.Entries.{
  nodes, Reads, ReadsOrStops, ReadsOrStops-cons, no_entry, read_entry-ReadsOrStops,
}

-- From `offset` on, the entries lie at these addresses, each of some length, and end at `size`.
abbrev pub Laid : Mem → ℕ → ℕ → ℕ → List ℕ → Type 0
Laid m entries size offset [] = offset ≡ size
Laid m entries size offset (a ∷ rest) =
    (a ≡ entries + offset)
    × (0 < entry_length m a)
    × (offset + entry_length m a ≤ size)
    × Laid m entries size (offset + entry_length m a) rest

read_entries-ReadsOrStops :
    (rounds : ℕ) (m : Mem) (entries size offset : ℕ) (addrs : List ℕ) (s : Madt)
    → entries + size < 2 ^ 64
    → Laid m entries size offset addrs
    → length addrs < rounds
    → ReadsOrStops (read_entries rounds m entries size offset s) m addrs s
unfolding read_entries
read_entries-ReadsOrStops zero m entries size offset addrs s fits laid enough = absurd (omega arith)
read_entries-ReadsOrStops (suc rounds) m entries size offset [] s fits laid enough =
    let done : ltb offset size ≡ false = ground (arith, laid) in rw done (inr (no_entry m s))
read_entries-ReadsOrStops (suc rounds) m entries size offset (a ∷ rest) s fits laid enough =
    let here : add64 entries offset ≡ a = omega (arith, laid.0, laid.2) in
    let more : ltb offset size ≡ true = ground (arith, laid.1, laid.2) in
    let after : add64 offset (entry_length m a) ≡ offset + entry_length m a =
      omega (arith, laid.2) in
    rw (more, here, after)
      (ReadsOrStops-cons m a rest s (read_entries rounds m entries size (offset + entry_length m a))
        (λ s'.
          read_entries-ReadsOrStops rounds m entries size (offset + entry_length m a) rest s' fits
            laid.3 (omega arith)))

-- A table below 2 ^ 64 whose entries, each of some length, fill it to its end, and more rounds than
-- entries: either the heap has room for fewer nodes than there are entries of the five types, and
-- `madt_init` stops the machine, or it returns, and each of the five lists has in front the entries of
-- its type, as they are read from the table, the last one first; entries of other types are passed
-- over, and the room that is left is less by a node for each of the others.
pub madt_init-Reads :
    (rounds : ℕ) (m : Mem) (madt size : ℕ) (addrs : List ℕ) (s : Madt)
    → madt + 44 + size < 2 ^ 64
    → read32 m (madt + 4) ≡ 44 + size
    → Laid m (madt + 44) size 0 addrs
    → length addrs < rounds
    → ((s.room < nodes m addrs) × (madt_init rounds (some madt) m s ≡ panic))
      ⊎ Reads (madt_init rounds (some madt) m s) m addrs s
unfolding madt_init
madt_init-Reads rounds m madt size addrs s fits table laid enough =
    let start : add64 madt 44 ≡ madt + 44 = omega arith in
    let header : add64 madt 4 ≡ madt + 4 = omega arith in
    let bytes : sub64 (44 + size) 44 ≡ size = omega arith in
    rw (start, header, table, bytes)
      (read_entries-ReadsOrStops rounds m (madt + 44) size 0 addrs s fits laid enough)

-- What the loop comes to at an entry without a length, by whether the entry takes a node.
abbrev stopped : Bool → ℕ → ℕ → Outcome Madt
stopped known room rounds = if known && ltb room rounds then panic else out_of_fuel

stopped-next :
    (known : Bool) (room room' rounds : ℕ)
    → room' + (if known then 1 else 0) ≡ room
    → stopped known room' rounds ≡ stopped known room (suc rounds)
stopped-next true room room' rounds h =
    let same : ltb room' rounds ≡ ltb room (suc rounds) = ground (arith, h) in rw same refl
stopped-next false room room' rounds h = refl

stopped-full :
    (known : Bool) (room rounds : ℕ)
    → room < (if known then 1 else 0)
    → panic ≡ stopped known room (suc rounds)
stopped-full true room rounds h =
    let full : ltb room (suc rounds) ≡ true = ground (arith, h) in rw full refl
stopped-full false room rounds h = absurd (omega (arith, h))

-- At an entry of length 0 inside the table the loop never returns. If the entry is of one of the five
-- types, each round takes a node, and the machine stops once there are more rounds than the heap has
-- room for nodes; else the loop does not end, however many rounds it has.
pub read_entries-stuck :
    (rounds : ℕ) (m : Mem) (entries size offset : ℕ) (s : Madt)
    → offset < size
    → size < 2 ^ 64
    → entry_length m (add64 entries offset) ≡ 0
    → read_entries rounds m entries size offset s ≡ (
        if ltb (entry_type m (add64 entries offset)) 5 && ltb s.room rounds
        then panic
        else out_of_fuel)
unfolding read_entries
read_entries-stuck zero m entries size offset s inside fits empty =
    elim (Bool-cases (ltb (entry_type m (add64 entries offset)) 5)) [
      | inl known ↦ (let none : ltb s.room 0 ≡ false = ground arith in rw (known, none) refl)
      | inr unknown ↦ rw unknown refl
    ]
read_entries-stuck (suc rounds) m entries size offset s inside fits empty =
    let more : ltb offset size ≡ true = ground arith in
    let same : add64 offset 0 ≡ offset = omega arith in
    let entry = add64 entries offset in
    let known = ltb (entry_type m entry) 5 in
    rw (more, empty, same)
      (elim (read_entry-ReadsOrStops m entry s) [
        | inl stops ↦
            ap (λ o. o >>= read_entries rounds m entries size offset) stops.1
            ∙ stopped-full known s.room rounds (omega (arith, stops.0))
        | inr first ↦
            ap (λ o. o >>= read_entries rounds m entries size offset) first.returns
            ∙ read_entries-stuck rounds m entries size offset first.final inside fits empty
            ∙ stopped-next known s.room first.final.room rounds (omega (arith, first.left))
      ])
