-- ===== src/Tests/Frames.antt =====
-- Concrete inputs for the theorems on page frames.
use flurry.Prelude.{◌≡◌, refl, inr, List, [], ◌∷◌, arith}
use flurry.Pmm.{
  PhysMemoryRegion, usable, reserved, Pmm, pmm_init, pmm_alloc, pmm_free, push_page, behind_first,
  is_usable,
}
use flurry.Pmm.Alloc.{pmm_alloc-pmm_free}
use flurry.Pmm.Boot.{Makes, pmm_init-Makes}

abbrev empty : Pmm
empty = record { mem = λ a. 0; hhdm_offset = 0x10_0000; free_list_head = 0 }

-- A region that is passed over, a reserved one, and one of two frames.
abbrev regions : List PhysMemoryRegion
regions =
    record { base = 0x1000; len = 0x1000; kind = usable }
    ∷ record { base = 0x2000; len = 0x1000; kind = reserved }
    ∷ record { base = 0x3000; len = 0x2000; kind = usable }
    ∷ []

pmm_init-Makes_example : Makes (pmm_init 3 0x10_0000 regions empty) 0x10_0000 (0x4000 ∷ 0x3000 ∷ [])
unfolding behind_first is_usable
pmm_init-Makes_example =
    pmm_init-Makes 2 0x10_0000 regions empty refl
      ((omega arith, omega arith), (inr (omega arith), tt), ((omega arith, omega arith), tt, tt))
      ((omega arith, omega arith), ((omega arith, omega arith), tt))

abbrev one_frame : Pmm
one_frame = push_page 0x5000 empty

pmm_alloc-pmm_free_example : (pmm_alloc (pmm_free 0x5000 empty)).0 ≡ 0
pmm_alloc-pmm_free_example = pmm_alloc-pmm_free empty 0x5000 (omega arith) (omega arith)
