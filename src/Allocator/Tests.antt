-- ===== src/Allocator/Tests.antt =====
-- The allocator on two pages, and its theorems at states that it reaches.
use cuckoofs.Base.{
  ℕ, zero, suc, ◌+◌, ◌*◌, ◌^◌, ◌≤◌, ◌<◌, ◌≡◌, ◌↔◌, ◌⊎◌, refl, true, none, some, [], ◌∷◌, arith,
  get_or,
}
use cuckoofs.Base.Bits.{test_bit}
use cuckoofs.Allocator.{
  Allocator, MemoryHdr, get_next_power_of_two, digits_below, ctz_below, required_size, level_of,
  fold_levels, try_blocks, try_page, allocated_shift, page_is_full, scan_pages, take_block, malloc,
  free,
}
use cuckoofs.Allocator.Bitmap.{used}
use cuckoofs.Allocator.Page.{try_page-none}
use cuckoofs.Allocator.Sizes.{get_next_power_of_two_lem}
use cuckoofs.Allocator.Shifts.{allocated_shift_exact}
use cuckoofs.Allocator.Ownership.{
  Page, Reach, empty, later, take, give_back, cover, owned_once, all_released, released,
}
use cuckoofs.Allocator.Malloc.{IsAllocator, Given, Exhausted, malloc_lem}
use cuckoofs.Allocator.Free.{free-malloc}

abbrev no_header : MemoryHdr
no_header = record { signature = 0; size = 0; capacity = 0 }

abbrev two_pages : Allocator
two_pages = record {
  size = 0x20_0000 + 1280;
  page_count = 2;
  signature_counter = 0;
  free_list_hint = 0 ∷ 0 ∷ 0 ∷ 0 ∷ 0 ∷ 0 ∷ 0 ∷ [];
  page_cntl = 0 ∷ 0 ∷ [];
  headers = λ _. no_header;
}

two_pages_fit : (p : ℕ) → get_or two_pages.page_cntl p 0 < 2 ^ 64
two_pages_fit zero = omega arith
two_pages_fit (suc zero) = omega arith
two_pages_fit (suc (suc p)) = omega arith

two_pages-IsAllocator : IsAllocator two_pages
two_pages-IsAllocator = record {
  pages_listed = refl;
  few_pages = omega arith;
  bitmaps_fit = two_pages_fit;
}

-- A small block, then half a page, which starts at the middle, then a whole page.
runs :
    let a = malloc two_pages 100 in
    let b = malloc a.0 0x5_0000 in
    let c = malloc b.0 0xf_0000 in
    (a.1 ≡ 24)
    × (b.1 ≡ 0x8_0018)
    × (c.1 ≡ 0x10_0018)
    × ((malloc c.0 0xf_0000).1 ≡ 0)
    × ((free c.0 b.1).page_cntl ≡ 1 ∷ 0xffff_ffff_ffff_ffff ∷ [])
unfolding malloc required_size get_next_power_of_two digits_below level_of ctz_below scan_pages
    try_page try_blocks fold_levels take_block allocated_shift page_is_full free
runs = (refl, refl, refl, refl, refl)

get_next_power_of_two_lem_example :
    (d : ℕ) × (get_next_power_of_two 1000 ≡ 2 ^ d) × (1000 ≤ 2 ^ d) × (2 ^ d < 2 * 1000)
get_next_power_of_two_lem_example = get_next_power_of_two_lem 1000 (omega arith) (omega arith)

allocated_shift_exact_example : allocated_shift 3 5 ≡ 3227648
allocated_shift_exact_example = allocated_shift_exact 3 5 (omega arith) (omega arith)

-- Bits 0 and 5 are taken: the first free block of four bits is at 8.
offer_at_eight : try_page 4 0x21 ≡ some (record { block = 8; desired = 0xf21 })
unfolding try_page try_blocks fold_levels ctz_below
offer_at_eight = refl

-- Every fourth bit is taken: no block of four bits is free.
no_block_of_four : try_page 4 0x1111_1111_1111_1111 ≡ none
unfolding try_page try_blocks fold_levels ctz_below
no_block_of_four = refl

try_page-none_example : used 0x1111_1111_1111_1111 8 4 ≡ true
try_page-none_example =
    try_page-none 4 0x1111_1111_1111_1111 (omega arith) (omega arith) no_block_of_four 8
      (omega arith)

malloc_lem_example :
    Given two_pages 100 (malloc two_pages 100).0 (malloc two_pages 100).1
    ⊎ ((malloc two_pages 100 ≡ (two_pages, 0)) × Exhausted two_pages 100)
malloc_lem_example = malloc_lem two_pages two_pages-IsAllocator 100 (omega arith)

first_result : (malloc two_pages 100).1 ≡ 24
unfolding malloc required_size get_next_power_of_two digits_below level_of ctz_below scan_pages
    try_page try_blocks fold_levels take_block allocated_shift page_is_full
first_result = refl

free-malloc_example :
    (free (malloc two_pages 100).0 (malloc two_pages 100).1).page_cntl ≡ two_pages.page_cntl
free-malloc_example =
    free-malloc two_pages two_pages-IsAllocator 100 (omega arith)
      (λ e. let r = first_result in absurd (omega arith))

-- Someone takes the first block of four bits, and gives it back.
abbrev four_taken : Page
four_taken = record { bitmap = 0xf; owned = (record { level = 4; first = 0 }) ∷ [] }

four_taken-Reach : Reach four_taken
unfolding try_page try_blocks fold_levels ctz_below
four_taken-Reach = later empty (take {o = record { block = 0; desired = 0xf }} 4 (omega arith) refl)

owned_once_example :
    (cover 3 four_taken.owned ≤ 1)
    × ((test_bit four_taken.bitmap 3 ≡ true) ↔ (cover 3 four_taken.owned ≡ 1))
owned_once_example = owned_once four_taken-Reach 3 (omega arith)

abbrev given_back : Page
given_back = record { bitmap = released (record { level = 4; first = 0 }) 0xf; owned = [] }

given_back-Reach : Reach given_back
given_back-Reach = later four_taken-Reach (give_back [] [] (record { level = 4; first = 0 }) refl)

all_released_example : given_back.bitmap ≡ 0
all_released_example = all_released given_back-Reach refl
