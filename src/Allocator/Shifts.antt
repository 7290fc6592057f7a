-- ===== src/Allocator/Shifts.antt =====
-- Where pages and blocks lie in the shared memory.
use cuckoofs.Base.{ℕ, ◌+◌, ◌*◌, ◌^◌, ◌≤◌, ◌<◌, ◌≡◌, ◌≢◌, arith, false}
use cuckoofs.Allocator.{
  init_page_count, allocated_shift, page_is_full, page_size, min_block_size, pad_size,
  free_list_count,
}

-- With at least the fixed arrays and less than 4 PiB, the pages that the initialisation counts lie
-- in the memory given, behind their arrays, and one page more would not fit.
init_page_count_fits :
    (size : ℕ)
    → pad_size * (1 + free_list_count) ≤ size
    → size < 2 ^ 52
    → (pad_size * (1 + free_list_count) + init_page_count size * (pad_size + page_size) ≤ size)
      × (size
          < pad_size * (1 + free_list_count) + (init_page_count size + 1) * (pad_size + page_size))
unfolding init_page_count
init_page_count_fits size lo hi = omega arith

-- With less memory than the fixed arrays take, the subtraction wraps: the initialisation does not
-- fail, and the pages that it counts do not fit.
pub init_page_count_wraps :
    (size : ℕ)
    → size < pad_size * (1 + free_list_count)
    → (init_page_count size ≢ 0) × (size < init_page_count size * page_size)
unfolding init_page_count
init_page_count_wraps size h = omega arith

-- Up to page 4095 the shift is the place of the block, so that different blocks get different
-- shifts.
pub allocated_shift_exact :
    (p b : ℕ) → p < 4096 → b < 64 → allocated_shift p b ≡ page_size * p + min_block_size * b
unfolding allocated_shift
allocated_shift_exact p b hp hb = omega arith

-- From page 4096 on (4 GiB) the product has run over its 32 bits: the block of page p + 4096 is
-- given the shift of the block of page p.
pub allocated_shift_alias : (p b : ℕ) → allocated_shift (p + 4096) b ≡ allocated_shift p b
unfolding allocated_shift
allocated_shift_alias p b = omega arith

-- Outside the first page (and below 4 GiB) a block that ends its page does not count as one that
-- fills it: the flag is raised for no block of such a page.
pub page_is_full_later_page :
    (level required p b : ℕ)
    → 0 < p
    → p < 4096
    → b < 64
    → 0 < required
    → page_is_full level required (allocated_shift p b) ≡ false
unfolding page_is_full allocated_shift
page_is_full_later_page level required p b pos hp hb hr = ground arith
