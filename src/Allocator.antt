-- ===== src/Allocator.antt =====
-- cuckoo/utils/cuckoo_shmem_allocator.c and its header: blocks of 2^14 to 2^20 bytes out of pages
-- of 2^20 bytes, a 64-bit bitmap for each page, one hint for each block size.
-- The operations are those of a process whose atomic accesses meet no other between a read and its
-- compare-exchange; `Ownership` has the interleavings, in which a compare-exchange may fail.
pub mod Bitmap
pub mod Page
pub mod Sizes
pub mod Shifts
pub mod Ownership
pub mod Malloc
pub mod Free
mod Tests
use cuckoofs.Base.{
  ℕ, zero, suc, ◌+◌, ◌-◌, ◌*◌, ◌/◌, ◌%◌, ◌^◌, bit_and, bit_or, Bool, true, false, ◌||◌, Option,
  none, some, not, List, [], ◌∷◌, ◌==◌, ltb, leb, if◌then◌else◌, get_or, set, u32, u64, sub64,
  not64, ◌<<<◌, ◌>>>◌,
}
use cuckoofs.Base.Sums.{update}

abbrev pub state_bit_count : ℕ
state_bit_count = 64

abbrev pub free_list_count : ℕ
free_list_count = 7

abbrev pub max_alloc_size : ℕ
max_alloc_size = 1024 * 1024

abbrev pub min_alloc_size : ℕ
min_alloc_size = max_alloc_size / state_bit_count

abbrev pub page_size : ℕ
page_size = max_alloc_size

abbrev pub min_block_size : ℕ
min_block_size = min_alloc_size

-- sizeof(PaddedAtomic64)
abbrev pub pad_size : ℕ
pad_size = 128

-- MemoryHdr and its sizeof
pub record MemoryHdr : Type 0 where
  pub signature : ℕ
  pub size : ℕ
  pub capacity : ℕ

abbrev pub hdr_size : ℕ
hdr_size = 24

-- CuckooShmemAllocator. The arrays in shared memory are lists, the headers a map from the shift at
-- which they stand. `size` is the size given to the initialisation.
pub record Allocator : Type 0 where
  pub size : ℕ
  pub page_count : ℕ
  pub signature_counter : ℕ
  pub free_list_hint : List ℕ
  pub page_cntl : List ℕ
  pub headers : ℕ → MemoryHdr

-- The page count of CuckooShmemAllocatorInit, a uint32_t; 0 is its failure.
unfoldable pub init_page_count : ℕ → ℕ
init_page_count size = u32 (sub64 size (pad_size * (1 + free_list_count)) / (pad_size + page_size))

-- CuckooShmemAllocatorGetUniqueSignature
unfoldable pub get_unique_signature : Allocator → Allocator × ℕ
get_unique_signature a =
    (record a { signature_counter = u64 (a.signature_counter + 1) }, u64 (a.signature_counter + 1))

-- The number of binary digits of a number below 2^k; 64 less this is __builtin_clzll.
unfoldable pub digits_below : ℕ → ℕ → ℕ
digits_below zero x = 0
digits_below (suc k) x = let rest = digits_below k (x / 2) in if x == 0 then 0 else suc rest

abbrev pub clz64 : ℕ → ℕ
clz64 x = 64 - digits_below 64 x

-- __builtin_ctzll on a number that is not 0 and below 2^k.
unfoldable pub ctz_below : ℕ → ℕ → ℕ
ctz_below zero x = 0
ctz_below (suc k) x = let rest = ctz_below k (x / 2) in if x % 2 == 1 then 0 else suc rest

abbrev pub ctz64 : ℕ → ℕ
ctz64 x = ctz_below 64 x

-- GetNextPowerOfTwo
unfoldable pub get_next_power_of_two : ℕ → ℕ
get_next_power_of_two num =
    if num == 0 || not (bit_and num (1 <<< 63) == 0)
    then 0
    else (if num == 1 then 1 else 1 <<< (64 - clz64 (num - 1)))

abbrev pub level_block_mask : List ℕ
level_block_mask =
    0x0000_0000_0000_0001 ∷ 0x0000_0001_0000_0001 ∷ 0x0001_0001_0001_0001 ∷ 0x0101_0101_0101_0101
    ∷ 0x1111_1111_1111_1111 ∷ 0x5555_5555_5555_5555 ∷ 0xffff_ffff_ffff_ffff ∷ []

abbrev pub level_block_occupy : List ℕ
level_block_occupy =
    0xffff_ffff_ffff_ffff ∷ 0x0000_0000_ffff_ffff ∷ 0x0000_0000_0000_ffff ∷ 0x0000_0000_0000_00ff
    ∷ 0x0000_0000_0000_000f ∷ 0x0000_0000_0000_0003 ∷ 0x0000_0000_0000_0001 ∷ []

abbrev pub mask_at : ℕ → ℕ
mask_at level = get_or level_block_mask level 0

abbrev pub occupy_at : ℕ → ℕ
occupy_at level = get_or level_block_occupy level 0

-- The size that CuckooShmemAllocatorMalloc takes for a request, header included.
unfoldable pub required_size : ℕ → ℕ
required_size size =
    let required = size + hdr_size in
    if ltb required min_alloc_size then min_alloc_size else get_next_power_of_two required

unfoldable pub level_of : ℕ → ℕ
level_of required = ctz64 page_size - ctz64 required

-- The loop that brings a bitmap to a level, `rounds` from `j` down.
unfoldable pub fold_levels : ℕ → ℕ → ℕ → ℕ → ℕ
fold_levels zero j shift bitmap = bitmap
fold_levels (suc rounds) j shift bitmap =
    fold_levels rounds (j - 1) (shift * 2)
      (bit_and (bit_or (bitmap >>> shift) bitmap) (mask_at (j - 1)))

abbrev pub level_bitmap : ℕ → ℕ → ℕ
level_bitmap level bitmap = fold_levels (free_list_count - 1 - level) (free_list_count - 1) 1 bitmap

-- The block that a page with this bitmap offers at a level, and the bitmap to store: below the top
-- level by `try_blocks`.
pub record Offer : Type 0 where
  pub block : ℕ
  pub desired : ℕ

unfoldable pub try_blocks : ℕ → ℕ → Option Offer
try_blocks level bitmap =
    let folded = level_bitmap level bitmap in
    if folded == mask_at level
    then none
    else let first = ctz64 (bit_and (not64 folded) (mask_at level)) in
      some (record { block = first; desired = bit_or bitmap (u64 (occupy_at level <<< first)) })

unfoldable pub try_page : ℕ → ℕ → Option Offer
try_page level bitmap =
    if level == 0
    then (if bitmap == 0 then some (record { block = 0; desired = not64 0 }) else none)
    else try_blocks level bitmap

-- The products are of 32 bits: `pageNo` is a uint32_t, the other factors are of type int.
unfoldable pub allocated_shift : ℕ → ℕ → ℕ
allocated_shift page_no block = u32 (page_size * page_no + min_block_size * block)

-- `pageIsFull`: set outside level 0, on the page where the block ends the first page.
unfoldable pub page_is_full : ℕ → ℕ → ℕ → Bool
page_is_full level required shift = if level == 0 then false else shift + required == page_size

-- A scan: the first page from `page_no` on, `left` pages to look at, that has a block.
unfoldable pub scan_pages : ℕ → ℕ → ℕ → List ℕ → Option (ℕ × Offer)
scan_pages zero page_no level cntl = none
scan_pages (suc left) page_no level cntl = elim (try_page level (get_or cntl page_no 0)) [
  | some o ↦ some (page_no, o)
  | none ↦ scan_pages left (page_no + 1) level cntl
]

-- What follows a successful compare-exchange: the hint, and the header.
unfoldable pub take_block : Bool → ℕ → ℕ → ℕ → ℕ → ℕ → Offer → Allocator → Allocator × ℕ
take_block second start size required level page_no o a =
    let shift = allocated_shift page_no o.block in
    let full = page_is_full level required shift in
    let hint = get_or a.free_list_hint level 0 in
    let next_hint =
      (if second
        then (if full then hint else (if leb hint page_no then hint else page_no))
        else (if full || not (page_no == start)
            then (if full then u32 (page_no + 1) else page_no)
            else hint)) in
    (
      record a {
        free_list_hint = set a.free_list_hint level next_hint;
        page_cntl = set a.page_cntl page_no o.desired;
        headers =
            update a.headers shift (record { signature = 0; size = size; capacity = required });
      },
      shift + hdr_size,
    )

-- CuckooShmemAllocatorMalloc; the result 0 is a refusal.
unfoldable pub malloc : Allocator → ℕ → Allocator × ℕ
malloc a size =
    if ltb (max_alloc_size - hdr_size) size
    then (a, 0)
    else let required = required_size size in
      let level = level_of required in
      let start = get_or a.free_list_hint level 0 in
      let first_page = u32 start in
      elim (scan_pages (a.page_count - first_page) first_page level a.page_cntl) [
        | some (page_no, o) ↦ take_block false start size required level page_no o a
        | none ↦ elim (scan_pages a.page_count 0 level a.page_cntl) [
          | some (page_no, o) ↦ take_block true 0 size required level page_no o a
          | none ↦ (a, 0)
        ]
      ]

-- CuckooShmemAllocatorFree
unfoldable pub free : Allocator → ℕ → Allocator
free a shift_after_header =
    let shift = sub64 shift_after_header hdr_size in
    let capacity = (a.headers shift).capacity in
    let level = ctz64 max_alloc_size - ctz64 capacity in
    let page_no = shift / page_size in
    let block_no = u32 (sub64 (shift / min_block_size) (page_no * state_bit_count)) in
    let occupied = u64 (occupy_at level <<< block_no) in
    let hint = get_or a.free_list_hint level 0 in
    if ltb capacity min_alloc_size || ltb max_alloc_size capacity
    then a
    else (if not (capacity == max_alloc_size >>> level) then a else record a {
      page_cntl = set a.page_cntl page_no (bit_and (get_or a.page_cntl page_no 0) (not64 occupied));
      free_list_hint = set a.free_list_hint level (if leb hint page_no then hint else page_no);
    })
