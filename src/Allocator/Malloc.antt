-- ===== src/Allocator/Malloc.antt =====
-- CuckooShmemAllocatorMalloc and CuckooShmemAllocatorFree as wholes.
use cuckoofs.Base.{
  ℕ, zero, suc, ◌+◌, ◌-◌, ◌*◌, ◌^◌, ◌≤◌, ◌<◌, ◌≡◌, ◌⊎◌, refl, Bool-cases, Option-cases, inl, inr,
  Bool, true, false, none, some, List, arith, ltb, length, get_or, set, u32, ℕ_discrete,
}
use cuckoofs.Allocator.{
  Allocator, Offer, try_page, scan_pages, take_block, malloc, required_size, level_of,
  max_alloc_size, hdr_size, page_size, min_block_size,
}
use cuckoofs.Allocator.Bitmap.{used, width}
use cuckoofs.Allocator.Page.{IsBlock, IsOffer, width_bounds, try_page-IsOffer, try_page-none}
use cuckoofs.Allocator.Sizes.{IsClass, required_size-IsClass}
use cuckoofs.Allocator.Shifts.{allocated_shift_exact}

-- The first page with an offer among `left` pages from `p` on.
scan_pages-some :
    (left p level : ℕ) (cntl : List ℕ) {q : ℕ} {o : Offer}
    → scan_pages left p level cntl ≡ some (q, o)
    → (p ≤ q) × (q < p + left) × (try_page level (get_or cntl q 0) ≡ some o)
unfolding scan_pages
scan_pages-some zero p level cntl e = cc
scan_pages-some (suc left) p level cntl {q} {o} e =
    elim (Option-cases (try_page level (get_or cntl p 0))) [
      | inl nothing ↦
          let (lo, hi, offered) =
            scan_pages-some left (p + 1) level cntl (rw (nothing, scan_pages) at e) in
          (omega arith, omega arith, offered)
      | inr (o', offered) ↦ ground arith
    ]

scan_pages-none :
    (left p level : ℕ) (cntl : List ℕ)
    → scan_pages left p level cntl ≡ none
    → (q : ℕ) → p ≤ q
    → q < p + left
    → try_page level (get_or cntl q 0) ≡ none
unfolding scan_pages
scan_pages-none zero p level cntl e q lo hi = absurd (omega arith)
scan_pages-none (suc left) p level cntl e q lo hi =
    elim (Option-cases (try_page level (get_or cntl p 0))) [
      | inl nothing ↦ elim (ℕ_discrete p q) [
        | yes here ↦ rw (← here) nothing
        | no later ↦
            scan_pages-none left (p + 1) level cntl (rw (nothing, scan_pages) at e) q (omega arith)
              (omega arith)
      ]
      | inr (o', offered) ↦ cc (rw (offered, scan_pages) at e)
    ]

-- A state of the allocator over less than 4 GiB of pages.
pub record IsAllocator (a : Allocator) : Type 0 where
  pub pages_listed : length a.page_cntl ≡ a.page_count
  pub few_pages : a.page_count ≤ 4096
  pub bitmaps_fit : (p : ℕ) → get_or a.page_cntl p 0 < 2 ^ 64

-- What a request of `size` bytes got: a block that was free, of which the page's bitmap now has all
-- bits, and no other change to any bitmap.
pub record Given (a : Allocator) (size : ℕ) (a' : Allocator) (result : ℕ) : Type 0 where
  pub page_no : ℕ
  pub offer : Offer
  pub in_range : page_no < a.page_count
  pub offered : IsOffer (level_of (required_size size)) (get_or a.page_cntl page_no 0) offer
  pub place : result ≡ page_size * page_no + min_block_size * offer.block + hdr_size
  pub bitmaps : a'.page_cntl ≡ set a.page_cntl page_no offer.desired
  pub header :
      a'.headers (page_size * page_no + min_block_size * offer.block)
      ≡ record { signature = 0; size = size; capacity = required_size size }

-- No page has a free block of the size that the request takes.
abbrev pub Exhausted : Allocator → ℕ → Type 0
Exhausted a size =
    (p b : ℕ)
    → p < a.page_count
    → IsBlock (level_of (required_size size)) b
    → used (get_or a.page_cntl p 0) b (width (level_of (required_size size))) ≡ true

module _ (a : Allocator) (valid : IsAllocator a) (size : ℕ)
    (fits : size ≤ max_alloc_size - hdr_size) where
  abbrev required : ℕ
  required = required_size size

  abbrev level : ℕ
  level = level_of (required_size size)

  class : IsClass size required level
  class = required_size-IsClass size fits

  taken :
      (second : Bool) (start p : ℕ) (o : Offer)
      → p < a.page_count
      → try_page level (get_or a.page_cntl p 0) ≡ some o
      → Given a size
          (take_block second start size required level p o a).0
          (take_block second start size required level p o a).1
  unfolding take_block
  taken second start p o lt e =
      let off = try_page-IsOffer level _ class.level_lt (valid.bitmaps_fit p) e in
      let exact =
        allocated_shift_exact p o.block (omega (arith, valid.few_pages))
          (omega (arith, off.placed, width_bounds level class.level_lt)) in
      record {
        page_no = p;
        offer = o;
        in_range = lt;
        offered = off;
        place = omega (arith, exact);
        bitmaps = refl;
        header = ground (arith, exact);
      }

  -- For an allocator of at most 4096 pages and a request of at most 2^20 - 24 bytes: either the
  -- result is the place behind the header of a block that was free, whose bits and no others are
  -- now set, or the result is 0, nothing has changed, and no page has a free block of that size.
  pub malloc_lem :
      Given a size (malloc a size).0 (malloc a size).1
      ⊎ ((malloc a size ≡ (a, 0)) × Exhausted a size)
  unfolding malloc
  malloc_lem = elim (Bool-cases (ltb (max_alloc_size - hdr_size) size)) [
    | inl refused ↦ absurd (ground arith)
    | inr accepted ↦ rw accepted (two_scans (u32 (get_or a.free_list_hint level 0)))
  ]
    where
      given : Allocator × ℕ → Type 0
      given r = Given a size r.0 r.1 ⊎ ((r ≡ (a, 0)) × Exhausted a size)

      all_used : scan_pages a.page_count 0 level a.page_cntl ≡ none → Exhausted a size
      all_used e p b lt at_b =
          try_page-none level _ class.level_lt (valid.bitmaps_fit p)
            (scan_pages-none a.page_count 0 level a.page_cntl e p (omega arith) (omega arith)) b
            at_b

      second_scan : given (elim (scan_pages a.page_count 0 level a.page_cntl) [
        | some (page_no, o) ↦ take_block true 0 size required level page_no o a
        | none ↦ (a, 0)
      ])
      second_scan = elim (Option-cases (scan_pages a.page_count 0 level a.page_cntl)) [
        | inl nothing ↦ rw nothing (inr (refl, all_used nothing))
        | inr ((q, o), found) ↦
            let (lo, hi, offered) = scan_pages-some a.page_count 0 level a.page_cntl found in
            rw found (inl (taken true 0 q o (omega arith) offered))
      ]

      two_scans :
          (from : ℕ)
          → given (elim (scan_pages (a.page_count - from) from level a.page_cntl) [
            | some (page_no, o) ↦
                take_block false (get_or a.free_list_hint level 0) size required level page_no o a
            | none ↦ elim (scan_pages a.page_count 0 level a.page_cntl) [
              | some (page_no, o) ↦ take_block true 0 size required level page_no o a
              | none ↦ (a, 0)
            ]
          ])
      two_scans from =
          elim (Option-cases (scan_pages (a.page_count - from) from level a.page_cntl)) [
            | inl nothing ↦ rw nothing second_scan
            | inr ((q, o), found) ↦
                let (lo, hi, offered) = scan_pages-some _ from level a.page_cntl found in
                rw found (inl (taken false _ q o (omega arith) offered))
          ]
