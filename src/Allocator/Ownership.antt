-- ===== src/Allocator/Ownership.antt =====
-- One page under any interleaving of its users. A compare-exchange that succeeds found the bitmap
-- from which the offer was computed, and one that fails changes nothing, so the bitmap moves by
-- whole offers and by the fetch-and of a release.
use cuckoofs.Base.{
  ℕ, ◌+◌, ◌*◌, ◌^◌, ◌≤◌, ◌<◌, bit_and, ◌≡◌, ◌↔◌, ap, ◌∙◌, Bool, true, not, ◌&&◌, some, List, [],
  ◌∷◌, ◌++◌, arith, if◌then◌else◌, ltb, leb, not64, u64,
}
use cuckoofs.Base.Bits.{
  test_bit, test_bit-and, test_bit-complement, test_bit-zero, test_bit-ext, and-lt,
}
use cuckoofs.Allocator.{Offer, try_page, occupy_at}
use cuckoofs.Allocator.Bitmap.{width}
use cuckoofs.Allocator.Page.{IsBlock, IsOffer, try_page-IsOffer, occupied_bit, unused_bit}

-- A block that someone was given and has not released.
pub record Block : Type 0 where
  pub level : ℕ
  pub first : ℕ

pub record Page : Type 0 where
  pub bitmap : ℕ
  pub owned : List Block

-- The fetch-and of CuckooShmemAllocatorFree.
abbrev pub released : Block → ℕ → ℕ
released b x = bit_and x (not64 (u64 (occupy_at b.level * 2 ^ b.first)))

pub data Step : Page → Page → Type 0 where
  take :
      {x : ℕ} {bs : List Block} {o : Offer} (level : ℕ)
      → level < 7
      → try_page level x ≡ some o
      → Step
          (record { bitmap = x; owned = bs })
          (record { bitmap = o.desired; owned = (record { level = level; first = o.block }) ∷ bs })
  give_back :
      {x : ℕ} (before after : List Block) (b : Block) {bs : List Block}
      → bs ≡ before ++ b ∷ after
      → Step
          (record { bitmap = x; owned = bs })
          (record { bitmap = released b x; owned = before ++ after })

pub data Reach : Page → Type 0 where
  empty : Reach (record { bitmap = 0; owned = [] })
  later : {p q : Page} → Reach p → Step p q → Reach q

abbrev pub covers : ℕ → Block → Bool
covers i b = leb b.first i && ltb i (b.first + width b.level)

-- How many of the blocks have bit `i`.
abbrev pub cover : ℕ → List Block → ℕ
cover i [] = 0
cover i (b ∷ bs) = (if covers i b then 1 else 0) + cover i bs

abbrev pub AreBlocks : List Block → Type 0
AreBlocks [] = Unit
AreBlocks (b ∷ bs) = (b.level < 7) × IsBlock b.level b.first × AreBlocks bs

pub record Inv (p : Page) : Type 0 where
  pub fits : p.bitmap < 2 ^ 64
  pub blocks : AreBlocks p.owned
  pub counted : (i : ℕ) → i < 64 → cover i p.owned ≡ (if test_bit p.bitmap i then 1 else 0)

cover-append : (i : ℕ) (xs ys : List Block) → cover i (xs ++ ys) ≡ cover i xs + cover i ys
cover-append i [] ys = omega arith
cover-append i (x ∷ xs) ys = omega (arith, cover-append i xs ys)

AreBlocks-split :
    (xs : List Block) (b : Block) (ys : List Block)
    → AreBlocks (xs ++ b ∷ ys)
    → (b.level < 7) × IsBlock b.level b.first × AreBlocks (xs ++ ys)
AreBlocks-split [] b ys h = h
AreBlocks-split (x ∷ xs) b ys h =
    let (lt, placed, rest) = AreBlocks-split xs b ys h.2 in (lt, placed, (h.0, h.1, rest))

take_counted :
    (level x : ℕ) (bs : List Block) (o : Offer) (i : ℕ)
    → IsOffer level x o
    → i < 64
    → cover i bs ≡ (if test_bit x i then 1 else 0)
    → cover i ((record { level = level; first = o.block }) ∷ bs)
      ≡ (if test_bit o.desired i then 1 else 0)
take_counted level x bs o i off lt e =
    ground (arith, off.stored i lt, unused_bit x o.block (width level) i off.unused)

released_bit :
    (b : Block) (x i : ℕ)
    → b.level < 7
    → IsBlock b.level b.first
    → i < 64
    → test_bit (released b x) i ≡ (test_bit x i && not (covers i b))
released_bit b x i small placed lt =
    test_bit-and i x _
    ∙ ap (λ t. test_bit x i && t)
        (test_bit-complement 64 (u64 (occupy_at b.level * 2 ^ b.first)) i (omega arith) lt
          ∙ ap not (occupied_bit b.level b.first i small placed lt))

released-lt : (b : Block) (x : ℕ) → released b x < 2 ^ 64
released-lt b x = and-lt 64 x _ (omega arith)

pub Step-Inv : {p q : Page} → Step p q → Inv p → Inv q
Step-Inv (take {x} {bs} {o} level small e) inv =
    let off = try_page-IsOffer level x small inv.fits e in
    record {
      fits = off.desired_lt;
      blocks = (small, off.placed, inv.blocks);
      counted = λ i lt. take_counted level x bs o i off lt (inv.counted i lt);
    }
Step-Inv (give_back {x} before after b e) inv =
    let (small, placed, rest) = AreBlocks-split before b after (rw e at inv.blocks) in
    record {
      fits = released-lt b x;
      blocks = rest;
      counted = λ i lt. ground (
        arith,
        inv.counted i lt,
        ap (cover i) e,
        cover-append i before (b ∷ after),
        cover-append i before after,
        released_bit b x i small placed lt,
      );
    }

pub Reach-Inv : {p : Page} → Reach p → Inv p
Reach-Inv empty = record {
  fits = omega arith;
  blocks = tt;
  counted = λ i lt. ground (arith, test_bit-zero i);
}
Reach-Inv (later r st) = Step-Inv st (Reach-Inv r)

-- In every state that a page reaches from empty by allocations and releases of blocks that are
-- owned, in any order, each bit of its bitmap is set exactly when one owned block has it, and no
-- bit is in two owned blocks.
pub owned_once :
    {p : Page}
    → Reach p
    → (i : ℕ) → i < 64
    → (cover i p.owned ≤ 1) × ((test_bit p.bitmap i ≡ true) ↔ (cover i p.owned ≡ 1))
owned_once r i lt = ground (arith, (Reach-Inv r).counted i lt)

-- A page with no owned block left has an empty bitmap again: releases leak nothing.
pub all_released : {p : Page} → Reach p → p.owned ≡ [] → p.bitmap ≡ 0
all_released {p} r none =
    test_bit-ext 64 p.bitmap 0 (Reach-Inv r).fits (omega arith)
      (λ i lt. ground (arith, (Reach-Inv r).counted i lt, ap (cover i) none, test_bit-zero i))
