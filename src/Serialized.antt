-- ===== src/Serialized.antt =====
-- remote_connection_def/remote_connection_utils/serialized_data.h: a buffer of items, each a 32-bit
-- size in little-endian order and as many bytes, all multiples of 4.
-- `little` is what SystemIsLittleEndian finds; `alloc` and `realloc` are the memory manager's.
pub mod Endian
pub mod Grow
pub mod Items
pub mod Append
pub mod Limits
pub mod Segment
mod Tests
use cuckoofs.Base.{
  ℕ, zero, suc, ◌+◌, ◌-◌, ◌*◌, ◌/◌, ◌%◌, ◌^◌, bit_and, bit_or, Bool, true, false, ◌||◌, Option,
  none, some, not, ◌==◌, ltb, leb, if◌then◌else◌, u32, sub64, add64, not64, ◌<<<◌, ◌>>>◌,
}

-- A block of bytes, by offset.
abbrev pub Memory : Type 0
Memory = ℕ → ℕ

abbrev pub default_capacity : ℕ
default_capacity = 128

abbrev pub alignment : ℕ
alignment = 4

abbrev pub alignment_mask : ℕ
alignment_mask = alignment - 1

-- SerializedData. `has_manager` says whether the pointer to the memory manager is not null.
pub record SerializedData : Type 0 where
  pub buffer : Option Memory
  pub size : ℕ
  pub capacity : ℕ
  pub has_manager : Bool

-- ConvertBetweenBigAndLittleEndian
unfoldable pub convert_endian : ℕ → ℕ
convert_endian value =
    bit_or
      (bit_or (bit_or (bit_and value 0xFF000000 >>> 24) (bit_and value 0x00FF0000 >>> 8))
        (u32 (bit_and value 0x0000FF00 <<< 8)))
      (u32 (bit_and value 0x000000FF <<< 24))

abbrev pub byte : ℕ → ℕ → ℕ
byte value i = value / 2 ^ (8 * i) % 2 ^ 8

-- A uint32_t as a processor of the given byte order stores it at an offset, and loads it.
unfoldable pub store32 : Bool → Memory → ℕ → ℕ → Memory
store32 little m at value j =
    if ltb j at || leb (at + 4) j then m j else byte value (if little then j - at else 3 - (j - at))

unfoldable pub load32 : Bool → Memory → ℕ → ℕ
load32 true m at = m at + 2 ^ 8 * m (at + 1) + 2 ^ 16 * m (at + 2) + 2 ^ 24 * m (at + 3)
load32 false m at = m (at + 3) + 2 ^ 8 * m (at + 2) + 2 ^ 16 * m (at + 1) + 2 ^ 24 * m at

-- The size field of an item: what both ends convert to and from on a big-endian machine.
abbrev pub put_size : Bool → Memory → ℕ → ℕ → Memory
put_size little m at size = store32 little m at (if little then size else convert_endian size)

abbrev pub get_size : Bool → Memory → ℕ → ℕ
get_size little m at = if little then load32 little m at else convert_endian (load32 little m at)

-- SerializedDataInit on a buffer that is given and on none; `none` is its false.
unfoldable pub init : Option Memory → ℕ → ℕ → Bool → Option SerializedData
init none buffer_size valid_bytes manager =
    some (record { buffer = none; size = 0; capacity = 0; has_manager = true })
init (some buffer) buffer_size valid_bytes manager =
    if not (bit_and buffer_size alignment_mask == 0)
      || not (bit_and valid_bytes alignment_mask == 0)
    then none
    else some (record {
      buffer = some buffer;
      size = valid_bytes;
      capacity = buffer_size;
      has_manager = manager;
    })

-- SerializedDataClear
unfoldable pub clear : SerializedData → SerializedData
clear sd = record sd { size = 0 }

-- The loop of SerializedDataEnlarge: `none` is a loop that the fuel does not end.
unfoldable pub double_until : ℕ → ℕ → ℕ → Option ℕ
double_until zero new_capacity size = if ltb new_capacity size then none else some new_capacity
double_until (suc fuel) new_capacity size =
    let rest = double_until fuel (u32 (new_capacity * 2)) size in
    if ltb new_capacity size then rest else some new_capacity

abbrev pub first_capacity : ℕ → ℕ
first_capacity capacity = if capacity == 0 then default_capacity else u32 (capacity * 2)

-- What an operation on a buffer comes to: a new buffer and a value, a refusal that leaves the buffer,
-- a loop that has not ended, or an access outside the buffer, of which C says nothing.
pub data Result (A : Type 0) : Type 0 where
  done : SerializedData → A → Result A
  refused : Result A
  looping : Result A
  undefined : Result A

-- The bytes that SerializedDataApplyForSegment reserves for a segment, `size` being below 2^32.
unfoldable pub align : ℕ → ℕ
align size = u32 (size + bit_and (add64 (not64 (bit_and size alignment_mask)) 1) alignment_mask)

-- memcpy of the first `n` bytes of `src` to an offset.
unfoldable pub copy : Memory → ℕ → Memory → ℕ → Memory
copy m at src n j = if ltb j at || leb (at + n) j then m j else src (j - at)

-- The store of SerializedDataApplyForSegment, and the copy of SerializedDataAppend.
unfoldable pub write_size : Bool → ℕ → SerializedData → Result ℕ
write_size little size sd = elim sd.buffer [
  | none ↦ undefined
  | some m ↦
      if leb (sd.size + 4) sd.capacity
      then done
          (record sd {
            buffer = some (put_size little m sd.size size);
            size = u32 (sd.size + alignment + size);
          })
          (sd.size + alignment)
      else undefined
]

unfoldable pub copy_items : SerializedData → SerializedData → Result Bool
copy_items src dest = elim dest.buffer [
  | none ↦ if src.size == 0 then done dest true else undefined
  | some m ↦ elim src.buffer [
    | none ↦ if src.size == 0 then done dest true else undefined
    | some items ↦
        if leb (dest.size + src.size) dest.capacity
        then done
            (record dest {
              buffer = some (copy m dest.size items src.size);
              size = u32 (dest.size + src.size);
            })
            true
        else undefined
  ]
]

-- An operation that goes on where SerializedDataEnlarge returns true.
abbrev pub when_done : {A : Type 0} → Result Bool → (SerializedData → Result A) → Result A
when_done (done sd t) next = next sd
when_done refused next = refused
when_done looping next = looping
when_done undefined next = undefined

-- `realloc` is told how long the block is that it moves.
module _ (alloc : ℕ → Option Memory) (realloc : ℕ → Memory → ℕ → Option Memory) where
  unfoldable pub new_buffer : SerializedData → ℕ → Option Memory
  new_buffer sd new_capacity = elim sd.buffer [
    | some old ↦ realloc sd.capacity old new_capacity
    | none ↦ alloc new_capacity
  ]

  -- SerializedDataEnlarge: `done` is its true, `refused` its false.
  unfoldable pub enlarge : ℕ → SerializedData → ℕ → Result Bool
  enlarge fuel sd size =
      if leb size sd.capacity
      then done sd true
      else if not sd.has_manager
      then refused
      else elim (double_until fuel (first_capacity sd.capacity) size) [
        | none ↦ looping
        | some new_capacity ↦ elim (new_buffer sd new_capacity) [
          | none ↦ refused
          | some m ↦ done (record sd { buffer = some m; capacity = new_capacity }) true
        ]
      ]

  -- SerializedDataApplyForSegment: the offset of the segment in the buffer, or its NULL.
  unfoldable pub apply_for_segment : Bool → ℕ → SerializedData → ℕ → Result ℕ
  apply_for_segment little fuel sd requested =
      let size = align requested in
      when_done (enlarge fuel sd (u32 (sd.size + alignment + size))) (write_size little size)

  -- SerializedDataAppend
  unfoldable pub append : ℕ → SerializedData → SerializedData → Result Bool
  append fuel dest src = when_done (enlarge fuel dest (u32 (dest.size + src.size))) (copy_items src)

-- The loop of SerializedDataNextSeveralItemSize: the offset behind the items, its -1, or a load from
-- outside the buffer.
pub data Scan : Type 0 where
  ended : ℕ → Scan
  invalid : Scan
  outside : Scan

unfoldable pub scan_items : Bool → SerializedData → Memory → ℕ → ℕ → Scan
scan_items little sd m zero p = ended p
scan_items little sd m (suc item_count) p =
    let item_size = get_size little m p in
    let rest = scan_items little sd m item_count (p + alignment + item_size) in
    if not (leb (p + 4) sd.capacity)
    then outside
    else if not (bit_and item_size alignment_mask == 0)
    then invalid
    else if ltb sd.size (p + alignment + item_size)
    then invalid
    else rest

abbrev pub scan_error : ℕ
scan_error = 2 ^ 32 - 1

-- SerializedDataNextSeveralItemSize, `none` being a load from outside the buffer.
unfoldable pub next_several_item_size : Bool → SerializedData → ℕ → ℕ → Option ℕ
next_several_item_size little sd start item_count = elim sd.buffer [
  | none ↦
      if not (bit_and start alignment_mask == 0)
      then some scan_error
      else if item_count == 0
      then some 0
      else none
  | some m ↦
      if not (bit_and start alignment_mask == 0)
      then some scan_error
      else elim (scan_items little sd m item_count start) [
        | ended p ↦ some (u32 (u32 p + 2 ^ 32 - start))
        | invalid ↦ some scan_error
        | outside ↦ none
      ]
]
