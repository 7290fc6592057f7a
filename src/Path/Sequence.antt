-- ===== src/Path/Sequence.antt =====
-- GetNextSequenceNum, and GenerateInodeIdBySeqAndNodeId of cuckoo/utils/utils.c. The sequence of the
-- database is a parameter: its values, one for each call of nextval.
pub mod Unique
use cuckoofs.Base.{
  ℕ, zero, suc, ◌+◌, ◌-◌, ◌*◌, ◌^◌, ◌%◌, ◌<◌, ◌≡◌, refl, sym, ap, ◌∙◌, arith, u64, ◌<<<◌, bit_and,
  bit_or,
}
use cuckoofs.Base.Bits.{and_mask, or_split, zero-or, or-zero}

-- The static variables of GetNextSequenceNum, and how often the sequence has been asked.
pub record Numbers : Type 0 where
  pub remain : ℕ
  pub current : ℕ
  pub asked : ℕ

-- Numbers that one value of the sequence stands for.
abbrev pub numbers_per_value : ℕ
numbers_per_value = 32

unfoldable pub next_of : Numbers → ℕ × Numbers
next_of n = (
  u64 (n.current + 1 + 2 ^ 64 - 1),
  record n { remain = n.remain - 1; current = u64 (n.current + 1) },
)

unfoldable pub get_next_sequence_num : (ℕ → ℕ) → Numbers → ℕ × Numbers
get_next_sequence_num nextval n = elim n.remain [
  | zero ↦
      next_of
        (record { remain = numbers_per_value; current = nextval n.asked; asked = suc n.asked })
  | suc r ↦ next_of n
]

-- The server's number is an int.
abbrev pub generate_inode_id : ℕ → ℕ → ℕ
generate_inode_id seq node_id = bit_or (u64 (seq <<< 12)) (bit_and node_id 4095)

-- The number of an inode, as a sequence number and a server.
generate_inode_id_lem :
    (seq node_id : ℕ)
    → seq < 2 ^ 52
    → node_id < 4096
    → generate_inode_id seq node_id ≡ seq * 4096 + node_id
generate_inode_id_lem seq node_id few small =
    let mask : bit_and node_id 4095 ≡ node_id = and_mask 12 node_id small in
    let word : u64 (seq <<< 12) ≡ 0 + 2 ^ 12 * seq = omega arith in
    let low : node_id ≡ node_id + 2 ^ 12 * 0 = omega arith in
    rw (mask, word)
      (ap (bit_or (0 + 2 ^ 12 * seq)) low
        ∙ or_split 12 0 seq node_id 0 (omega arith) small
        ∙ sums (bit_or 0 node_id) (bit_or seq 0) (zero-or node_id) (or-zero seq))
  where
    sums : (a b : ℕ) → a ≡ node_id → b ≡ seq → a + 2 ^ 12 * b ≡ seq * 4096 + node_id
    sums a b e f = omega arith

-- Two sequence numbers below 2^52 and two servers below 2^12 that are not the same make different inode
-- numbers.
pub generate_inode_id-inj :
    (seq seq' node_id node_id' : ℕ)
    → seq < 2 ^ 52
    → seq' < 2 ^ 52
    → node_id < 4096
    → node_id' < 4096
    → generate_inode_id seq node_id ≡ generate_inode_id seq' node_id'
    → (seq ≡ seq') × (node_id ≡ node_id')
generate_inode_id-inj seq seq' node_id node_id' h h' g g' same =
    let e =
      sym (generate_inode_id_lem seq node_id h g)
      ∙ same
      ∙ generate_inode_id_lem seq' node_id' h' g' in
    (omega arith, omega arith)
