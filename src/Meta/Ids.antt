-- ===== src/Meta/Ids.antt =====
-- The number under which a row of the inode table stands: that of its directory and, in the low 13
-- bits, a hash of its name.
use cuckoofs.Base.{ℕ, ◌+◌, ◌*◌, ◌^◌, ◌<◌, ◌≤◌, bit_or, ◌≡◌, ◌↔◌, ap, ◌∙◌, arith, u64, ◌<<<◌}
use cuckoofs.Base.Bits.{or_split, and-lt, zero-or, or-zero}
use cuckoofs.Path.Tree.{Name}
use cuckoofs.Meta.{filename_length, part_id_mask, hash_loop, hash_part_id, combine}

pub hash_part_id-lt : (name : Name) → hash_part_id name < 2 ^ 13
unfolding hash_part_id
hash_part_id-lt name = and-lt 13 (hash_loop filename_length 0 name) part_id_mask (omega arith)

-- With a directory's number below 2^51 no bit is lost.
pub combine-eq :
    (parent_id part_id : ℕ)
    → parent_id < 2 ^ 51
    → part_id < 2 ^ 13
    → combine parent_id part_id ≡ parent_id * 2 ^ 13 + part_id
unfolding combine
combine-eq parent_id part_id small low =
    let word : u64 (parent_id <<< 13) ≡ 0 + 2 ^ 13 * parent_id = omega arith in
    let part : part_id ≡ part_id + 2 ^ 13 * 0 = omega arith in
    ap (λ (t : ℕ). bit_or t part_id) word
    ∙ ap (λ (t : ℕ). bit_or (0 + 2 ^ 13 * parent_id) t) part
    ∙ or_split 13 0 parent_id part_id 0 (omega arith) low
    ∙ omega (arith, zero-or part_id, or-zero parent_id)

-- The numbers between the least and the greatest of a directory are those of its own rows: what the
-- scans of ReadDir and Rmdir rely on.
pub combine-between :
    (directory_id parent_id part_id : ℕ)
    → directory_id < 2 ^ 51
    → parent_id < 2 ^ 51
    → part_id < 2 ^ 13
    → (((combine directory_id 0 ≤ combine parent_id part_id)
          × (combine parent_id part_id ≤ combine directory_id part_id_mask))
        ↔ (parent_id ≡ directory_id))
combine-between directory_id parent_id part_id small small' low =
    rw
      (
        combine-eq directory_id 0 small (omega arith),
        combine-eq parent_id part_id small' low,
        combine-eq directory_id part_id_mask small (omega arith),
      )
      (ground arith)
