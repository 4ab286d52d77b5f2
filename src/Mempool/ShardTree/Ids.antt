-- ===== src/Mempool/ShardTree/Ids.antt =====
-- Shard identifiers of src/tensorpow/mempool/shard_tree.py: a depth of at most 16 and the low bits
-- of a route. The source's bit operations are written in arithmetic: `<< 16` and `>> 16` as products
-- and quotients by 2 ^ 16, `& ((1 << d) - 1)` as the remainder by 2 ^ d, and `|` as a sum, since in
-- each use the bits of its operands do not overlap.
pub mod Laws
use tensor_po_w.Base.{ℕ, ◌+◌, ◌-◌, ◌*◌, ◌/◌, ◌%◌, ◌^◌, ltb, leb, ◌==◌, not, ◌&&◌, ◌||◌}
use tensor_po_w.Base.{Result, ok, value_error, raise_if, ◌>>◌, ◌>>=◌, if◌then◌else◌, Bool}
use tensor_po_w.Checks.{u32_max}

abbrev pub shard_id_depth_shift : ℕ
shard_id_depth_shift = 16

abbrev pub shard_max_depth : ℕ
shard_max_depth = 16

abbrev pub root_shard_id : ℕ
root_shard_id = 0

-- The two halves of an identifier.
abbrev pub depth_of : ℕ → ℕ
depth_of shard_id = shard_id / 2 ^ 16

abbrev pub path_of : ℕ → ℕ
path_of shard_id = shard_id % 2 ^ 16

-- `require_shard_id`
unfoldable pub require_shard_id : ℕ → Result ℕ
require_shard_id shard_id = do
  raise_if (ltb u32_max shard_id) value_error
  raise_if (ltb shard_max_depth (depth_of shard_id)) value_error
  raise_if (leb (2 ^ depth_of shard_id) (path_of shard_id)) value_error
  ok shard_id

-- `encode_shard_id`
unfoldable pub encode_shard_id : ℕ → ℕ → Result ℕ
encode_shard_id depth path = do
  raise_if (ltb shard_max_depth depth) value_error
  raise_if (leb (2 ^ depth) path) value_error
  ok (depth * 2 ^ 16 + path)

-- `decode_shard_id`
unfoldable pub decode_shard_id : ℕ → Result (ℕ × ℕ)
decode_shard_id shard_id = require_shard_id shard_id >>= λ id. ok (depth_of id, path_of id)

-- `path & _path_mask(depth)`
abbrev pub low_bits : ℕ → ℕ → ℕ
low_bits depth path = path % 2 ^ depth

-- `parent_shard_id`
unfoldable pub parent_shard_id : ℕ → Result ℕ
parent_shard_id shard_id = do
  (depth, path) ← decode_shard_id shard_id
  raise_if (depth == 0) value_error
  encode_shard_id (depth - 1) (low_bits (depth - 1) path)

-- `child_shard_ids`
unfoldable pub child_shard_ids : ℕ → Result (ℕ × ℕ)
child_shard_ids shard_id = do
  (depth, path) ← decode_shard_id shard_id
  raise_if (leb shard_max_depth depth) value_error
  left ← encode_shard_id (depth + 1) path
  right ← encode_shard_id (depth + 1) (path + 2 ^ depth)
  ok (left, right)

-- `{a, b} == {0, 1}`
unfoldable pub opposite : ℕ → ℕ → Bool
opposite a b = ((a == 0) && (b == 1)) || ((a == 1) && (b == 0))

-- `require_sibling_shards`
unfoldable pub require_sibling_shards : ℕ × ℕ → Result (ℕ × ℕ)
require_sibling_shards (left, right) = do
  (left_depth, left_path) ← decode_shard_id left
  (right_depth, right_path) ← decode_shard_id right
  raise_if (left == right) value_error
  raise_if (not (left_depth == right_depth)) value_error
  raise_if (left_depth == 0) value_error
  raise_if (not (low_bits (left_depth - 1) left_path == low_bits (left_depth - 1) right_path))
      value_error
  raise_if (not (opposite (left_path / 2 ^ (left_depth - 1)) (right_path / 2 ^ (right_depth - 1))))
      value_error
  ok (if ltb right left then (right, left) else (left, right))
