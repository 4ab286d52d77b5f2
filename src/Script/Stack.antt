-- ===== src/Script/Stack.antt =====
-- The stack of the script machine. Its top is the head of the list, the last item of the source's.
pub mod Laws
use tensor_po_w.Base.{
  ℕ, zero, suc, [], ◌∷◌, List, not, ltb, leb, ◌==◌, length, Bool, true, false, Result, ok, err,
}
use tensor_po_w.Base.{script_error, raise_if, if◌then◌else◌, ◌>>=◌, ◌>>◌}
use tensor_po_w.Base.Bytes.{Bytes, beq, from_le}

abbrev pub script_max_stack_items : ℕ
script_max_stack_items = 1024

abbrev pub script_max_element_bytes : ℕ
script_max_element_bytes = 520

abbrev pub Stack : Type 0
Stack = List Bytes

-- `_require_stack_item`
unfoldable pub require_stack_item : Bytes → Result (Unit {0})
require_stack_item item = raise_if (ltb script_max_element_bytes (length item)) script_error

-- `_push`
unfoldable pub push : Bytes → Stack → Result Stack
unfolding require_stack_item
push item stack = do
  require_stack_item item
  raise_if (leb script_max_stack_items (length stack)) script_error
  ok (item ∷ stack)

-- `_push_bool`
unfoldable pub push_bool : Bool → Stack → Result Stack
unfolding push
push_bool value stack = push (if value then 1 ∷ [] else []) stack

-- `_pop`
unfoldable pub pop : Stack → Result (Bytes × Stack)
pop [] = err script_error
pop (item ∷ stack) = ok (item, stack)

-- `reversed(tuple(_pop(…) for _ in range(count)))`, over what was popped before.
unfoldable pub pop_many : ℕ → List Bytes → Stack → Result (List Bytes × Stack)
unfolding pop
pop_many zero popped stack = ok (popped, stack)
pop_many (suc n) popped stack = do (item, stack') ← pop stack; pop_many n (item ∷ popped) stack'

-- `_initial_stack`, on what the loop has pushed so far.
unfoldable pub push_initial : List Bytes → Stack → Result Stack
unfolding require_stack_item
push_initial [] stack = ok stack
push_initial (item ∷ items) stack = do
  raise_if (leb script_max_stack_items (length stack)) script_error
  require_stack_item item
  push_initial items (item ∷ stack)

unfoldable pub decode_small_int : Bytes → Result ℕ
decode_small_int (b ∷ []) = ok b
decode_small_int _ = err script_error

unfoldable pub decode_lock : Bytes → Result ℕ
decode_lock item = do raise_if (not (length item == 8)) script_error; ok (from_le item)

unfoldable pub truthy : Bytes → Result Bool
truthy item =
    if beq item [] then ok false else if beq item (1 ∷ []) then ok true else err script_error
