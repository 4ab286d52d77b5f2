-- ===== src/Script/Machine/Pushes.antt =====
-- Scripts of pushes: what `encode_push` writes is what the machine puts on its stack.
use tensor_po_w.Base.{
  ℕ, zero, suc, ◌+◌, ◌≤◌, ◌<◌, ◌≡◌, refl, sym, ap, ◌∙◌, [], ◌∷◌, ◌++◌, List, concat, map, reverse,
}
use tensor_po_w.Base.{
  some, get_elem?, slice, All, length, ok, arith, append_assoc, append-nil, length-append,
}
use tensor_po_w.Base.{le→ltb-false, lt→ltb, get_elem?_middle, slice_middle}
use tensor_po_w.Base.Bytes.{Bytes, to_le, from_le, length-to_le, from_le-to_le}
use mathlib.Core.List.{reverse-reverse, reverse-cons}
use tensor_po_w.Crypto.Primitives.{Primitives}
use tensor_po_w.Script.Stack.{Stack, require_stack_item, push, push_initial}
use tensor_po_w.Script.Stack.Laws.{IsItem}
use tensor_po_w.Script.Machine.{
  Context, read_push, step, run_loop, execute, execute_script, encode_push,
}

-- The bytes that `encode_push` returns for an item that fits.
abbrev pub pushed : Bytes → Bytes
pushed item = 1 ∷ (to_le 2 (length item) ++ item)

pub encode_push_lem : (item : Bytes) → IsItem item → encode_push item ≡ ok (pushed item)
unfolding encode_push require_stack_item
encode_push_lem item h = ground arith

length-pushed : (item : Bytes) → length (pushed item) ≡ 3 + length item
length-pushed item =
    omega (arith, length-append (to_le 2 (length item)) item, length-to_le 2 (length item))

-- `read_push` where the length and the item stand at the offset.
read_push_lem :
    (script : Bytes) (offset : ℕ) (item : Bytes)
    → IsItem item
    → slice offset (offset + 2) script ≡ to_le 2 (length item)
    → slice (offset + 2) (offset + 2 + length item) script ≡ item
    → offset + 2 + length item ≤ length script
    → read_push script offset ≡ ok (item, offset + 2 + length item)
unfolding read_push
read_push_lem script offset item h size here fits =
    let size' : from_le (slice offset (offset + 2) script) ≡ length item =
      ap from_le size ∙ from_le-to_le 2 (length item) (omega arith) in
    rw (
      size',
      here,
      le→ltb-false (length script) (offset + 2) (omega arith),
      le→ltb-false 520 (length item) h,
      le→ltb-false (length script) (offset + 2 + length item) fits,
    )

-- Behind `pre` and an opcode, `read_push` reads the item and stops behind it.
read_push-pushed :
    (pre item rest : Bytes)
    → IsItem item
    → read_push (pre ++ (pushed item ++ rest)) (length pre + 1)
      ≡ ok (item, length pre + length (pushed item))
read_push-pushed pre item rest h =
    let len : Bytes = to_le 2 (length item) in
    let two : length len ≡ 2 = length-to_le 2 (length item) in
    let head : Bytes = pre ++ (1 ∷ []) in
    let width : length head ≡ length pre + 1 = length-append pre (1 ∷ []) in
    let before : length (head ++ len) ≡ length pre + 1 + 2 =
      omega (arith, length-append head len) in
    let split : pre ++ (pushed item ++ rest) ≡ head ++ (len ++ (item ++ rest)) =
      simp append_assoc in
    let split' : head ++ (len ++ (item ++ rest)) ≡ (head ++ len) ++ (item ++ rest) =
      sym (append_assoc head len (item ++ rest)) in
    let stop : length pre + 1 + 2 + length item ≡ length pre + length (pushed item) =
      omega (arith, length-pushed item) in
    rw split (
      read_push_lem (head ++ (len ++ (item ++ rest))) (length pre + 1) item h
        (slice_middle (length pre + 1) 2 head len (item ++ rest) width two)
        (rw split'
          (slice_middle (length pre + 1 + 2) (length item) (head ++ len) item rest before refl))
        (omega (
          arith,
          length-append head (len ++ (item ++ rest)),
          length-append len (item ++ rest),
          length-append item rest,
        ))
      ∙ ap (λ k. ok (item, k)) stop)

module _ (p : Primitives) (c : Context) where
  step_push :
      (script : Bytes) (offset offset' : ℕ) (item : Bytes) (s : Stack)
      → get_elem? script offset ≡ some 1
      → read_push script (offset + 1) ≡ ok (item, offset')
      → IsItem item
      → length s < 1024
      → step p c script offset s ≡ ok (offset', item ∷ s)
  unfolding step push require_stack_item
  step_push script offset offset' item s op here h room = ground arith

  run_loop-step :
      (fuel : ℕ) (script : Bytes) (offset op_count : ℕ) (s : Stack) {offset' : ℕ} {s' : Stack}
      → offset < length script
      → op_count < 256
      → step p c script offset s ≡ ok (offset', s')
      → run_loop p (suc fuel) c script offset op_count s
        ≡ run_loop p fuel c script offset' (op_count + 1) s'
  unfolding run_loop
  run_loop-step fuel script offset op_count s inside room e =
      rw (lt→ltb offset (length script) inside, le→ltb-false 256 (op_count + 1) (omega arith), e)

  run_loop_end :
      (fuel : ℕ) (script : Bytes) (op_count : ℕ) (s : Stack)
      → run_loop p (suc fuel) c script (length script) op_count s ≡ ok s
  unfolding run_loop
  run_loop_end fuel script op_count s =
      rw (le→ltb-false (length script) (length script) (omega arith))

  run_loop-pushes :
      (items : List Bytes) (fuel : ℕ) (pre : Bytes) (op_count : ℕ) (s : Stack)
      → All IsItem items
      → length items < fuel
      → op_count + length items ≤ 256
      → length s + length items ≤ 1024
      → run_loop p fuel c (pre ++ concat (map pushed items)) (length pre) op_count s
        ≡ ok (reverse items ++ s)
  run_loop-pushes items zero pre op_count s h enough count room = absurd (omega arith)
  run_loop-pushes [] (suc fuel) pre op_count s h enough count room =
      rw (append-nil pre) (run_loop_end fuel pre op_count s)
  run_loop-pushes (item ∷ items) (suc fuel) pre op_count s (hi, h) enough count room =
      let rest : Bytes = concat (map pushed items) in
      let inside : length pre < length (pre ++ (pushed item ++ rest)) =
        omega (arith, length-append pre (pushed item ++ rest)) in
      let first =
        step_push (pre ++ (pushed item ++ rest)) (length pre) _ item s
          (get_elem?_middle pre 1 (to_le 2 (length item) ++ item ++ rest))
          (read_push-pushed pre item rest hi) hi (omega arith) in
      let split : pre ++ (pushed item ++ rest) ≡ (pre ++ pushed item) ++ rest =
        sym (append_assoc pre (pushed item) rest) in
      let later : run_loop p fuel c (pre ++ (pushed item ++ rest))
            (length pre + length (pushed item)) (op_count + 1) (item ∷ s)
          ≡ ok (reverse items ++ (item ∷ s)) =
        rw (split, ← length-append pre (pushed item))
          (run_loop-pushes items fuel (pre ++ pushed item) (op_count + 1) (item ∷ s) h (omega arith)
            (omega arith) (omega arith)) in
      run_loop-step fuel (pre ++ (pushed item ++ rest)) (length pre) op_count s inside (omega arith)
        first
      ∙ later
      ∙ ap ok (sym (rw reverse-cons (append_assoc (reverse items) (item ∷ []) s)))

  -- A script of at most 256 pushes and 1024 bytes, each push written by `encode_push`, leaves
  -- exactly the pushed items, in the order of the pushes.
  pub execute_script-pushes :
      (items : List Bytes)
      → All IsItem items
      → length items ≤ 256
      → length (concat (map pushed items)) ≤ 1024
      → execute_script p c (concat (map pushed items)) [] ≡ ok items
  unfolding execute_script execute push_initial
  execute_script-pushes items h count size = rw (
    le→ltb-false 1024 (length (concat (map pushed items))) size,
    run_loop-pushes items 257 [] 0 [] h (omega arith) (omega arith) (omega arith),
    append-nil (reverse items),
    reverse-reverse items,
  )
