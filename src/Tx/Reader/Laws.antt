-- ===== src/Tx/Reader/Laws.antt =====
-- Reading what was written (`Accepts`).
use tensor_po_w.Base.{ℕ, List, [], ◌∷◌, ◌++◌, ◌+◌, ◌-◌, ◌^◌, ◌≤◌, ◌<◌, ◌≡◌, refl, sym, ap, ◌∙◌}
use tensor_po_w.Base.{length, take, drop, concat, map, All, Result, ok, arith}
use tensor_po_w.Base.{length-append, length-drop, take-append, drop-append, drop-drop}
use tensor_po_w.Base.{append_assoc, append-nil, le→ltb-false}
use tensor_po_w.Base.Bytes.{Bytes, to_le, length-to_le, from_le-to_le}
use tensor_po_w.Checks.{u16_max, u32_max}
use tensor_po_w.Tx.Reader.{Reader, Parser, ◌>>=◌, pure, lift, start, advance, read_bytes, read_uint}
use tensor_po_w.Tx.Reader.{read_sized, read_many, finish}

-- The reader stands before `xs`.
abbrev pub Holds : Reader → Bytes → Type 0
Holds r xs = (drop r.offset r.content ≡ xs) × (r.offset ≤ length r.content)

-- Before `xs` and anything else, the parser takes `xs` and returns `a`.
pub record Accepts {A : Type 0} (m : Parser A) (xs : Bytes) (a : A) : Type 0 where
  pub run :
      (r : Reader) (rest : Bytes)
      → Holds r (xs ++ rest)
      → (r' : Reader) × (m r ≡ ok (a, r')) × Holds r' rest

pub pure-Accepts : {A : Type 0} (a : A) → Accepts (pure a) [] a
pure-Accepts a = record { run = λ r rest h. (r, refl, h) }

pub lift-Accepts : {A : Type 0} (m : Result A) (a : A) → m ≡ ok a → Accepts (lift m) [] a
lift-Accepts m a e = record { run = λ r rest h. (r, rw e, h) }

pub >>=-Accepts :
    {A B : Type 0} (m : Parser A) (f : A → Parser B) {xs ys : Bytes} {a : A} {b : B}
    → Accepts m xs a
    → Accepts (f a) ys b
    → Accepts (m >>= f) (xs ++ ys) b
>>=-Accepts m f {xs} {ys} first second = record {
  run = λ r rest h.
      let (r', e, h') = first.run r (ys ++ rest) (rw (← append_assoc xs ys rest) h) in
      let (r'', e', h'') = second.run r' rest h' in (r'', rw e e', h'');
}

-- The same, where the continuation takes nothing more.
pub >>=-Accepts_last :
    {A B : Type 0} (m : Parser A) (f : A → Parser B) {xs : Bytes} {a : A} {b : B}
    → Accepts m xs a
    → Accepts (f a) [] b
    → Accepts (m >>= f) xs b
>>=-Accepts_last m f first second = record {
  run = λ r rest h.
      let (r', e, h') = first.run r rest h in
      let (r'', e', h'') = second.run r' rest h' in (r'', rw e e', h'');
}

read_bytes_eq :
    (n : ℕ) (r : Reader)
    → n ≤ u32_max
    → r.offset + n ≤ length r.content
    → read_bytes n r ≡ ok (take n (drop r.offset r.content), advance n r)
unfolding read_bytes
read_bytes_eq n r small fits =
    let width : r.offset + n - r.offset ≡ n = omega arith in
    rw (le→ltb-false u32_max n small, le→ltb-false (length r.content) (r.offset + n) fits, width)

pub read_bytes-Accepts :
    (n : ℕ) (xs : Bytes) → length xs ≡ n → n ≤ u32_max → Accepts (read_bytes n) xs xs
read_bytes-Accepts n xs width small = record {
  run = λ r rest h.
      let left : length r.content - r.offset ≡ n + length rest =
        sym (length-drop r.offset r.content)
        ∙ ap length h.0
        ∙ omega (arith, length-append xs rest) in
      let fits : r.offset + n ≤ length r.content = omega arith in
      (
        advance n r,
        read_bytes_eq n r small fits
            ∙ ap (λ t. ok (t, advance n r)) (rw h.0 (take-append xs rest n width)),
        (sym (drop-drop n r.offset r.content) ∙ rw h.0 (drop-append xs rest n width), fits),
      );
}

pub read_uint-Accepts :
    (width v : ℕ) → width ≤ u32_max → v < 256 ^ width → Accepts (read_uint width) (to_le width v) v
unfolding read_uint
read_uint-Accepts width v small fits =
    >>=-Accepts_last _ _ (read_bytes-Accepts width (to_le width v) (length-to_le width v) small)
      (rw (from_le-to_le width v fits) (pure-Accepts v))

pub read_sized-Accepts :
    (xs : Bytes) → length xs ≤ u16_max → Accepts read_sized (to_le 2 (length xs) ++ xs) xs
unfolding read_sized
read_sized-Accepts xs small =
    >>=-Accepts _ _ (read_uint-Accepts 2 (length xs) (omega arith) (omega arith))
      (read_bytes-Accepts (length xs) xs refl (omega arith))

pub concat-map_id : (hs : List Bytes) → concat (map (λ h. h) hs) ≡ concat hs
concat-map_id [] = refl
concat-map_id (h ∷ hs) = ap (◌++◌ h) (concat-map_id hs)

pub read_many-Accepts :
    {A : Type 0} (read : Parser A) (write : A → Bytes) (xs : List A)
    → All (λ x. Accepts read (write x) x) xs
    → Accepts (read_many (length xs) read) (concat (map write xs)) xs
unfolding read_many
read_many-Accepts read write [] h = pure-Accepts []
read_many-Accepts read write (x ∷ xs) (hx, h) =
    >>=-Accepts _ _ hx
      (>>=-Accepts_last _ _ (read_many-Accepts read write xs h) (pure-Accepts (x ∷ xs)))

-- A parser that accepts all of the input, run from its start and followed by `finish`.
pub Accepts-whole :
    {A : Type 0} (m : Parser A) {xs : Bytes} {a : A}
    → Accepts m xs a
    → (r : Reader) × (m (start xs) ≡ ok (a, r)) × (finish r ≡ ok (tt, r))
unfolding finish
Accepts-whole m {xs} accepted =
    let (r, e, h) = accepted.run (start xs) [] (sym (append-nil xs), omega arith) in
    let done : r.offset ≡ length r.content =
      let left = sym (length-drop r.offset r.content) ∙ ap length h.0 in omega arith in
    (r, e, ground arith)
