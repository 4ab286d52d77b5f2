-- ===== src/Tx/Reader/Inverse.antt =====
-- What a successful read says of the bytes that the reader passed over.
use tensor_po_w.Base.{
  ℕ, zero, suc, [], ◌∷◌, ◌++◌, ◌+◌, ◌-◌, ◌^◌, ◌≤◌, ◌<◌, ◌≡◌, refl, sym, ap, ap₂, ◌∙◌,
}
use tensor_po_w.Base.{length, take, drop, concat, map, All, All-drop, All-take, Result, ok, arith}
use tensor_po_w.Base.{length-take, length-drop, drop-drop}
use tensor_po_w.Base.{
  subst, eq_nil_of_length, take-append-drop, append_assoc, append-nil, >>=-eq-ok,
}
use tensor_po_w.Base.Bytes.{Bytes, IsByte, IsBytes, to_le, from_le, from_le-lt}
use tensor_po_w.Base.Bytes.{to_le-from_le}
use tensor_po_w.Checks.{u16_max}
use tensor_po_w.Tx.Reader.{Reader, Parser, ◌>>=◌, pure, lift, start, advance, read_bytes, read_uint}
use tensor_po_w.Tx.Reader.{read_sized, read_many, read_all, finish}
use tensor_po_w.Base.{◌>>=◌ as bind_result}

-- From `r` to `r'` the reader passed over `xs`.
pub record Took (r : Reader) (xs : Bytes) (r' : Reader) : Type 0 where
  pub same : r'.content ≡ r.content
  pub passed : drop r.offset r.content ≡ xs ++ drop r'.offset r'.content
  pub within : r'.offset ≤ length r'.content

pub Took-trans :
    {r r' r'' : Reader} {xs ys : Bytes} → Took r xs r' → Took r' ys r'' → Took r (xs ++ ys) r''
Took-trans {r} {r'} {r''} {xs} {ys} a b = record {
  same = b.same ∙ a.same;
  passed =
      a.passed ∙ ap (◌++◌ xs) b.passed ∙ sym (append_assoc xs ys (drop r''.offset r''.content));
  within = b.within;
}

pub Took-nil : (r : Reader) → r.offset ≤ length r.content → Took r [] r
Took-nil r h = record { same = refl; passed = refl; within = h }

pub Took-IsBytes :
    {r r' : Reader} {xs : Bytes} → Took r xs r' → IsBytes r.content → IsBytes r'.content
Took-IsBytes t h = rw t.same h

read_bytes_parts :
    (n : ℕ) (r : Reader) {bs : Bytes} {r' : Reader}
    → read_bytes n r ≡ ok (bs, r')
    → (r.offset + n ≤ length r.content)
      × (bs ≡ take (r.offset + n - r.offset) (drop r.offset r.content))
      × (r' ≡ advance n r)
unfolding read_bytes
read_bytes_parts n r e = ground arith

advance-Took :
    (n : ℕ) (r : Reader)
    → r.offset + n ≤ length r.content
    → Took r (take n (drop r.offset r.content)) (advance n r)
advance-Took n r fits = record {
  same = refl;
  passed =
      sym (take-append-drop n (drop r.offset r.content))
      ∙ ap (◌++◌ (take n (drop r.offset r.content))) (drop-drop n r.offset r.content);
  within = fits;
}

-- What a successful run of the parser says of its result and of the bytes that it took.
pub record Reads {A : Type 0} (m : Parser A) (R : A → Bytes → Type 0) : Type 0 where
  pub run :
      (r : Reader) (a : A) (r' : Reader)
      → r.offset ≤ length r.content
      → IsBytes r.content
      → m r ≡ ok (a, r')
      → (xs : Bytes) × Took r xs r' × R a xs

pub read_bytes_reads :
    (n : ℕ) {R : Bytes → Bytes → Type 0}
    → ((bs : Bytes) → length bs ≡ n → IsBytes bs → R bs bs)
    → Reads (read_bytes n) R
read_bytes_reads n {R} post = record {
  run = λ r bs r' h bytes e.
      let (fits, eq, moved) = read_bytes_parts n r e in
      let width : r.offset + n - r.offset ≡ n = omega arith in
      let eq' : bs ≡ take n (drop r.offset r.content) = rw width at eq in
      let here : n ≤ length (drop r.offset r.content) =
        omega (arith, length-drop r.offset r.content) in
      (
        bs,
        rw (moved, eq') (advance-Took n r fits),
        post bs (rw eq' (length-take n (drop r.offset r.content) here))
            (rw eq' (All-take IsByte n _ (All-drop IsByte r.offset r.content bytes))),
      );
}

ok_pair_injective :
    {A : Type 0} {a b : A} {r r' : Reader}
    → ◌≡◌ {A = Result (A × Reader)} (ok (a, r)) (ok (b, r'))
    → (b ≡ a) × (r' ≡ r)
ok_pair_injective e = (cc, cc)

-- A weaker claim on the result.
pub Reads-imp :
    {A : Type 0} {m : Parser A} {R S : A → Bytes → Type 0}
    → Reads m R
    → ((a : A) (xs : Bytes) → R a xs → S a xs)
    → Reads m S
Reads-imp reads weaken = record {
  run = λ r a r' h bytes e.
      let (xs, took, post) = reads.run r a r' h bytes e in (xs, took, weaken a xs post);
}

pub pure_reads : {A : Type 0} (a : A) {R : A → Bytes → Type 0} → R a [] → Reads (pure a) R
pure_reads a {R} post = record {
  run = λ r b r' h bytes e.
      let (eb, er) = ok_pair_injective e in
      ([], rw er (Took-nil r h), subst (λ x. R x []) (sym eb) post);
}

pub lift_reads :
    {A : Type 0} (m : Result A) {R : A → Bytes → Type 0}
    → ((a : A) → m ≡ ok a → R a [])
    → Reads (lift m) R
lift_reads m {R} post = record {
  run = λ r b r' h bytes e.
      let (a, ea, e') = >>=-eq-ok m (λ x. ok (x, r)) e in
      let (eb, er) = ok_pair_injective e' in
      ([], rw er (Took-nil r h), subst (λ x. R x []) (sym eb) (post a ea));
}

-- A constructor call, which returns the object that it is given.
pub lift_new_reads :
    {A : Type 0} (m : Result A) (a : A) {R : A → Bytes → Type 0}
    → ((b : A) → m ≡ ok b → (b ≡ a) × R a [])
    → Reads (lift m) R
lift_new_reads m a {R} post =
    lift_reads m (λ b e. subst (λ j. R j []) (sym ((post b e).0)) (post b e).1)

pub >>=_reads :
    {A B : Type 0} (m : Parser A) (f : A → Parser B) {R : B → Bytes → Type 0}
    → Reads m (λ a xs. Reads (f a) (λ b ys. R b (xs ++ ys)))
    → Reads (m >>= f) R
>>=_reads m f {R} first = record {
  run = λ r b r'' h bytes e.
      let ((a, r'), e', e'') = >>=-eq-ok (m r) (λ q. f q.0 q.1) e in
      let (xs, took, second) = first.run r a r' h bytes e' in
      let (ys, took', post) = second.run r' b r'' took.within (Took-IsBytes took bytes) e'' in
      (xs ++ ys, Took-trans took took', post);
}

pub read_uint_reads :
    (width : ℕ) {R : ℕ → Bytes → Type 0}
    → ((v : ℕ) → v < 256 ^ width → R v (to_le width v))
    → Reads (read_uint width) R
unfolding read_uint
read_uint_reads width {R} post = >>=_reads _ _ (
    read_bytes_reads width λ bs size bytes. pure_reads (from_le bs) (
      subst (λ zs. R (from_le bs) zs)
        (subst (λ k. to_le k (from_le bs) ≡ bs ++ []) size
          (to_le-from_le bs bytes ∙ sym (append-nil bs)))
        (post (from_le bs) (subst (λ k. from_le bs < 256 ^ k) size (from_le-lt bs bytes)))))

pub read_sized_reads :
    {R : Bytes → Bytes → Type 0}
    → ((bs : Bytes) → length bs ≤ u16_max → IsBytes bs → R bs (to_le 2 (length bs) ++ bs))
    → Reads read_sized R
unfolding read_sized
read_sized_reads {R} post = >>=_reads _ _ (
    read_uint_reads 2 λ size fits. read_bytes_reads size λ bs width bytes.
      subst (λ k. R bs (to_le 2 k ++ bs)) width (post bs (rw width (omega arith)) bytes))

pub read_many_reads :
    {A : Type 0} (read : Parser A) (write : A → Bytes) (P : A → Type 0)
    → Reads read (λ a xs. (xs ≡ write a) × P a)
    → (n : ℕ)
    → Reads
        (read_many n read)
        (λ as' xs. (xs ≡ concat (map write as')) × All P as' × (length as' ≡ n))
unfolding read_many
read_many_reads read write P one zero = pure_reads [] (refl, tt, refl)
read_many_reads read write P one (suc n) = >>=_reads _ _ (
    Reads-imp one λ a xs here. >>=_reads _ _ (
      Reads-imp (read_many_reads read write P one n) λ as' ys there.
        pure_reads (a ∷ as')
          (ap₂ ◌++◌ here.0 (append-nil ys ∙ there.0), (here.1, there.1), ap suc there.2)))

-- A parser followed by `finish`, run from the start: it took all of the input.
pub reads_whole :
    {A : Type 0} (m : Parser A) {R : A → Bytes → Type 0} (bs : Bytes) {a : A} {r r' : Reader}
    → Reads m R
    → IsBytes bs
    → m (start bs) ≡ ok (a, r)
    → finish r ≡ ok (tt, r')
    → R a bs
unfolding finish
reads_whole m {R} bs {a} {r} reads bytes e done =
    let (xs, took, post) = reads.run (start bs) a r (omega arith) bytes e in
    let at_end : r.offset ≡ length r.content = ground arith in
    let rest : drop r.offset r.content ≡ [] =
      eq_nil_of_length _ (omega (arith, length-drop r.offset r.content)) in
    subst (R a) (sym (took.passed ∙ ap (◌++◌ xs) rest ∙ append-nil xs)) post

pub read_all_reads :
    {A : Type 0} (m : Parser A) {R : A → Bytes → Type 0} (bs : Bytes) {a : A}
    → Reads m R
    → IsBytes bs
    → read_all m bs ≡ ok a
    → R a bs
unfolding read_all
read_all_reads m {R} bs {a} reads bytes e =
    let ((b, r), e', e'') =
      >>=-eq-ok (m (start bs)) (λ q. bind_result (finish q.1) (λ _. ok q.0)) e in
    let ((u, r'), done, same) = >>=-eq-ok (finish r) (λ _. ok b) e'' in
    let eq : a ≡ b = cc in rw eq (reads_whole m bs reads bytes e' done)
