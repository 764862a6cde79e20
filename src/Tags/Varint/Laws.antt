-- ===== src/Tags/Varint/Laws.antt =====
-- The bytes that the two varint routines of Go's encoding/binary write and read.
use native.Mathlib.Nat.{div-add-mod}
use native.Mathlib.Numerals.{towards_suc}
use instrumentation_go.Base.{
  ℕ, zero, suc, ◌+◌, ◌*◌, ◌/◌, ◌%◌, ◌^◌, ◌<◌, ◌≤◌, ◌≡◌, refl, ap, ◌∙◌, [], ◌∷◌, ◌++◌, some, Bytes,
  length, set, take, ltb, lt→ltb, if◌then◌else◌, arith, length-set, length-append, inl, inr,
  Bool-cases, ltb→lt, append_assoc,
}
use instrumentation_go.Tags.Varint.{
  store_at, put_uvarint_loop, read, add_group, uvarint_loop, uvarint,
}

-- The groups of `x`, which has at most `k + 1` of them.
unfoldable pub groups : ℕ → ℕ → Bytes
groups zero x = (x % 256) ∷ []
groups (suc k) x =
    let more = groups k (x / 128) in if ltb x 128 then (x % 256) ∷ [] else (x % 128 + 128) ∷ more

pub length-groups : (k x : ℕ) → (1 ≤ length (groups k x)) × (length (groups k x) ≤ k + 1)
unfolding groups
length-groups zero x = omega arith
length-groups (suc k) x = ground (arith, length-groups k (x / 128))

pub take-set :
    (buf : Bytes) (i v : ℕ) → i < length buf → take (suc i) (set buf i v) ≡ take i buf ++ v ∷ []
take-set [] i v h = absurd (omega arith)
take-set (x ∷ xs) zero v h = refl
take-set (x ∷ xs) (suc i) v h = ap (λ t. x ∷ t) (take-set xs i v (omega arith))

-- The first `i` bytes stay, and the bytes `xs` follow them.
pub record Writes (buf : Bytes) (i : ℕ) (xs : Bytes) (buf' : Bytes) (j : ℕ) : Type 0 where
  pub prefix : take j buf' ≡ take i buf ++ xs
  pub same_length : length buf' ≡ length buf
  pub end : j ≡ i + length xs

pub store_at-Writes :
    (buf : Bytes) (i v : ℕ)
    → i < length buf
    → (store_at buf i v ≡ some (set buf i v)) × Writes buf i (v ∷ []) (set buf i v) (i + 1)
unfolding store_at
store_at-Writes buf i v h = (
  rw (lt→ltb _ _ h),
  record {
    prefix = simp towards_suc (take-set buf i v h);
    same_length = length-set buf i v;
    end = omega arith;
  },
)

pub Writes-trans :
    {a b c : Bytes} {i j k : ℕ} (xs ys : Bytes)
    → Writes a i xs b j
    → Writes b j ys c k
    → Writes a i (xs ++ ys) c k
Writes-trans {a} {b} {c} {i} xs ys p q = record {
  prefix = q.prefix ∙ ap (λ t. t ++ ys) p.prefix ∙ append_assoc (take i a) xs ys;
  same_length = omega arith;
  end = omega (arith, length-append xs ys);
}

-- With room for `k + 1` bytes the loop does not panic.
pub put_uvarint_loop-Writes :
    (k : ℕ) (buf : Bytes) (i x : ℕ)
    → i + k < length buf
    → (buf' : Bytes) × (j : ℕ) × (put_uvarint_loop k buf i x ≡ some (buf', j))
      × Writes buf i (groups k x) buf' j
unfolding put_uvarint_loop groups
put_uvarint_loop-Writes zero buf i x h =
    let (e, w) = store_at-Writes buf i (x % 256) (omega arith) in
    (set buf i (x % 256), i + 1, rw e, w)
put_uvarint_loop-Writes (suc k) buf i x h = elim (Bool-cases (ltb x 128)) [
  | inl small ↦
      let (e, w) = store_at-Writes buf i (x % 256) (omega arith) in
      (set buf i (x % 256), i + 1, rw (small, e), rw small w)
  | inr large ↦
      let (e, w) = store_at-Writes buf i (x % 128 + 128) (omega arith) in
      let (buf', j, e', w') =
        put_uvarint_loop-Writes k (set buf i (x % 128 + 128)) (i + 1) (x / 128)
          (omega (arith, w.same_length)) in
      (
        buf',
        j,
        rw (large, e) e',
        rw large (Writes-trans ((x % 128 + 128) ∷ []) (groups k (x / 128)) w w'),
      )
]

-- One round of `uvarint_loop` on a last byte `w`, and on a byte that carries the group `g`.
last_byte :
    (w x s i : ℕ) (rest : Bytes)
    → w < 128
    → i < 9
    → x + w * 2 ^ s < 2 ^ 64
    → uvarint_loop (w ∷ rest) x s i ≡ read (x + w * 2 ^ s) (i + 1)
unfolding uvarint_loop
last_byte w x s i rest h l fits = ground arith

tenth_byte :
    (w x s : ℕ) (rest : Bytes)
    → w < 2
    → x + w * 2 ^ s < 2 ^ 64
    → uvarint_loop (w ∷ rest) x s 9 ≡ read (x + w * 2 ^ s) 10
unfolding uvarint_loop
tenth_byte w x s rest h fits = ground arith

inner_byte :
    (g x s i : ℕ) (rest : Bytes)
    → g < 128
    → x + g * 2 ^ s < 2 ^ 64
    → uvarint_loop ((g + 128) ∷ rest) x s i ≡ uvarint_loop rest (x + g * 2 ^ s) (s + 7) (i + 1)
unfolding uvarint_loop
inner_byte g x s i rest h fits = ground arith

seven_bits_up : (e : ℕ) → 128 * 2 ^ e ≡ 2 ^ (e + 7)
seven_bits_up e = simp towards_suc (omega arith)

-- The lowest group of a number, and the others, from bit `e` on.
low_group_others : (e x : ℕ) → x / 128 * 2 ^ (e + 7) + x % 128 * 2 ^ e ≡ x * 2 ^ e
low_group_others e x =
    let scaled = ap (λ (n : ℕ). n * 2 ^ e) (div-add-mod x 128) in
    let others = ap (λ (n : ℕ). x / 128 * n) (seven_bits_up e) in omega (arith, scaled, others)

tenth_group :
    (w x s : ℕ) (rest : Bytes)
    → s ≡ 63
    → x + w * 2 ^ s < 2 ^ 64
    → uvarint_loop ((w % 256) ∷ rest) x s 9 ≡ read (x + w * 2 ^ s) 10
tenth_group w x s rest e fits =
    let small : w < 2 = omega (arith, ap (λ (t : ℕ). w * 2 ^ t) e) in
    let same : w % 256 ≡ w = omega arith in rw same (tenth_byte w x s rest small fits)

-- `w` is what is still to be read, from bit `s` on, which the byte at index `i` begins with.
uvarint_loop-groups :
    (k w x s i : ℕ) (rest : Bytes)
    → i + k ≡ 9
    → s ≡ 7 * i
    → x + w * 2 ^ s < 2 ^ 64
    → uvarint_loop (groups k w ++ rest) x s i ≡ read (x + w * 2 ^ s) (i + length (groups k w))
unfolding groups
uvarint_loop-groups zero w x s i rest hi hs fits =
    let e : i ≡ 9 = omega arith in
    let e' : s ≡ 63 = omega arith in ground (arith, tenth_group w x s rest e' fits)
uvarint_loop-groups (suc k) w x s i rest hi hs fits = elim (Bool-cases (ltb w 128)) [
  | inl small ↦
      let same : w % 256 ≡ w = omega (arith, ltb→lt w 128 small) in
      rw (small, same) (last_byte w x s i rest (ltb→lt w 128 small) (omega arith) fits)
  | inr large ↦ rw large (
      inner_byte (w % 128) x s i (groups k (w / 128) ++ rest) (omega arith)
        (omega (arith, low_group_others s w))
      ∙ uvarint_loop-groups k (w / 128) (x + w % 128 * 2 ^ s) (s + 7) (i + 1) rest (omega arith)
          (omega arith) (omega (arith, low_group_others s w))
      ∙ ground (arith, low_group_others s w))
]

-- `Uvarint` reads back the uint64 that `PutUvarint` wrote, whatever follows it.
pub uvarint-groups :
    (x : ℕ) (rest : Bytes)
    → x < 2 ^ 64
    → uvarint (groups 9 x ++ rest) ≡ read x (length (groups 9 x))
unfolding uvarint
uvarint-groups x rest h = ground (arith, uvarint_loop-groups 9 x 0 0 0 rest)

-- A count that `Uvarint` returns is positive and lies within the input.
uvarint_loop_count :
    (bs : Bytes) (x s i v n : ℕ)
    → uvarint_loop bs x s i ≡ read v n
    → (i < n) × (n ≤ i + length bs) × (v < 2 ^ 64)
unfolding uvarint_loop
uvarint_loop_count [] x s i v n e = cc
uvarint_loop_count (b ∷ bs) x s i v n e =
    ground (arith, uvarint_loop_count bs (add_group x (b % 128) s) (s + 7) (i + 1) v n)

pub uvarint_count :
    (bs : Bytes) (v n : ℕ) → uvarint bs ≡ read v n → (0 < n) × (n ≤ length bs) × (v < 2 ^ 64)
unfolding uvarint
uvarint_count bs v n e = ground (arith, uvarint_loop_count bs 0 0 0 v n e)
