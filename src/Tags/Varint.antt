-- ===== src/Tags/Varint.antt =====
-- `PutUvarint` and `Uvarint` of Go's encoding/binary, which both encodings of package tags call: seven
-- bits to a byte, the lowest first, and the top bit set on every byte but the last.
pub mod Laws
use instrumentation_go.Base.{
  ℕ, zero, suc, ◌+◌, ◌*◌, ◌/◌, ◌%◌, ◌^◌, ◌&&◌, ◌||◌, List, [], ◌∷◌, Option, none, some, Bytes,
  length, set, ltb, eqb, if◌then◌else◌,
}
use instrumentation_go.Base.Panic.{◌>>=◌}

-- `buf[i] = v`
unfoldable pub store_at : Bytes → ℕ → ℕ → Option Bytes
store_at buf i v = if ltb i (length buf) then some (set buf i v) else none

-- Writes `x` from index `i` on and returns the index behind it. `byte(x) | 0x80` is the low seven bits
-- of `x` with the top bit set. A uint64 has at most 10 groups, so 9 rounds of fuel suffice.
unfoldable pub put_uvarint_loop : ℕ → Bytes → ℕ → ℕ → Option (Bytes × ℕ)
unfolding store_at
put_uvarint_loop zero buf i x = do buf' ← store_at buf i (x % 256); some (buf', i + 1)
put_uvarint_loop (suc k) buf i x =
    let last : Option (Bytes × ℕ) = (do buf' ← store_at buf i (x % 256); some (buf', i + 1)) in
    let more : Option (Bytes × ℕ) = (do
      buf' ← store_at buf i (x % 128 + 128)
      put_uvarint_loop k buf' (i + 1) (x / 128)) in
    if ltb x 128 then last else more

unfoldable pub put_uvarint : Bytes → ℕ → ℕ → Option (Bytes × ℕ)
unfolding put_uvarint_loop
put_uvarint = put_uvarint_loop 9

-- What `Uvarint` returns: a value with the number of bytes read, or a count of 0 for an input that
-- ends too early, or a negative count for a value that overflows 64 bits.
pub data Uvarint : Type 0 where
  read : ℕ → ℕ → Uvarint
  short overflow : Uvarint

-- `|` on the disjoint groups is `+`; a shift by 64 or more leaves nothing of a uint64.
abbrev pub add_group : ℕ → ℕ → ℕ → ℕ
add_group x b s = (x + b * 2 ^ s % 2 ^ 64) % 2 ^ 64

unfoldable pub uvarint_loop : Bytes → ℕ → ℕ → ℕ → Uvarint
uvarint_loop [] x s i = short
uvarint_loop (b ∷ bs) x s i =
    let more = uvarint_loop bs (add_group x (b % 128) s) (s + 7) (i + 1) in
    if ltb b 128
    then (if ltb 9 i || (eqb i 9 && ltb 1 b) then overflow else read (add_group x b s) (i + 1))
    else more

unfoldable pub uvarint : Bytes → Uvarint
unfolding uvarint_loop
uvarint bs = uvarint_loop bs 0 0 0
