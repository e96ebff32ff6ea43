-- ===== src/Dict/Hash.antt =====
-- The one-at-a-time hash of `ht_hash`, on 64-bit `unsigned long` words. `char` is signed, as on the
-- x86-64 targets: a byte above 127 is sign-extended before it is added.
use Prim.Native.Nat.{bit_xor}
use reprompi_dev.Prelude.{
  ℕ, ◌+◌, ◌-◌, ◌*◌, ◌/◌, ◌%◌, ◌^◌, ◌<◌, ◌≡◌, refl, [], ◌∷◌, arith, ltb, if◌then◌else◌,
}
use reprompi_dev.Prelude.Text.{Str}

abbrev pub word : ℕ
word = 2 ^ 64

unfoldable pub widen : ℕ → ℕ
widen c = if ltb c 128 then c else word + c - 256

-- the loop body, on one byte of the key
unfoldable pub mix : ℕ → ℕ → ℕ
unfolding widen
mix hash c =
    let a = (hash + widen c) % word in
    let b = (a + a * 2 ^ 10 % word) % word in bit_xor b (b / 2 ^ 6)

unfoldable pub mix_key : ℕ → Str → ℕ
unfolding mix
mix_key hash [] = hash
mix_key hash (c ∷ key) = mix_key (mix hash c) key

unfoldable pub finish : ℕ → ℕ
finish hash =
    let a = (hash + hash * 2 ^ 3 % word) % word in
    let b = bit_xor a (a / 2 ^ 11) in (b + b * 2 ^ 15 % word) % word

-- `hash % hashtable->size`, for a size of at least 1
unfoldable pub hash_key : Str → ℕ → ℕ
unfolding mix_key finish
hash_key key size = finish (mix_key 0 key) % size

pub hash_key-lt : (key : Str) (size : ℕ) → 0 < size → hash_key key size < size
unfolding hash_key
hash_key-lt key size h = omega arith

-- "a" hashes as Jenkins' function does.
hash_a : finish (mix_key 0 (97 ∷ [])) % 2 ^ 32 ≡ 0xca2e9442
unfolding finish mix_key
hash_a = refl
