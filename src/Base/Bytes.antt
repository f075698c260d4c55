-- ===== src/Base/Bytes.antt =====
-- Bytes as numbers, and struct's little-endian integers over lists of them.
use Prim.Native.Nat.{ℕ, zero, suc, ◌+◌, ◌*◌, ◌/◌, ◌%◌, ◌^◌, ◌≤◌, ◌<◌}
use mathlib.Core.Path.{◌≡◌, refl, ap}
use mathlib.Core.List.{List, [], ◌∷◌, ◌++◌}
use native.Mathlib.Omega.{arith}
use tug.Base.Lists.{length}

-- struct.unpack_from("<I") and "<H", of as many bytes as the list has
unfoldable pub little_endian : List ℕ → ℕ
little_endian [] = 0
little_endian (b ∷ bs) = b + 256 * little_endian bs

-- struct.pack("<I") and "<H", in so many bytes
unfoldable pub bytes_of : ℕ → ℕ → List ℕ
bytes_of zero n = []
bytes_of (suc width) n = n % 256 ∷ bytes_of width (n / 256)

-- data[start:], data[:n]
unfoldable pub drop : ℕ → List ℕ → List ℕ
drop zero s = s
drop (suc n) [] = []
drop (suc n) (c ∷ s) = drop n s

unfoldable pub take : ℕ → List ℕ → List ℕ
take zero s = []
take (suc n) [] = []
take (suc n) (c ∷ s) = c ∷ take n s

-- data[start : start + n]
abbrev pub slice : ℕ → ℕ → List ℕ → List ℕ
slice start n s = take n (drop start s)

pub take-append : (n : ℕ) (s t : List ℕ) → n ≤ length s → take n (s ++ t) ≡ take n s
unfolding take
take-append zero s t h = refl
take-append (suc n) [] t h = absurd (omega (arith, h))
take-append (suc n) (c ∷ s) t h = ap (λ r. c ∷ r) (take-append n s t (omega (arith, h)))

pub take-length_append : (s t : List ℕ) → take (length s) (s ++ t) ≡ s
unfolding take
take-length_append [] t = refl
take-length_append (c ∷ s) t = ap (λ r. c ∷ r) (take-length_append s t)

pub drop-length_append : (s t : List ℕ) → drop (length s) (s ++ t) ≡ t
unfolding drop
drop-length_append [] t = refl
drop-length_append (c ∷ s) t = drop-length_append s t

pub slice-append :
    (before s after : List ℕ) (n m : ℕ)
    → n ≡ length before
    → m ≡ length s
    → slice n m (before ++ (s ++ after)) ≡ s
slice-append before s after n m hn hm =
    rw (hn, hm, drop-length_append before (s ++ after)) (take-length_append s after)

pub length-bytes_of : (width n : ℕ) → length (bytes_of width n) ≡ width
unfolding bytes_of
length-bytes_of zero n = refl
length-bytes_of (suc width) n = omega (arith, length-bytes_of width (n / 256))

pub little_endian-bytes_of_4 : (n : ℕ) → n < 2 ^ 32 → little_endian (bytes_of 4 n) ≡ n
unfolding little_endian bytes_of
little_endian-bytes_of_4 n h = omega arith
