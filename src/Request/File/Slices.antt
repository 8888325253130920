-- ===== src/Request/File/Slices.antt =====
-- The bytes of a message body that a write leaves as they are or replaces, as
-- ClientServerFileTransferRequest.cpp lays the headers out.
use hex.Base.{
  ℕ, zero, suc, ◌+◌, ◌-◌, ◌/◌, ◌%◌, ◌≤◌, ◌<◌, ◌≡◌, refl, sym, ap, ◌∙◌, [], ◌∷◌, ◌++◌, arith, length,
  take, drop, replicate,
}
use hex.Protocol.{Bytes, write_at, write_int, int_of, read_int}
use hex.Request.{write_long, write_short}
use hex.Request.Bodies.{read-write_at}

-- `n` bytes from offset `k` on
abbrev pub slice : (k n : ℕ) → Bytes → Bytes
slice k n buf = take n (drop k buf)

-- a write behind the slice
pub slice_below :
    (k n off : ℕ) (bs buf : Bytes) → k + n ≤ off → slice k n (write_at off bs buf) ≡ slice k n buf
unfolding write_at
slice_below k n zero bs buf l = let e : n ≡ 0 = omega arith in rw e refl
slice_below k n (suc off) bs [] l = refl
slice_below zero zero (suc off) bs (c ∷ buf) l = refl
slice_below zero (suc n) (suc off) bs (c ∷ buf) l =
    ap (λ t. c ∷ t) (slice_below zero n off bs buf (omega arith))
slice_below (suc k) n (suc off) bs (c ∷ buf) l = slice_below k n off bs buf (omega arith)

drop-write_at :
    (k off : ℕ) (bs buf : Bytes) → off + length bs ≤ k → drop k (write_at off bs buf) ≡ drop k buf
unfolding write_at
drop-write_at k zero [] buf l = refl
drop-write_at k zero (b ∷ bs) [] l = refl
drop-write_at zero zero (b ∷ bs) (c ∷ buf) l = absurd (omega arith)
drop-write_at (suc k) zero (b ∷ bs) (c ∷ buf) l = drop-write_at k zero bs buf (omega arith)
drop-write_at k (suc off) bs [] l = refl
drop-write_at zero (suc off) bs (c ∷ buf) l = absurd (omega arith)
drop-write_at (suc k) (suc off) bs (c ∷ buf) l = drop-write_at k off bs buf (omega arith)

-- a write before the slice
pub slice_above :
    (k n off : ℕ) (bs buf : Bytes)
    → off + length bs ≤ k
    → slice k n (write_at off bs buf) ≡ slice k n buf
slice_above k n off bs buf l = ap (take n) (drop-write_at k off bs buf l)

-- the same for a short, an int and a long
pub slice_below-short :
    (k n off v : ℕ) (buf : Bytes) → k + n ≤ off → slice k n (write_short off v buf) ≡ slice k n buf
unfolding write_short
slice_below-short k n off v buf l = slice_below k n off (v % 256 ∷ v / 256 % 256 ∷ []) buf l

pub slice_above-short :
    (k n off v : ℕ) (buf : Bytes) → off + 2 ≤ k → slice k n (write_short off v buf) ≡ slice k n buf
unfolding write_short
slice_above-short k n off v buf l = slice_above k n off (v % 256 ∷ v / 256 % 256 ∷ []) buf l

abbrev int_bytes : ℕ → Bytes
int_bytes v = v % 256 ∷ v / 256 % 256 ∷ v / 65536 % 256 ∷ v / 16777216 % 256 ∷ []

slice_below-int :
    (k n off v : ℕ) (buf : Bytes) → k + n ≤ off → slice k n (write_int off v buf) ≡ slice k n buf
unfolding write_int
slice_below-int k n off v buf l = slice_below k n off (int_bytes v) buf l

slice_above-int :
    (k n off v : ℕ) (buf : Bytes) → off + 4 ≤ k → slice k n (write_int off v buf) ≡ slice k n buf
unfolding write_int
slice_above-int k n off v buf l = slice_above k n off (int_bytes v) buf l

pub slice_below-long :
    (k n off v : ℕ) (buf : Bytes) → k + n ≤ off → slice k n (write_long off v buf) ≡ slice k n buf
unfolding write_long
slice_below-long k n off v buf l =
    slice_below-int k n (off + 4) 0 (write_int off v buf) (omega arith)
    ∙ slice_below-int k n off v buf l

pub slice_above-long :
    (k n off v : ℕ) (buf : Bytes) → off + 8 ≤ k → slice k n (write_long off v buf) ≡ slice k n buf
unfolding write_long
slice_above-long k n off v buf l =
    slice_above-int k n (off + 4) 0 (write_int off v buf) (omega arith)
    ∙ slice_above-int k n off v buf (omega arith)

-- an int is read from four bytes
read_int_slice : (buf : Bytes) → int_of buf ≡ int_of (take 4 buf)
unfolding int_of
read_int_slice [] = refl
read_int_slice (a ∷ []) = refl
read_int_slice (a ∷ b ∷ []) = refl
read_int_slice (a ∷ b ∷ c ∷ []) = refl
read_int_slice (a ∷ b ∷ c ∷ d ∷ buf) = refl

pub read_int-eq_of_slice :
    (off : ℕ) (a b : Bytes) → slice off 4 a ≡ slice off 4 b → read_int off a ≡ read_int off b
unfolding read_int
read_int-eq_of_slice off a b e =
    read_int_slice (drop off a) ∙ ap int_of e ∙ sym (read_int_slice (drop off b))

int_of-int_bytes : (v : ℕ) → v < 4294967296 → int_of (int_bytes v) ≡ v
unfolding int_of
int_of-int_bytes v l = omega arith

pub read_int-write_int :
    (off v : ℕ) (buf : Bytes)
    → off + 4 ≤ length buf
    → v < 4294967296
    → read_int off (write_int off v buf) ≡ v
unfolding read_int write_int
read_int-write_int off v buf l b =
    read_int_slice (drop off (write_int off v buf))
    ∙ ap int_of (read-write_at off (int_bytes v) buf l)
    ∙ int_of-int_bytes v b

pub read_int-write_long :
    (off v : ℕ) (buf : Bytes)
    → off + 4 ≤ length buf
    → v < 4294967296
    → read_int off (write_long off v buf) ≡ v
unfolding write_long
read_int-write_long off v buf l b =
    read_int-eq_of_slice off (write_int (off + 4) 0 (write_int off v buf)) (write_int off v buf)
      (slice_below-int off 4 (off + 4) 0 (write_int off v buf) (omega arith))
    ∙ read_int-write_int off v buf l b

-- a text written over a longer run of one byte
take-over :
    (n : ℕ) (a : ℕ) (bs buf : Bytes)
    → length bs ≤ n
    → n ≤ length buf
    → take n (write_at 0 bs (write_at 0 (replicate n a) buf)) ≡ bs ++ replicate (n - length bs) a
unfolding write_at
take-over zero a [] buf l k = refl
take-over zero a (b ∷ bs) buf l k = absurd (omega arith)
take-over (suc n) a bs [] l k = absurd (omega arith)
take-over (suc n) a [] (c ∷ buf) l k =
    let e : suc n - 0 ≡ suc (n - 0) = omega arith in
    rw e (ap (λ t. a ∷ t) (take-over n a [] buf (omega arith) (omega arith)))
take-over (suc n) a (b ∷ bs) (c ∷ buf) l k =
    let e : suc n - suc (length bs) ≡ n - length bs = omega arith in
    rw e (ap (λ t. b ∷ t) (take-over n a bs buf (omega arith) (omega arith)))

pub slice-over :
    (off n a : ℕ) (bs buf : Bytes)
    → length bs ≤ n
    → off + n ≤ length buf
    → slice off n (write_at off bs (write_at off (replicate n a) buf))
      ≡ bs ++ replicate (n - length bs) a
unfolding write_at
slice-over zero n a bs buf l k = take-over n a bs buf l (omega arith)
slice-over (suc off) n a bs [] l k = absurd (omega arith)
slice-over (suc off) n a bs (c ∷ buf) l k = slice-over off n a bs buf l (omega arith)

pub take_add : (k n : ℕ) (s : Bytes) → take k s ++ take n (drop k s) ≡ take (k + n) s
take_add zero n s = ap (λ m. take m s) (omega arith)
take_add (suc k) n [] = let e : suc k + n ≡ suc (k + n) = omega arith in rw e (nil n)
  where
    nil : (n : ℕ) → ◌≡◌ {A = Bytes} ([] ++ take n []) []
    nil zero = refl
    nil (suc n) = refl
take_add (suc k) n (x ∷ s) =
    let e : suc k + n ≡ suc (k + n) = omega arith in rw e (ap (λ t. x ∷ t) (take_add k n s))

pub take_all : (k : ℕ) (s : Bytes) → length s ≤ k → take k s ≡ s
take_all zero [] l = refl
take_all zero (x ∷ s) l = absurd (omega arith)
take_all (suc k) [] l = refl
take_all (suc k) (x ∷ s) l = ap (λ t. x ∷ t) (take_all k s (omega arith))
