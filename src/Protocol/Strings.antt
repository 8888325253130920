-- ===== src/Protocol/Strings.antt =====
-- Strings in message bodies: what a reader gets of a string that was put there.
use hex.Base.{
  ℕ, zero, suc, ◌+◌, ◌<◌, ◌≡◌, ◌≢◌, refl, ◌∙◌, ap, true, some, [], ◌∷◌, ◌++◌, arith, ◌==◌,
  if◌then◌else◌, length, get_elem?, drop,
}
use hex.Protocol.{Bytes, write_at, put_string, c_string, string_eq}

-- a string holds no NUL
abbrev pub NoNul : Bytes → Type 0
NoNul [] = Unit {0}
NoNul (c ∷ cs) = (c ≢ 0) × NoNul cs

c_string-put :
    (s buf : Bytes) (b : ℕ)
    → NoNul s
    → get_elem? buf (length s) ≡ some b
    → length s + 1 < length buf
    → c_string (write_at (suc (length s)) (0 ∷ []) (write_at 0 s buf))
      ≡ (if b == 0 then s else s ++ b ∷ [])
unfolding c_string write_at
c_string-put [] [] b n e l = absurd (omega arith)
c_string-put [] (x ∷ []) b n e l = absurd (omega arith)
c_string-put [] (x ∷ y ∷ buf) b n e l = ground arith
c_string-put (c ∷ cs) [] b n e l = absurd (omega arith)
c_string-put (c ∷ cs) (x ∷ buf) b n e l = ground (arith, c_string-put cs buf b n.1 e (omega arith))

write_at-nil : (k : ℕ) (bs : Bytes) → write_at k bs [] ≡ []
unfolding write_at
write_at-nil zero [] = refl
write_at-nil zero (b ∷ bs) = refl
write_at-nil (suc k) bs = refl

drop-write_at :
    (off k : ℕ) (bs buf : Bytes)
    → drop off (write_at (off + k) bs buf) ≡ write_at k bs (drop off buf)
unfolding write_at
drop-write_at zero k bs buf = ap (λ n. write_at n bs buf) (omega arith)
drop-write_at (suc off) k bs [] =
    let e : suc off + k ≡ suc (off + k) = omega arith in rw (e, write_at-nil k bs) refl
drop-write_at (suc off) k bs (x ∷ buf) =
    let e : suc off + k ≡ suc (off + k) = omega arith in rw e (drop-write_at off k bs buf)

-- What a reader gets of a string without NUL that was copied to an offset of a body with room for
-- it and two bytes more: the string itself if the byte right behind it was NUL before, and
-- otherwise the string with that byte added, up to the terminator one place too far.
pub c_string-put_string :
    (off : ℕ) (s buf : Bytes) (b : ℕ)
    → NoNul s
    → get_elem? (drop off buf) (length s) ≡ some b
    → length s + 1 < length (drop off buf)
    → c_string (drop off (put_string off s buf)) ≡ (if b == 0 then s else s ++ b ∷ [])
unfolding put_string
c_string-put_string off s buf b n e l =
    let first : drop off (write_at off s buf) ≡ write_at 0 s (drop off buf) =
      ap (λ k. drop off (write_at k s buf)) (omega arith) ∙ drop-write_at off 0 s buf in
    let second : drop off (write_at (off + length s + 1) (0 ∷ []) (write_at off s buf))
        ≡ write_at (suc (length s)) (0 ∷ []) (drop off (write_at off s buf)) =
      ap (λ k. drop off (write_at k (0 ∷ []) (write_at off s buf))) (omega arith)
      ∙ drop-write_at off (suc (length s)) (0 ∷ []) (write_at off s buf) in
    ap c_string (second ∙ ap (write_at (suc (length s)) (0 ∷ [])) first)
    ∙ c_string-put s (drop off buf) b n e l

pub string_eq_self : (s : Bytes) → string_eq s s ≡ true
unfolding string_eq
string_eq_self [] = refl
string_eq_self (c ∷ cs) = ground (arith, string_eq_self cs)

pub eq_of_string_eq : (s t : Bytes) → string_eq s t ≡ true → s ≡ t
unfolding string_eq
eq_of_string_eq [] [] h = refl
eq_of_string_eq [] (d ∷ ds) h = cc
eq_of_string_eq (c ∷ cs) [] h = cc
eq_of_string_eq (c ∷ cs) (d ∷ ds) h = ground (arith, eq_of_string_eq cs ds)
