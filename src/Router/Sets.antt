-- ===== src/Router/Sets.antt =====
-- The sets of descriptors of ServerSocketsRouter, and the list that _fdsExtractList makes of one.
use mathlib.Core.Path.{subst}
use hex.Base.{
  ℕ, zero, suc, ◌+◌, ◌*◌, ◌/◌, ◌≤◌, ◌<◌, ◌≡◌, ◌≢◌, refl, sym, ap, ◌∙◌, Bool, true, false, some,
  List, [], ◌∷◌, ◌++◌, arith, length, take, drop, ltb, if◌then◌else◌, Bool-cases, replicate, inl,
  inr, length-take, length-drop, length-append, take-append-drop,
}
use hex.MsgSocket.Stream.{append_nil, append_assoc}
use hex.Router.{
  FdSet, fd_isset, fd_put, highest, ServerSocketsRouter, nb_bits, Extraction, extract_bits,
  is_nonzero, extract_words, fds_extract_list,
}

pub length-fd_put : (v : Bool) (s : ℕ) (bs : FdSet) → length (fd_put v s bs) ≡ length bs
unfolding fd_put
length-fd_put v s [] = refl
length-fd_put v zero (b ∷ bs) = refl
length-fd_put v (suc s) (b ∷ bs) = ap suc (length-fd_put v s bs)

pub fd_isset-fd_put :
    (v : Bool) (s : ℕ) (bs : FdSet) → s < length bs → fd_isset s (fd_put v s bs) ≡ v
unfolding fd_put fd_isset
fd_isset-fd_put v s [] l = absurd (omega arith)
fd_isset-fd_put v zero (b ∷ bs) l = refl
fd_isset-fd_put v (suc s) (b ∷ bs) l = fd_isset-fd_put v s bs (omega arith)

pub fd_isset-fd_put_other :
    (v : Bool) (s t : ℕ) (bs : FdSet) → s ≢ t → fd_isset t (fd_put v s bs) ≡ fd_isset t bs
unfolding fd_put fd_isset
fd_isset-fd_put_other v s t [] ne = refl
fd_isset-fd_put_other v zero zero (b ∷ bs) ne = absurd (ne refl)
fd_isset-fd_put_other v zero (suc t) (b ∷ bs) ne = refl
fd_isset-fd_put_other v (suc s) zero (b ∷ bs) ne = refl
fd_isset-fd_put_other v (suc s) (suc t) (b ∷ bs) ne =
    fd_isset-fd_put_other v s t bs (λ e. ne (ap suc e))

pub fd_isset_beyond : (s : ℕ) (bs : FdSet) → length bs ≤ s → fd_isset s bs ≡ false
unfolding fd_isset
fd_isset_beyond s [] l = refl
fd_isset_beyond zero (b ∷ bs) l = absurd (omega arith)
fd_isset_beyond (suc s) (b ∷ bs) l = fd_isset_beyond s bs (omega arith)

pub fd_isset-clear : (n s : ℕ) → fd_isset s (replicate n false) ≡ false
unfolding fd_isset
fd_isset-clear zero s = refl
fd_isset-clear (suc n) zero = refl
fd_isset-clear (suc n) (suc s) = fd_isset-clear n s

same : (k s : ℕ) → s ≤ suc k → ltb k s ≡ true → s ≡ suc k
same k s l t = ground arith

pub highest_lem : (k s : ℕ) (bs : FdSet) → 0 < s → s ≤ k → fd_isset s bs ≡ true → s < highest k bs
unfolding highest
highest_lem zero s bs p l e = absurd (omega arith)
highest_lem (suc k) s bs p l e = elim (Bool-cases (ltb k s)) [
  | inl t ↦
      let top : fd_isset (suc k) bs ≡ true = subst (λ x. fd_isset x bs ≡ true) (same k s l t) e in
      rw (top) (omega arith)
  | inr t ↦
      let below : s < highest k bs = highest_lem k s bs p (ground arith) e in
      elim (Bool-cases (fd_isset (suc k) bs)) [
        | inl u ↦ rw (u) (ground arith)
        | inr u ↦ rw (u) below
      ]
]

-- the positions of the bits that are set, counted from `s`
abbrev pub positions : (s : ℕ) → List Bool → List ℕ
positions s [] = []
positions s (true ∷ bs) = s ∷ positions (suc s) bs
positions s (false ∷ bs) = positions (suc s) bs

-- an extraction that goes on from `e` over the bits `bs`
abbrev extended : Extraction → List Bool → Extraction
extended e bs = record {
  the_list = e.the_list ++ positions e.sock_id bs;
  list_size = e.list_size + length (positions e.sock_id bs);
  sock_id = e.sock_id + length bs;
}

add_suc : (a b : ℕ) → suc (a + b) ≡ suc a + b
add_suc a b = omega arith

take_nil : (n : ℕ) → take {A = Bool} n [] ≡ []
take_nil zero = refl
take_nil (suc n) = refl

plus_one : (k : ℕ) → k + 1 ≡ suc k
plus_one k = omega arith

abbrev extraction : List ℕ → ℕ → ℕ → Extraction
extraction l n s = record { the_list = l; list_size = n; sock_id = s }

same_extraction :
    {l l' : List ℕ} {n n' s s' : ℕ}
    → l ≡ l'
    → n ≡ n'
    → s ≡ s'
    → extraction l n s ≡ extraction l' n' s'
same_extraction a b c = rw (a, b, c) refl

extract_bits-extended : (bs : List Bool) (e : Extraction) → extract_bits bs e ≡ extended e bs
unfolding extract_bits
extract_bits-extended [] e =
    same_extraction (sym (append_nil e.the_list)) (omega arith) (omega arith)
extract_bits-extended (true ∷ bs) e =
    extract_bits-extended bs (record {
      the_list = e.the_list ++ e.sock_id ∷ [];
      list_size = e.list_size + 1;
      sock_id = e.sock_id + 1;
    })
    ∙ same_extraction
        (append_assoc e.the_list (e.sock_id ∷ []) (positions (e.sock_id + 1) bs)
          ∙ ap (λ k. e.the_list ++ e.sock_id ∷ positions k bs) (omega arith))
        (let k = ap (λ k. length (positions k bs)) (plus_one e.sock_id) in omega arith)
        (omega arith)
extract_bits-extended (false ∷ bs) e =
    extract_bits-extended bs (record e { sock_id = e.sock_id + 1 })
    ∙ same_extraction (ap (λ k. e.the_list ++ positions k bs) (omega arith))
        (let k = ap (λ k. length (positions k bs)) (plus_one e.sock_id) in omega arith)
        (omega arith)

zero-positions : (s : ℕ) (bs : List Bool) → is_nonzero bs ≡ false → positions s bs ≡ []
unfolding is_nonzero
zero-positions s [] z = refl
zero-positions s (true ∷ bs) z = absurd (cc (z))
zero-positions s (false ∷ bs) z = zero-positions (suc s) bs z

positions-append :
    (s : ℕ) (xs ys : List Bool)
    → positions s (xs ++ ys) ≡ positions s xs ++ positions (s + length xs) ys
positions-append s [] ys = ap (λ k. positions k ys) (omega arith)
positions-append s (true ∷ xs) ys =
    ap (λ t. s ∷ t)
      (positions-append (suc s) xs ys
        ∙ ap (λ k. positions (suc s) xs ++ positions k ys) (omega arith))
positions-append s (false ∷ xs) ys =
    positions-append (suc s) xs ys ∙ ap (λ k. positions (suc s) xs ++ positions k ys) (omega arith)

extended-extended :
    (e : Extraction) (xs ys : List Bool) → extended (extended e xs) ys ≡ extended e (xs ++ ys)
extended-extended e xs ys =
    same_extraction
      (append_assoc e.the_list (positions e.sock_id xs) (positions (e.sock_id + length xs) ys)
        ∙ ap (λ t. e.the_list ++ t) (sym (positions-append e.sock_id xs ys)))
      (let k = ap length (positions-append e.sock_id xs ys) in
        let k' = length-append (positions e.sock_id xs) (positions (e.sock_id + length xs) ys) in
        omega arith)
      (let k = length-append xs ys in omega arith)

take-add : (a b : ℕ) (bs : List Bool) → take a bs ++ take b (drop a bs) ≡ take (a + b) bs
take-add zero b bs = ap (λ k. take k bs) (omega arith)
take-add (suc a) b [] = take_nil b ∙ sym (take_nil (suc a + b))
take-add (suc a) b (x ∷ bs) =
    ap (λ t. x ∷ t) (take-add a b bs) ∙ ap (λ k. take k (x ∷ bs)) (add_suc a b)

extract_word :
    (bs : List Bool) (e : Extraction)
    → length bs ≡ 64
    → (if is_nonzero bs then extract_bits bs e else record e { sock_id = e.sock_id + 64 })
      ≡ extended e bs
extract_word bs e l = elim (Bool-cases (is_nonzero bs)) [
  | inl t ↦ rw (t) (extract_bits-extended bs e)
  | inr t ↦ rw (t) (
      same_extraction
        (sym (append_nil e.the_list)
          ∙ ap (λ t. e.the_list ++ t) (sym (zero-positions e.sock_id bs t)))
        (let k = ap length (zero-positions e.sock_id bs t) in omega arith) (omega arith))
]

extract_words-extended :
    (w : ℕ) (bs : FdSet) (e : Extraction)
    → 64 * w ≤ length bs
    → extract_words w bs e ≡ extended e (take (64 * w) bs)
unfolding extract_words
extract_words-extended zero bs e l =
    same_extraction (sym (append_nil e.the_list)) (omega arith) (omega arith)
extract_words-extended (suc w) bs e l =
    ap (extract_words w (drop 64 bs))
      (extract_word (take 64 bs) e (let k = length-take 64 bs in ground arith))
    ∙ extract_words-extended w (drop 64 bs) (extended e (take 64 bs))
        (let k = length-drop 64 bs in omega arith)
    ∙ extended-extended e (take 64 bs) (take (64 * w) (drop 64 bs))
    ∙ ap (extended e) (take-add 64 (64 * w) bs)
    ∙ ap (λ k. extended e (take k bs)) (omega arith)

pub clear-positions :
    (s : ℕ) (bs : List Bool) → ((t : ℕ) → fd_isset t bs ≡ false) → positions s bs ≡ []
unfolding fd_isset
clear-positions s [] c = refl
clear-positions s (true ∷ bs) c = absurd (let k = c 0 in cc (k))
clear-positions s (false ∷ bs) c = clear-positions (suc s) bs (λ t. c (suc t))

fd_isset-drop : (n t : ℕ) (bs : FdSet) → fd_isset t (drop n bs) ≡ fd_isset (n + t) bs
unfolding fd_isset
fd_isset-drop zero t bs = ap (λ k. fd_isset k bs) (omega arith)
fd_isset-drop (suc n) t [] = refl
fd_isset-drop (suc n) t (b ∷ bs) =
    fd_isset-drop n t bs ∙ ap (λ k. fd_isset k (b ∷ bs)) (add_suc n t)

take-positions :
    (n : ℕ) (bs : FdSet)
    → ((t : ℕ) → n ≤ t → fd_isset t bs ≡ false)
    → positions 0 (take n bs) ≡ positions 0 bs
take-positions n bs c =
    sym (append_nil (positions 0 (take n bs)))
    ∙ ap (λ t. positions 0 (take n bs) ++ t)
        (sym (
          clear-positions (0 + length (take n bs)) (drop n bs)
            (λ t. fd_isset-drop n t bs ∙ c (n + t) (omega arith))))
    ∙ sym (positions-append 0 (take n bs) (drop n bs))
    ∙ ap (positions 0) (take-append-drop n bs)

-- Where the set has the 1024 bits of an fd_set and all its descriptors are below
-- clientsocks_nfds, which is below 1024, _fdsExtractList returns the descriptors of the set in
-- ascending order, and their number.
pub fds_extract_list-positions :
    {C : Type 0} (r : ServerSocketsRouter C) (bs : FdSet)
    → length bs ≡ 1024
    → r.clientsocks_nfds < 1024
    → ((s : ℕ) → r.clientsocks_nfds ≤ s → fd_isset s bs ≡ false)
    → fds_extract_list r bs ≡ some (positions 0 bs, length (positions 0 bs))
unfolding fds_extract_list
fds_extract_list-positions r bs l n c =
    let inside : ltb 1024 (nb_bits r) ≡ false = ground arith in
    let e =
      extract_words-extended (r.clientsocks_nfds / 64 + 1) bs (extraction [] 0 0) (ground arith) in
    let p = take-positions (nb_bits r) bs (λ t k. c t (omega arith)) in
    rw (inside) (
      ap (λ x. some (x.the_list, x.list_size)) e
      ∙ ap (λ t. some (t, 0 + length t)) p
      ∙ ap (λ k. some (positions 0 bs, k)) (omega arith))
