-- ===== src/Io/Cbor/Pending.antt =====
-- src/anj/io/cbor_decoder_ll.c: the bytes that the decoder has still to read, in its buffer and in
-- the input behind it.
use anjay_lite.Base.{
  arith, ◌≡◌, refl, sym, ap, ◌∙◌, ℕ, ◌-◌, ◌≤◌, true, false, ◌⊎◌, inl, inr, List, [], ◌∷◌, ◌++◌,
  length, take, drop, take-append-drop, length-append, length-take, length-drop, leb, Bool-cases,
}
use mathlib.Core.List.{append_assoc, append-nil}
use anjay_lite.Io.Cbor.Decoder.{Decoder, fill_prebuffer, prebuffer_length}

abbrev pub pending : Decoder → List ℕ
pending d = d.prebuffer ++ d.input

module _ {ℓ} {A : Type ℓ} where
  -- The first bytes lie in the first of two lists that is long enough.
  pub split_append :
      (xs ys bs rest : List A)
      → xs ++ ys ≡ bs ++ rest
      → length bs ≤ length xs
      → (take (length bs) xs ≡ bs) × (drop (length bs) xs ++ ys ≡ rest)
  split_append xs ys [] rest e h = (refl, e)
  split_append [] ys (b ∷ bs) rest e h = ground arith
  split_append (x ∷ xs) ys (b ∷ bs) rest e h =
      let p = split_append xs ys bs rest (ground (arith, e)) (omega (arith, h)) in
      (ground (arith, e, p.0), p.1)

-- Filling the buffer moves bytes from the input into it,
pub fill_prebuffer-pending : (d : Decoder) (n : ℕ) → pending (fill_prebuffer d n).0 ≡ pending d
unfolding fill_prebuffer
fill_prebuffer-pending d n = elim (Bool-cases (leb n (length d.prebuffer))) [
  | inl h ↦ ground (arith, h)
  | inr h ↦
      (let k = prebuffer_length - length d.prebuffer in
        ground (
          arith,
          h,
          append_assoc d.prebuffer (take k d.input) (drop k d.input),
          take-append-drop k d.input,
        ))
]

length-nil : {A : Type 0} (xs : List A) → length xs ≡ 0 → xs ≡ []
length-nil [] h = refl
length-nil (x ∷ xs) h = ground arith

-- until it has enough of them or the input has no more.
pub fill_prebuffer-enough :
    (d : Decoder) (n : ℕ)
    → n ≤ 9
    → (n ≤ length (fill_prebuffer d n).0.prebuffer) ⊎ ((fill_prebuffer d n).0.input ≡ [])
unfolding fill_prebuffer
fill_prebuffer-enough d n b = elim (Bool-cases (leb n (length d.prebuffer))) [
  | inl h ↦ inl (ground (arith, h))
  | inr h ↦
      (let k = prebuffer_length - length d.prebuffer in
        elim (Bool-cases (leb k (length d.input))) [
          | inl m ↦ inl (
              ground
                (arith, h, m, length-append d.prebuffer (take k d.input), length-take k d.input))
          | inr m ↦ inr (
              ground
                (arith, h, length-nil (drop k d.input) (ground (arith, m, length-drop k d.input))))
        ])
]

-- With the last input there, nothing more is wanted.
pub fill_prebuffer-last :
    (d : Decoder) (n : ℕ) → d.input_last ≡ true → (fill_prebuffer d n).1 ≡ false
unfolding fill_prebuffer
fill_prebuffer-last d n h = ground (arith, h)

-- The next bytes are in the buffer after it is filled.
pub fill_prebuffer-bytes :
    (d : Decoder) (bs rest : List ℕ)
    → length bs ≤ 9
    → pending d ≡ bs ++ rest
    → length bs ≤ length (fill_prebuffer d (length bs)).0.prebuffer
fill_prebuffer-bytes d bs rest b e = elim (fill_prebuffer-enough d (length bs) b) [
  | inl h ↦ h
  | inr h ↦
      (let c = (fill_prebuffer d (length bs)).0 in
        let whole : c.prebuffer ≡ bs ++ rest =
          sym (append-nil c.prebuffer)
          ∙ ap (λ t. c.prebuffer ++ t) (sym h)
          ∙ fill_prebuffer-pending d (length bs)
          ∙ e in
        omega (arith, ap length whole, length-append bs rest))
]
