-- ===== src/Text/Chunker/Cover.antt =====
-- Coverage and size of the chunks: core/doktok_core/indexing/chunker.py.
use Prim.Native.Char.{Char}
use doktok_ng.Prelude.{
  ℕ, zero, suc, ◌+◌, ◌-◌, ◌≤◌, ◌<◌, ◌≡◌, refl, inl, inr, Bool, true, false, ◌&&◌, Option, none,
  some, List, [], ◌∷◌, leb, ltb, ◌==◌, arith, if◌then◌else◌, length, take, drop, all, any,
  get_elem?, All, Bool-cases, subst,
}
use doktok_ng.Text.Chunker.{
  TextChunk, FixedWindowChunker, new_chunker, without_nul, is_blank_text, end_of, piece,
  chunks_from, chunks_of, chunk,
}

-- Every character of a blank slice is white space.
blank_slice :
    (p : Char → Bool) (xs : List Char) (start n i : ℕ) (c : Char)
    → all p (take n (drop start xs)) ≡ true
    → get_elem? xs i ≡ some c
    → start ≤ i
    → i < start + n
    → p c ≡ true
blank_slice p [] start n i c h at lo hi = absurd (cc)
blank_slice p (x ∷ xs) zero zero i c h at lo hi = absurd (omega (arith, hi))
blank_slice p (x ∷ xs) zero (suc n) zero c h at lo hi =
    let same : x ≡ c = cc in ground (arith, same, h)
blank_slice p (x ∷ xs) zero (suc n) (suc i) c h at lo hi =
    blank_slice p xs zero n i c (ground (arith, h)) at (omega arith) (omega (arith, hi))
blank_slice p (x ∷ xs) (suc start) n zero c h at lo hi = absurd (omega (arith, lo))
blank_slice p (x ∷ xs) (suc start) n (suc i) c h at lo hi =
    blank_slice p xs start n i c h at (omega (arith, lo)) (omega (arith, hi))

get_elem?-bound : (xs : List Char) (i : ℕ) (c : Char) → get_elem? xs i ≡ some c → i < length xs
get_elem?-bound [] i c h = absurd (cc)
get_elem?-bound (x ∷ xs) zero c h = omega arith
get_elem?-bound (x ∷ xs) (suc i) c h = omega (arith, get_elem?-bound xs i c h)

-- The chunk holds the place.
abbrev pub holds : ℕ → TextChunk → Bool
holds i k = leb k.start_offset i && ltb i k.end_offset

-- What a chunk of a text is.
pub record IsSlice (is_space : Char → Bool) (c : FixedWindowChunker) (text : List Char)
    (k : TextChunk) : Type 0 where
  pub slice : k.text ≡ take (k.end_offset - k.start_offset) (drop k.start_offset text)
  pub inside : k.end_offset ≤ length text
  pub fits : k.end_offset ≤ k.start_offset + c.max_chars
  pub not_blank : is_blank_text is_space k.text ≡ false

All-unless {ℓ κ} :
    {A : Type ℓ} (P : A → Type κ) (xs : List A) (b : Bool) → All P xs → All P (if b then [] else xs)
All-unless P xs true h = tt
All-unless P xs false h = h

module _ (is_space : Char → Bool) (max_chars overlap : ℕ) (c : FixedWindowChunker)
    (made : new_chunker max_chars overlap ≡ some c) where
  step_positive : 0 < c.max_chars - c.overlap
  unfolding new_chunker
  step_positive = elim (Bool-cases (leb max_chars overlap)) [
    | inl e ↦ let made' : none ≡ some c = rw e at made in absurd (cc)
    | inr e ↦
        let made' : ◌≡◌ {A = Option FixedWindowChunker}
            (some (record { max_chars = max_chars; overlap = overlap })) (some c) =
          rw e at made in
        let same : record { max_chars = max_chars; overlap = overlap } ≡ c = cc in
        subst (λ (k : FixedWindowChunker). 0 < k.max_chars - k.overlap) same (ground (arith, e))
  ]

  module _ (text : List Char) where
    chunks_from-hold :
        (fuel start i : ℕ) (x : Char)
        → get_elem? text i ≡ some x
        → is_space x ≡ false
        → start ≤ i
        → length text ≤ start + fuel
        → any (holds i) (chunks_from is_space c text fuel start) ≡ true
    unfolding chunks_from
    chunks_from-hold zero start i x at ink lo enough =
        absurd (omega (arith, get_elem?-bound text i x at, lo, enough))
    chunks_from-hold (suc fuel) start i x at ink lo enough =
        let stop = end_of is_space c text start in
        let bound = get_elem?-bound text i x at in
        let again = start + (c.max_chars - c.overlap) in
        elim (Bool-cases (ltb i stop)) [
          | inl inside ↦ elim (Bool-cases (is_blank_text is_space (piece is_space c text start))) [
            | inl blank ↦ absurd (
                ground (
                  arith,
                  blank_slice is_space text start (stop - start) i x blank at lo
                      (ground (arith, inside)),
                  ink,
                ))
            | inr ink_there ↦ rw ink_there (ground (arith, inside, lo))
          ]
          | inr behind ↦
              let ended : (stop == length text) ≡ false = ground (arith, behind, bound) in
              let ih =
                chunks_from-hold fuel again i x at ink (ground (arith, behind, bound))
                  (omega (arith, step_positive, enough)) in
              elim (Bool-cases (is_blank_text is_space (piece is_space c text start))) [
                | inl blank ↦ rw blank (rw ended ih)
                | inr ink_there ↦ rw ink_there (rw ended (ground (arith, ih)))
              ]
        ]

    chunks_from-IsSlice :
        (fuel start : ℕ) → All (IsSlice is_space c text) (chunks_from is_space c text fuel start)
    unfolding chunks_from
    chunks_from-IsSlice zero start = tt
    chunks_from-IsSlice (suc fuel) start =
        let again = start + (c.max_chars - c.overlap) in
        let stop = end_of is_space c text start in
        elim (Bool-cases (is_blank_text is_space (piece is_space c text start))) [
          | inl blank ↦ rw blank (
              All-unless (IsSlice is_space c text) (chunks_from is_space c text fuel again)
                (stop == length text) (chunks_from-IsSlice fuel again))
          | inr ink ↦ rw ink (
              (
                record { slice = refl; inside = omega arith; fits = omega arith; not_blank = ink },
                All-unless (IsSlice is_space c text) (chunks_from is_space c text fuel again)
                    (stop == length text) (chunks_from-IsSlice fuel again),
              ))
        ]

  blank-all :
      (text : List Char) (i : ℕ) (x : Char)
      → all is_space text ≡ true
      → get_elem? text i ≡ some x
      → is_space x ≡ true
  blank-all [] i x h at = absurd (cc)
  blank-all (y ∷ ys) zero x h at = let same : y ≡ x = cc in ground (arith, same, h)
  blank-all (y ∷ ys) (suc i) x h at = blank-all ys i x (ground (arith, h)) at

  -- Whatever sizes the chunker was made with, every character of the text that is left without NUL
  -- and that is not white space lies between the offsets of a chunk.
  pub chunk-holds :
      (text : List Char) (i : ℕ) (x : Char)
      → get_elem? (without_nul text) i ≡ some x
      → is_space x ≡ false
      → any (holds i) (chunk is_space c text) ≡ true
  unfolding chunk chunks_of
  chunk-holds text i x at ink =
      let clean = without_nul text in
      elim (Bool-cases (is_blank_text is_space clean)) [
        | inl blank ↦ absurd (ground (arith, blank-all clean i x blank at, ink))
        | inr some_ink ↦
            rw some_ink
              (chunks_from-hold clean (length clean) 0 i x at ink (omega arith) (omega arith))
      ]

  -- Each chunk is the slice of the text without NUL between its offsets, it is no longer than
  -- `max_chars`, ends inside of the text, and is not blank.
  pub chunk-IsSlice :
      (text : List Char) → All (IsSlice is_space c (without_nul text)) (chunk is_space c text)
  unfolding chunk chunks_of
  chunk-IsSlice text =
      let clean = without_nul text in
      elim (Bool-cases (is_blank_text is_space clean)) [
        | inl blank ↦ rw blank tt
        | inr some_ink ↦ rw some_ink (chunks_from-IsSlice clean (length clean) 0)
      ]
