-- ===== src/Text/Chunker.antt =====
-- FixedWindowChunker of core/doktok_core/indexing/chunker.py. A text is the list of its characters;
-- `is_space` is the test of `str.strip`, whose table of Unicode is a parameter.
pub mod Cover
mod Examples
use Prim.Native.Char.{Char, code}
use doktok_ng.Prelude.{
  ℕ, zero, suc, ◌+◌, ◌-◌, ◌/◌, min, max, Bool, true, false, not, ◌==◌, Option, none, some, List, [],
  ◌∷◌, leb, if◌then◌else◌, length, take, drop, keep, all,
}

pub record TextChunk : Type 0 where
  pub text : List Char
  pub token_count : ℕ
  pub start_offset : ℕ
  pub end_offset : ℕ

-- the fields of the chunker
pub record FixedWindowChunker : Type 0 where
  pub max_chars : ℕ
  pub overlap : ℕ

-- none is the ValueError
unfoldable pub new_chunker : ℕ → ℕ → Option FixedWindowChunker
new_chunker max_chars overlap =
    if leb max_chars overlap
    then none
    else some (record { max_chars = max_chars; overlap = overlap })

abbrev pub estimate_tokens : List Char → ℕ
estimate_tokens text = max 1 (length text / 4)

-- text.replace("\x00", "")
abbrev pub without_nul : List Char → List Char
without_nul text = keep (λ c. not (code c == 0)) text

module _ (is_space : Char → Bool) where
  -- not text.strip()
  abbrev pub is_blank_text : List Char → Bool
  is_blank_text text = all is_space text

  module _ (c : FixedWindowChunker) (text : List Char) where
    abbrev pub end_of : ℕ → ℕ
    end_of start = min (start + c.max_chars) (length text)

    -- text[start:end]
    abbrev pub piece : ℕ → List Char
    piece start = take (end_of start - start) (drop start text)

    abbrev pub chunk_at : ℕ → TextChunk
    chunk_at start = record {
      text = piece start;
      token_count = estimate_tokens (piece start);
      start_offset = start;
      end_offset = end_of start;
    }

    -- The loop over `start`. Its rounds are no more than the characters, and
    -- `start < n` holds in each, since the window before it ended before `n`.
    unfoldable pub chunks_from : ℕ → ℕ → List TextChunk
    chunks_from zero start = []
    chunks_from (suc fuel) start =
        let rest = chunks_from fuel (start + (c.max_chars - c.overlap)) in
        let more = if end_of start == length text then [] else rest in
        if is_blank_text (piece start) then more else chunk_at start ∷ more

    unfoldable pub chunks_of : List TextChunk
    chunks_of = if is_blank_text text then [] else chunks_from (length text) 0

  pub chunk : FixedWindowChunker → List Char → List TextChunk
  chunk c text = chunks_of c (without_nul text)
