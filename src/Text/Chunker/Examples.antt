-- ===== src/Text/Chunker/Examples.antt =====
-- The claims about the chunker at concrete inputs.
use Prim.Native.Char.{Char, code}
use doktok_ng.Prelude.{◌≡◌, refl, Bool, true, ◌==◌, some, List, [], ◌∷◌, String, any, All}
use doktok_ng.Text.Chunker.{FixedWindowChunker, new_chunker, without_nul, chunk}
use doktok_ng.Text.Chunker.Cover.{holds, IsSlice, chunk-holds, chunk-IsSlice}

abbrev characters : String → List Char
characters String.[] = []
characters (String.◌∷◌ c s) = c ∷ characters s

abbrev is_blank_char : Char → Bool
is_blank_char c = code c == 32

abbrev chunker : FixedWindowChunker
chunker = record { max_chars = 6; overlap = 2 }

made : new_chunker 6 2 ≡ some chunker
unfolding new_chunker
made = refl

chunk-holds_example :
    any (holds 8) (chunk is_blank_char chunker (characters "some text here")) ≡ true
chunk-holds_example =
    chunk-holds is_blank_char 6 2 chunker made (characters "some text here") 8 "t" refl refl

chunk-IsSlice_example :
    All
      (IsSlice is_blank_char chunker (without_nul (characters "some text here")))
      (chunk is_blank_char chunker (characters "some text here"))
chunk-IsSlice_example = chunk-IsSlice is_blank_char 6 2 chunker made (characters "some text here")
