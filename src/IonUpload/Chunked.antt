-- ===== src/IonUpload/Chunked.antt =====
-- `AwsChunkedDecoder` of crates/tiletopia-server/src/ion_s3_endpoint.rs: the decoder of an
-- aws-chunked body, which is fed the body in the pieces that the connection brings.
-- A body is a list of bytes. A failed `feed` ends the upload, so its partial state is not kept.
-- The loop of `feed` runs on fuel; every turn that does not end it takes a byte, so one more than
-- the bytes at hand is enough.
use tiletopia.Prelude.{
  ℕ, zero, suc, ◌+◌, ◌-◌, ◌*◌, ◌^◌, min, ◌&&◌, Option, none, some, List, [], ◌∷◌, ◌++◌, ltb, leb,
  ◌==◌, if◌then◌else◌, length, drop, take,
}
use tiletopia.Prelude.Res.{Res, ok, err}

pub data ChunkError : Type 0 where
  line_too_long not_hexadecimal no_crlf_after_data bytes_after_final ended_early : ChunkError

pub data ChunkState : Type 0 where
  size_line data_end trailer done : ChunkState
  chunk_data : ℕ → ChunkState

pub record Decoder : Type 0 where
  pub state : ChunkState
  pub pending : List ℕ

abbrev pub new_decoder : Decoder
new_decoder = record { state = size_line; pending = [] }

abbrev pub max_chunk_line_bytes : ℕ
max_chunk_line_bytes = 4096

-- `rest.windows(2).position(|pair| pair == b"\r\n")`
unfoldable pub crlf_at : List ℕ → Option ℕ
crlf_at [] = none
crlf_at (a ∷ []) = none
crlf_at (a ∷ b ∷ rest) =
    let later = crlf_at (b ∷ rest) in
    if (a == 13) && (b == 10) then some 0 else elim later [ none ↦ none | some n ↦ some (suc n) ]

-- `chunk_line_end`
unfoldable pub chunk_line_end : List ℕ → Res ChunkError (Option ℕ)
unfolding crlf_at
chunk_line_end rest = elim (crlf_at rest) [
  | some end ↦ ok (some end)
  | none ↦ if ltb max_chunk_line_bytes (length rest) then err line_too_long else ok none
]

-- `line.split(';').next()`
unfoldable pub before_semicolon : List ℕ → List ℕ
before_semicolon [] = []
before_semicolon (c ∷ line) = let rest = before_semicolon line in if c == b';' then [] else c ∷ rest

unfoldable pub hex_digit : ℕ → Option ℕ
hex_digit c =
    if leb b'0' c && leb c b'9'
    then some (c - b'0')
    else if leb b'a' c && leb c b'f'
    then some (c - b'a' + 10)
    else if leb b'A' c && leb c b'F'
    then some (c - b'A' + 10)
    else none

-- A number that passes 2^64 - 1 is an error.
unfoldable pub hex_digits : ℕ → List ℕ → Option ℕ
unfolding hex_digit
hex_digits acc [] = some acc
hex_digits acc (c ∷ s) = elim (hex_digit c) [
  | none ↦ none
  | some d ↦
      let more = hex_digits (acc * 16 + d) s in if ltb (acc * 16 + d) (2 ^ 64) then more else none
]

-- `u64::from_str_radix(text, 16)`, which takes a leading `+`
unfoldable pub from_hex : List ℕ → Option ℕ
unfolding hex_digits
from_hex [] = none
from_hex (c ∷ []) = hex_digits 0 (c ∷ [])
from_hex (c ∷ d ∷ s) = if c == b'+' then hex_digits 0 (d ∷ s) else hex_digits 0 (c ∷ d ∷ s)

-- One turn of the loop: it ends, fails, or takes bytes and may put some out.
pub data Turn : Type 0 where
  stop : Turn
  fail : ChunkError → Turn
  go : ChunkState → ℕ → List ℕ → Turn

unfoldable pub size_turn : List ℕ → Res ChunkError (Option ℕ) → Turn
unfolding from_hex before_semicolon
size_turn rest (err e) = fail e
size_turn rest (ok none) = stop
size_turn rest (ok (some end)) = elim (from_hex (before_semicolon (take end rest))) [
  | none ↦ fail not_hexadecimal
  | some size ↦ go (if size == 0 then trailer else chunk_data size) (end + 2) []
]

unfoldable pub trailer_turn : Res ChunkError (Option ℕ) → Turn
trailer_turn (err e) = fail e
trailer_turn (ok none) = stop
trailer_turn (ok (some end)) = go (if end == 0 then done else trailer) (end + 2) []

unfoldable pub turn : ChunkState → List ℕ → Turn
unfolding size_turn trailer_turn chunk_line_end
turn size_line rest = size_turn rest (chunk_line_end rest)
turn (chunk_data remaining) [] = stop
turn (chunk_data remaining) (b ∷ rest) =
    let taken = min remaining (length (b ∷ rest)) in
    go (if remaining - taken == 0 then data_end else chunk_data (remaining - taken)) taken
      (take taken (b ∷ rest))
turn data_end [] = stop
turn data_end (a ∷ []) = stop
turn data_end (a ∷ b ∷ rest) =
    if (a == 13) && (b == 10) then go size_line 2 [] else fail no_crlf_after_data
turn trailer rest = trailer_turn (chunk_line_end rest)
turn done [] = stop
turn done (b ∷ rest) = fail bytes_after_final

abbrev pub Fed : Type 0
Fed = Decoder × List ℕ

-- The loop, with the fuel first.
unfoldable pub run : ℕ → ChunkState → List ℕ → List ℕ → Res ChunkError Fed
unfolding turn
run zero state rest output = ok (record { state = state; pending = rest }, output)
run (suc fuel) state rest output = elim (turn state rest) [
  | stop ↦ ok (record { state = state; pending = rest }, output)
  | fail e ↦ err e
  | go next taken piece ↦ run fuel next (drop taken rest) (output ++ piece)
]

-- `AwsChunkedDecoder::feed`
unfoldable pub feed : Decoder → List ℕ → List ℕ → Res ChunkError Fed
unfolding run
feed d input output = run (suc (length (d.pending ++ input))) d.state (d.pending ++ input) output

-- `AwsChunkedDecoder::finish`
unfoldable pub finish : Decoder → Res ChunkError (Unit {0})
finish d = elim d.state [ done ↦ ok tt | _ ↦ err ended_early ]
