-- ===== src/IonUpload/ChunkedRoundTrip.antt =====
-- A body as a client encodes it, and what the decoder of
-- crates/tiletopia-server/src/ion_s3_endpoint.rs makes of it.
use tiletopia.Prelude.{
  ℕ, suc, ◌+◌, ◌-◌, ◌<◌, min, ◌≡◌, refl, ◌∙◌, append_assoc, append-nil, ◌≢◌, some, List, [], ◌∷◌,
  ◌++◌, arith, ◌==◌, if◌then◌else◌, length, drop, All, length-append, length-drop,
  take-length_append, drop-length_append, drop-append_beyond,
}
use tiletopia.Prelude.Res.{ok}
use tiletopia.IonUpload.Chunked.{
  ChunkState, size_line, data_end, trailer, done, chunk_data, new_decoder, crlf_at, chunk_line_end,
  from_hex, before_semicolon, go, turn, size_turn, trailer_turn, run, feed, finish,
}
use tiletopia.IonUpload.ChunkedTurns.{IsSound, Goes, run_fuel, turn-Goes}
use tiletopia.IonUpload.ChunkedLaws.{run_go, turn_data, after_data}

-- A chunk: its size line, without the CRLF, and its data.
pub record Chunk : Type 0 where
  pub line : List ℕ
  pub payload : List ℕ

abbrev pub NoCr : List ℕ → Type 0
NoCr = All (λ (c : ℕ). c ≢ 13)

-- The size line holds no CR and gives the size in hexadecimal, before any `;`.
abbrev pub Sizes : List ℕ → ℕ → Type 0
Sizes line n = NoCr line × (from_hex (before_semicolon line) ≡ some n)

abbrev pub IsChunk : Chunk → Type 0
IsChunk c = Sizes c.line (length c.payload) × (0 < length c.payload)

abbrev crlf : List ℕ → List ℕ
crlf rest = 13 ∷ 10 ∷ rest

-- The chunks, the line of the final chunk and an empty trailer.
unfoldable pub encode : List Chunk → List ℕ → List ℕ
encode [] last = last ++ crlf (crlf [])
encode (c ∷ chunks) last = c.line ++ crlf (c.payload ++ crlf (encode chunks last))

abbrev pub payloads : List Chunk → List ℕ
payloads [] = []
payloads (c ∷ chunks) = c.payload ++ payloads chunks

crlf_at-line : (line rest : List ℕ) → NoCr line → crlf_at (line ++ crlf rest) ≡ some (length line)
unfolding crlf_at
crlf_at-line [] rest h = refl
crlf_at-line (c ∷ []) rest h = ground arith
crlf_at-line (c ∷ d ∷ line) rest h = ground (arith, crlf_at-line (d ∷ line) rest h.1)

-- One turn, on as much fuel as the loop has.
exact_turn :
    (s next : ChunkState) (rest out : List ℕ) (n : ℕ) (piece : List ℕ)
    → IsSound s
    → turn s rest ≡ go next n piece
    → run (suc (length rest)) s rest out
      ≡ run (suc (length (drop n rest))) next (drop n rest) (out ++ piece)
exact_turn s next rest out n piece h e =
    let goes : Goes rest (go next n piece) = rw e at (turn-Goes s rest h) in
    run_go (length rest) s next rest out n piece e
    ∙ run_fuel (length rest) (suc (length (drop n rest))) next (drop n rest) (out ++ piece) goes.2
        (omega (arith, length-drop n rest, goes.0, goes.1)) (omega arith)

chunk_line_end-line :
    (line rest : List ℕ) → NoCr line → chunk_line_end (line ++ crlf rest) ≡ ok (some (length line))
unfolding chunk_line_end
chunk_line_end-line line rest h = rw (crlf_at-line line rest h, chunk_line_end) refl

size_turn-line :
    (line rest : List ℕ) (n : ℕ)
    → Sizes line n
    → size_turn (line ++ crlf rest) (ok (some (length line)))
      ≡ go (if n == 0 then trailer else chunk_data n) (length line + 2) []
unfolding size_turn
size_turn-line line rest n h = rw (take-length_append line (crlf rest), h.1, size_turn) refl

turn_line :
    (line rest : List ℕ) (n : ℕ)
    → Sizes line n
    → turn size_line (line ++ crlf rest)
      ≡ go (if n == 0 then trailer else chunk_data n) (length line + 2) []
unfolding turn
turn_line line rest n h = rw (chunk_line_end-line line rest h.0) (size_turn-line line rest n h)

run_line :
    (line rest out : List ℕ) (n : ℕ)
    → Sizes line n
    → run (suc (length (line ++ crlf rest))) size_line (line ++ crlf rest) out
      ≡ run (suc (length rest)) (if n == 0 then trailer else chunk_data n) rest out
run_line line rest out n h =
    exact_turn size_line _ (line ++ crlf rest) out _ [] tt (turn_line line rest n h)
    ∙ rw (drop-append_beyond line (crlf rest) 2, append-nil) refl

turn_payload :
    (payload rest : List ℕ)
    → 0 < length payload
    → turn (chunk_data (length payload)) (payload ++ crlf rest)
      ≡ go data_end (length payload) payload
turn_payload payload rest h =
    turn_data (length payload) (payload ++ crlf rest)
      (omega (arith, length-append payload (crlf rest)))
    ∙ rw (all, take-length_append payload (crlf rest), none_left) refl
  where
    all : min (length payload) (length (payload ++ crlf rest)) ≡ length payload
    all = omega (arith, length-append payload (crlf rest))

    none_left : after_data (length payload - length payload) ≡ data_end
    none_left = unfold after_data in ground arith

run_payload :
    (payload rest out : List ℕ)
    → 0 < length payload
    → run
        (suc (length (payload ++ crlf rest)))
        (chunk_data (length payload))
        (payload ++ crlf rest)
        out
      ≡ run (suc (length rest)) size_line rest (out ++ payload)
run_payload payload rest out h =
    exact_turn (chunk_data (length payload)) data_end (payload ++ crlf rest) out (length payload)
      payload h (turn_payload payload rest h)
    ∙ rw (drop-length_append payload (crlf rest)) (
        exact_turn data_end size_line (crlf rest) (out ++ payload) 2 [] tt (unfold turn in refl)
        ∙ rw append-nil refl)

run_end :
    (out : List ℕ)
    → run (suc (length (crlf []))) trailer (crlf []) out
      ≡ ok (record { state = done; pending = [] }, out)
unfolding run turn trailer_turn chunk_line_end crlf_at
run_end out = rw append-nil refl

nonzero : (n : ℕ) (a b : ChunkState) → 0 < n → (if n == 0 then a else b) ≡ b
nonzero n a b h = ground arith

run_chunks :
    (chunks : List Chunk) (last out : List ℕ)
    → All IsChunk chunks
    → Sizes last 0
    → run (suc (length (encode chunks last))) size_line (encode chunks last) out
      ≡ ok (record { state = done; pending = [] }, out ++ payloads chunks)
unfolding encode
run_chunks [] last out h z = run_line last (crlf []) out 0 z ∙ (run_end out ∙ rw append-nil refl)
run_chunks (c ∷ chunks) last out h z =
    run_line c.line (c.payload ++ crlf (encode chunks last)) out (length c.payload) h.0.0
    ∙ rw (nonzero (length c.payload) trailer (chunk_data (length c.payload)) h.0.1) (
        run_payload c.payload (encode chunks last) out h.0.1
        ∙ (run_chunks chunks last (out ++ c.payload) h.1 z ∙ rw append_assoc refl))

-- A body of chunks, each with its size, then an empty one and an empty trailer, decodes to the
-- chunks' data in order, and the decoder then reports that the body is complete.
pub feed-encode :
    (chunks : List Chunk) (last out : List ℕ)
    → All IsChunk chunks
    → Sizes last 0
    → (feed new_decoder (encode chunks last) out
        ≡ ok (record { state = done; pending = [] }, out ++ payloads chunks))
      × (finish (record { state = done; pending = [] }) ≡ ok tt)
unfolding feed finish
feed-encode chunks last out h z = (run_chunks chunks last out h z, refl)
