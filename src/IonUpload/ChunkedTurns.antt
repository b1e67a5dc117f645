-- ===== src/IonUpload/ChunkedTurns.antt =====
-- One turn of the loop of `AwsChunkedDecoder::feed` of
-- crates/tiletopia-server/src/ion_s3_endpoint.rs, and the fuel of the loop.
use tiletopia.Prelude.{
  ℕ, zero, suc, ◌+◌, ◌-◌, ◌≤◌, ◌<◌, min, ◌≡◌, refl, ◌∙◌, ◌⊎◌, inl, inr, Bool, true, false, ◌&&◌,
  Option, none, some, List, [], ◌∷◌, ◌++◌, arith, ◌==◌, if◌then◌else◌, Bool-cases, length, drop,
  length-drop, take, take-append,
}
use tiletopia.Prelude.Res.{Res, ok, err, Res-cases}
use tiletopia.IonUpload.Chunked.{
  ChunkError, not_hexadecimal, ChunkState, size_line, data_end, trailer, done, chunk_data, crlf_at,
  chunk_line_end, from_hex, before_semicolon, Turn, stop, fail, go, turn, size_turn, trailer_turn,
  run,
}

pub crlf_at-append : (xs ys : List ℕ) (n : ℕ) → crlf_at xs ≡ some n → crlf_at (xs ++ ys) ≡ some n
unfolding crlf_at
crlf_at-append [] ys n h = cc
crlf_at-append (a ∷ []) ys n h = cc
crlf_at-append (a ∷ b ∷ xs) ys n h = ground (arith, crlf_at-append (b ∷ xs) ys (n - 1))

pub crlf_at_bound : (xs : List ℕ) (n : ℕ) → crlf_at xs ≡ some n → n + 2 ≤ length xs
unfolding crlf_at
crlf_at_bound [] n h = cc
crlf_at_bound (a ∷ []) n h = cc
crlf_at_bound (a ∷ b ∷ xs) n h = ground (arith, crlf_at_bound (b ∷ xs) (n - 1))

-- No data chunk of size zero is pending.
abbrev pub IsSound : ChunkState → Type 0
IsSound (chunk_data r) = 0 < r
IsSound _ = Unit

-- What a turn that goes on promises.
abbrev pub Goes : List ℕ → Turn → Type 0
Goes rest (go next n piece) = (0 < n) × (n ≤ length rest) × IsSound next
Goes rest _ = Unit

pub Turn-cases :
    (t : Turn)
    → (t ≡ stop)
      ⊎ (((e : ChunkError) × (t ≡ fail e))
          ⊎ ((s : ChunkState) × (n : ℕ) × (piece : List ℕ) × (t ≡ go s n piece)))
Turn-cases stop = inl refl
Turn-cases (fail e) = inr (inl (e, refl))
Turn-cases (go s n piece) = inr (inr (s, n, piece, refl))

pub IsSound-if : (n : ℕ) (s : ChunkState) → IsSound s → IsSound (if n == 0 then s else chunk_data n)
IsSound-if n s h = elim (Bool-cases (n == 0)) [
  | inl e ↦ rw e h
  | inr e ↦ let positive : 0 < n = ground arith in rw e positive
]

pub IsSound-if_end : (n : ℕ) → IsSound (if n == 0 then done else trailer)
IsSound-if_end n = elim (Bool-cases (n == 0)) [ inl e ↦ rw e tt | inr e ↦ rw e tt ]

-- What `chunk_line_end` finds lies in the bytes.
pub chunk_line_end_bound :
    (rest : List ℕ) (n : ℕ) → chunk_line_end rest ≡ ok (some n) → n + 2 ≤ length rest
unfolding chunk_line_end
chunk_line_end_bound rest n h = ground (arith, crlf_at_bound rest n)

pub chunk_line_end-append :
    (rest more : List ℕ) (n : ℕ)
    → chunk_line_end rest ≡ ok (some n)
    → chunk_line_end (rest ++ more) ≡ ok (some n)
unfolding chunk_line_end
chunk_line_end-append rest more n h = ground (arith, crlf_at-append rest more n)

abbrev pub Lies : List ℕ → Res ChunkError (Option ℕ) → Type 0
Lies rest (ok (some n)) = n + 2 ≤ length rest
Lies rest _ = Unit

pub chunk_line_end-Lies : (rest : List ℕ) → Lies rest (chunk_line_end rest)
chunk_line_end-Lies rest = elim (Res-cases (chunk_line_end rest)) [
  | inl (none, e) ↦ rw e tt
  | inl (some n, e) ↦ rw e (chunk_line_end_bound rest n e)
  | inr (x, e) ↦ rw e tt
]

pub size_turn-Goes :
    (rest : List ℕ) (r : Res ChunkError (Option ℕ)) → Lies rest r → Goes rest (size_turn rest r)
unfolding size_turn
size_turn-Goes rest (err e) h = tt
size_turn-Goes rest (ok none) h = tt
size_turn-Goes rest (ok (some n)) h = sized (from_hex (before_semicolon (take n rest)))
  where
    sized :
        (o : Option ℕ)
        → Goes rest (elim o [
          | none ↦ fail not_hexadecimal
          | some size ↦ go (if size == 0 then trailer else chunk_data size) (n + 2) []
        ])
    sized none = tt
    sized (some size) = (omega arith, h, IsSound-if size trailer tt)

pub trailer_turn-Goes :
    (rest : List ℕ) (r : Res ChunkError (Option ℕ)) → Lies rest r → Goes rest (trailer_turn r)
unfolding trailer_turn
trailer_turn-Goes rest (err e) h = tt
trailer_turn-Goes rest (ok none) h = tt
trailer_turn-Goes rest (ok (some n)) h = (omega arith, h, IsSound-if_end n)

pub turn-Goes : (s : ChunkState) (rest : List ℕ) → IsSound s → Goes rest (turn s rest)
unfolding turn
turn-Goes size_line rest h = size_turn-Goes rest (chunk_line_end rest) (chunk_line_end-Lies rest)
turn-Goes trailer rest h = trailer_turn-Goes rest (chunk_line_end rest) (chunk_line_end-Lies rest)
turn-Goes data_end [] h = tt
turn-Goes data_end (a ∷ []) h = tt
turn-Goes data_end (a ∷ b ∷ rest) h = elim (Bool-cases ((a == 13) && (b == 10))) [
  | inl e ↦ rw e (omega arith, omega arith, tt)
  | inr e ↦ rw e tt
]
turn-Goes done [] h = tt
turn-Goes done (b ∷ rest) h = tt
turn-Goes (chunk_data r) [] h = tt
turn-Goes (chunk_data r) (b ∷ rest) h =
    (omega arith, omega arith, IsSound-if (r - min r (suc (length rest))) data_end tt)

-- Where the loop stops or goes on at the bytes at hand, it does so with more bytes behind them,
-- data apart.
abbrev pub is_data : ChunkState → Bool
is_data (chunk_data _) = true
is_data _ = false

pub size_turn-append :
    (rest more : List ℕ) (m : ℕ)
    → m + 2 ≤ length rest
    → size_turn (rest ++ more) (ok (some m)) ≡ size_turn rest (ok (some m))
unfolding size_turn
size_turn-append rest more m h = rw (take-append m rest more (omega arith), size_turn)

pub size_line-append :
    (rest more : List ℕ) (r : Res ChunkError (Option ℕ)) (s : ChunkState) (n : ℕ) (piece : List ℕ)
    → chunk_line_end rest ≡ r
    → size_turn rest r ≡ go s n piece
    → size_turn (rest ++ more) (chunk_line_end (rest ++ more)) ≡ go s n piece
unfolding size_turn
size_line-append rest more (err x) s n piece e h = cc
size_line-append rest more (ok none) s n piece e h = cc
size_line-append rest more (ok (some m)) s n piece e h =
    rw (chunk_line_end-append rest more m e)
      (size_turn-append rest more m (chunk_line_end_bound rest m e) ∙ h)

pub trailer_line-append :
    (rest more : List ℕ) (r : Res ChunkError (Option ℕ)) (s : ChunkState) (n : ℕ) (piece : List ℕ)
    → chunk_line_end rest ≡ r
    → trailer_turn r ≡ go s n piece
    → trailer_turn (chunk_line_end (rest ++ more)) ≡ go s n piece
unfolding trailer_turn
trailer_line-append rest more (err x) s n piece e h = cc
trailer_line-append rest more (ok none) s n piece e h = cc
trailer_line-append rest more (ok (some m)) s n piece e h =
    rw (chunk_line_end-append rest more m e) h

pub turn-append :
    (s next : ChunkState) (rest more : List ℕ) (n : ℕ) (piece : List ℕ)
    → is_data s ≡ false
    → turn s rest ≡ go next n piece
    → turn s (rest ++ more) ≡ go next n piece
unfolding turn
turn-append size_line next rest more n piece d h =
    size_line-append rest more (chunk_line_end rest) next n piece refl h
turn-append trailer next rest more n piece d h =
    trailer_line-append rest more (chunk_line_end rest) next n piece refl h
turn-append data_end next [] more n piece d h = cc
turn-append data_end next (a ∷ []) more n piece d h = cc
turn-append data_end next (a ∷ b ∷ rest) more n piece d h = h
turn-append done next [] more n piece d h = cc
turn-append done next (b ∷ rest) more n piece d h = cc
turn-append (chunk_data r) next rest more n piece d h = cc

-- Fuel above the number of bytes at hand is enough, whatever it is.
pub run_fuel :
    (f g : ℕ) (s : ChunkState) (rest out : List ℕ)
    → IsSound s
    → length rest < f
    → length rest < g
    → run f s rest out ≡ run g s rest out
unfolding run
run_fuel zero g s rest out h p q = absurd (omega arith)
run_fuel (suc f) zero s rest out h p q = absurd (omega arith)
run_fuel (suc f) (suc g) s rest out h p q = elim (Turn-cases (turn s rest)) [
  | inl e ↦ rw (e, run)
  | inr (inl (x, e)) ↦ rw (e, run)
  | inr (inr (next, n, piece, e)) ↦
      let goes : Goes rest (go next n piece) = rw e at (turn-Goes s rest h) in
      rw (e, run)
        (run_fuel f g next (drop n rest) (out ++ piece) goes.2
          (omega (arith, length-drop n rest, goes.0)) (omega (arith, length-drop n rest, goes.0)))
]
