-- ===== src/IonUpload/ChunkedLaws.antt =====
-- `AwsChunkedDecoder` of crates/tiletopia-server/src/ion_s3_endpoint.rs does not depend on how the connection cuts the body.
use tiletopia.Prelude.{
  ℕ, zero, suc, ◌+◌, ◌-◌, ◌≤◌, ◌<◌, min, ◌≡◌, refl, sym, subst, ◌∙◌, append_assoc, append-nil, ◌⊎◌,
  inl, inr, List, [], ◌∷◌, ◌++◌, arith, leb, ◌==◌, if◌then◌else◌, Bool-cases, length, drop,
  length-append, length-drop, take, take-append, drop-append, take_all, drop_all,
  take-append_beyond, drop-append_beyond,
}
use tiletopia.Prelude.Res.{Res, ok, ◌>>=◌, >>=-eq-ok, ok-injective, err≢ok}
use mathlib.Core.List.{flatten}
use tiletopia.IonUpload.Chunked.{
  ChunkError, ChunkState, data_end, chunk_data, Decoder, stop, go, turn, run, feed, Fed,
}
use tiletopia.IonUpload.ChunkedTurns.{
  IsSound, Goes, Turn-cases, IsSound-if, turn-Goes, turn-append, run_fuel,
}

-- Where a run stops.
pub run_stop :
    (f : ℕ) (s : ChunkState) (rest out : List ℕ)
    → turn s rest ≡ stop
    → run (suc f) s rest out ≡ ok (record { state = s; pending = rest }, out)
unfolding run
run_stop f s rest out e = rw (e, run)

pub run_go :
    (f : ℕ) (s next : ChunkState) (rest out : List ℕ) (n : ℕ) (piece : List ℕ)
    → turn s rest ≡ go next n piece
    → run (suc f) s rest out ≡ run f next (drop n rest) (out ++ piece)
unfolding run
run_go f s next rest out n piece e = rw (e, run)

unfoldable pub after_data : ℕ → ChunkState
after_data left = if left == 0 then data_end else chunk_data left

pub turn_data :
    (r : ℕ) (rest : List ℕ)
    → 0 < length rest
    → turn (chunk_data r) rest
      ≡ go
          (after_data (r - min r (length rest)))
          (min r (length rest))
          (take (min r (length rest)) rest)
unfolding turn after_data
turn_data r [] h = absurd (omega arith)
turn_data r (b ∷ rest) h = refl

IsSound-after_data : (n : ℕ) → IsSound (after_data n)
unfolding after_data
IsSound-after_data n = IsSound-if n data_end tt

-- The data of a chunk may be taken in two parts.
run_data-append :
    (r : ℕ) (rest more out : List ℕ)
    → length rest < r
    → 0 < length rest
    → 0 < length more
    → run (suc (length (rest ++ more))) (chunk_data r) (rest ++ more) out
      ≡ run (suc (length more)) (chunk_data (r - length rest)) more (out ++ rest)
run_data-append r rest more out p q m =
    run_go _ _ _ _ out _ _ (turn_data r (rest ++ more) (omega (arith, length-append rest more)))
    ∙ joined
    ∙ sym (run_go _ _ _ _ (out ++ rest) _ _ (turn_data (r - length rest) more m))
  where
    taken : min r (length (rest ++ more)) ≡ length rest + min (r - length rest) (length more)
    taken = omega (arith, length-append rest more)

    left : r - min r (length (rest ++ more)) ≡ r - length rest - min (r - length rest) (length more)
    left = omega (arith, length-append rest more)

    joined :
        run
          (length (rest ++ more))
          (after_data (r - min r (length (rest ++ more))))
          (drop (min r (length (rest ++ more))) (rest ++ more))
          (out ++ take (min r (length (rest ++ more))) (rest ++ more))
        ≡ run
            (length more)
            (after_data (r - length rest - min (r - length rest) (length more)))
            (drop (min (r - length rest) (length more)) more)
            ((out ++ rest) ++ take (min (r - length rest) (length more)) more)
    joined =
        rw
          (
            left,
            taken,
            take-append_beyond rest more (min (r - length rest) (length more)),
            drop-append_beyond rest more (min (r - length rest) (length more)),
            append_assoc,
          )
          (run_fuel (length (rest ++ more)) (length more) _ _ _
            (IsSound-after_data (r - length rest - min (r - length rest) (length more)))
            (omega (
              arith,
              length-drop (min (r - length rest) (length more)) more,
              length-append rest more,
            ))
            (omega (
              arith,
              length-drop (min (r - length rest) (length more)) more,
              length-append rest more,
            )))

turn_data_inside :
    (r : ℕ) (rest more : List ℕ)
    → r ≤ length rest
    → 0 < length rest
    → turn (chunk_data r) (rest ++ more) ≡ turn (chunk_data r) rest
turn_data_inside r rest more h p =
    turn_data r (rest ++ more) (omega (arith, length-append rest more))
    ∙ (rw (whole, part, take-append r rest more h) refl ∙ sym (turn_data r rest p))
  where
    whole : min r (length (rest ++ more)) ≡ r
    whole = omega (arith, length-append rest more)

    part : min r (length rest) ≡ r
    part = omega arith

abbrev Resumes : ChunkState → List ℕ → List ℕ → List ℕ → Fed → Type 0
Resumes s rest more out (d, out') =
    run (suc (length (rest ++ more))) s (rest ++ more) out
    ≡ run (suc (length (d.pending ++ more))) d.state (d.pending ++ more) out'

-- A whole turn that the bytes at hand allow is the same turn with more bytes behind them.
whole_turn :
    (s next : ChunkState) (rest more : List ℕ) (n : ℕ) (piece : List ℕ)
    → turn s rest ≡ go next n piece
    → (turn s (rest ++ more) ≡ go next n piece)
      ⊎ ((r : ℕ) × (s ≡ chunk_data r) × (length rest < r) × (0 < length rest))
whole_turn (chunk_data r) next [] more n piece e = absurd (unfold turn in cc)
whole_turn (chunk_data r) next (b ∷ rest) more n piece e =
    elim (Bool-cases (leb r (suc (length rest)))) [
      | inl small ↦
          let inside : r ≤ length (b ∷ rest) = ground arith in
          inl (turn_data_inside r (b ∷ rest) more inside (omega arith) ∙ e)
      | inr big ↦ inr (r, refl, ground arith, omega arith)
    ]
whole_turn s next rest more n piece e = inl (turn-append s next rest more n piece refl e)

pub turn_data_whole :
    (r : ℕ) (rest : List ℕ)
    → length rest < r
    → 0 < length rest
    → turn (chunk_data r) rest ≡ go (chunk_data (r - length rest)) (length rest) rest
turn_data_whole r rest p q =
    turn_data r rest q ∙ rw (all, take_all (length rest) rest (omega arith), left) refl
  where
    all : min r (length rest) ≡ length rest
    all = omega arith

    left : after_data (r - length rest) ≡ chunk_data (r - length rest)
    left = unfold after_data in ground arith

-- The data at hand does not end the chunk.
turn_data_short :
    (r : ℕ) (rest : List ℕ) (next : ChunkState) (n : ℕ) (piece : List ℕ)
    → length rest < r
    → 0 < length rest
    → turn (chunk_data r) rest ≡ go next n piece
    → (next ≡ chunk_data (r - length rest)) × (n ≡ length rest) × (piece ≡ rest)
turn_data_short r rest next n piece p q e = (cc split, cc split, cc split)
  where
    split : go (chunk_data (r - length rest)) (length rest) rest ≡ go next n piece
    split = sym (turn_data_whole r rest p q) ∙ e

run_data_short :
    (r : ℕ) (rest more out : List ℕ)
    → length rest < r
    → 0 < length rest
    → run (suc (length (rest ++ more))) (chunk_data r) (rest ++ more) out
      ≡ run (suc (length more)) (chunk_data (r - length rest)) more (out ++ rest)
run_data_short r rest [] out p q = rw append-nil (
    run_go _ _ _ _ out _ _ (turn_data_whole r rest p q)
    ∙ rw (drop_all (length rest) rest (omega arith)) (
        run_fuel (length rest) 1 (chunk_data (r - length rest)) [] (out ++ rest) (omega arith) q
          (omega arith)))
run_data_short r rest (m ∷ more) out p q = run_data-append r rest (m ∷ more) out p q (omega arith)

one_turn :
    (s next : ChunkState) (rest more out : List ℕ) (n : ℕ) (piece : List ℕ)
    → IsSound s
    → turn s rest ≡ go next n piece
    → run (suc (length (rest ++ more))) s (rest ++ more) out
      ≡ run (suc (length (drop n rest ++ more))) next (drop n rest ++ more) (out ++ piece)
one_turn s next rest more out n piece h e = elim (whole_turn s next rest more n piece e) [
  | inl w ↦
      let goes : Goes rest (go next n piece) = rw e at (turn-Goes s rest h) in
      run_go (length (rest ++ more)) s next (rest ++ more) out n piece w
      ∙ rw (drop-append n rest more goes.1) (
          run_fuel (length (rest ++ more)) _ next (drop n rest ++ more) (out ++ piece) goes.2
            (omega (
              arith,
              length-append rest more,
              length-append (drop n rest) more,
              length-drop n rest,
              goes.0,
              goes.1,
            ))
            (omega arith))
  | inr (r, es, p, q) ↦
      let (e1, e2, e3) = turn_data_short r rest next n piece p q (rw es at e) in
      rw (es, e1, e2, e3, drop_all (length rest) rest (omega arith))
        (run_data_short r rest more out p q)
]

-- A run that ends without an error goes on from where it ended, when more bytes come.
run-append :
    (f : ℕ) (s : ChunkState) (rest more out : List ℕ) (fed : Fed)
    → IsSound s
    → length rest < f
    → run f s rest out ≡ ok fed
    → Resumes s rest more out fed
unfolding run
run-append zero s rest more out fed h p e = absurd (omega arith)
run-append (suc f) s rest more out fed h p e = elim (Turn-cases (turn s rest)) [
  | inl q ↦ subst (Resumes s rest more out) (ok-injective (rw (q, run) at e)) refl
  | inr (inl (x, q)) ↦ absurd (err≢ok (rw (q, run) at e))
  | inr (inr (next, n, piece, q)) ↦
      let goes : Goes rest (go next n piece) = rw q at (turn-Goes s rest h) in
      one_turn s next rest more out n piece h q
      ∙ run-append f next (drop n rest) more (out ++ piece) fed goes.2
          (omega (arith, length-drop n rest, goes.0)) (rw (q, run) at e)
]

-- A body fed in two pieces, where the first is taken without an error, gives what it gives when
-- it is fed whole: the same output and decoder, or the same error.
pub feed-append :
    (d d' : Decoder) (first second out out' : List ℕ)
    → IsSound d.state
    → feed d first out ≡ ok (d', out')
    → feed d (first ++ second) out ≡ feed d' second out'
unfolding feed
feed-append d d' first second out out' h e = rw (← append_assoc d.pending first second) (
    run-append (suc (length (d.pending ++ first))) d.state (d.pending ++ first) second out
      (d', out') h (omega arith) e)

run-IsSound :
    (f : ℕ) (s : ChunkState) (rest out : List ℕ) (fed : Fed)
    → IsSound s
    → run f s rest out ≡ ok fed
    → IsSound fed.0.state
unfolding run
run-IsSound zero s rest out fed h e = subst (λ (g : Fed). IsSound g.0.state) (ok-injective e) h
run-IsSound (suc f) s rest out fed h e = elim (Turn-cases (turn s rest)) [
  | inl q ↦ subst (λ (g : Fed). IsSound g.0.state) (ok-injective (rw (q, run) at e)) h
  | inr (inl (x, q)) ↦ absurd (err≢ok (rw (q, run) at e))
  | inr (inr (next, n, piece, q)) ↦
      let goes : Goes rest (go next n piece) = rw q at (turn-Goes s rest h) in
      run-IsSound f next (drop n rest) (out ++ piece) fed goes.2 (rw (q, run) at e)
]

feed-IsSound :
    (d : Decoder) (fed : Fed) (input out : List ℕ)
    → IsSound d.state
    → feed d input out ≡ ok fed
    → IsSound fed.0.state
unfolding feed
feed-IsSound d fed input out h e =
    run-IsSound (suc (length (d.pending ++ input))) d.state (d.pending ++ input) out fed h e

-- The connection's pieces, one after the other.
unfoldable pub feed_all : Decoder → List (List ℕ) → List ℕ → Res ChunkError Fed
feed_all d [] out = ok (d, out)
feed_all d (piece ∷ pieces) out = do (d', out') ← feed d piece out; feed_all d' pieces out'

-- A body that is taken in pieces gives what it gives when it is fed whole, however it is cut.
pub feed_all-flatten :
    (d d' : Decoder) (first : List ℕ) (pieces : List (List ℕ)) (out out' : List ℕ)
    → IsSound d.state
    → feed_all d (first ∷ pieces) out ≡ ok (d', out')
    → feed d (first ++ flatten pieces) out ≡ ok (d', out')
unfolding feed_all flatten
feed_all-flatten d d' first [] out out' h e =
    let (fed, q, later) = >>=-eq-ok (feed d first out) _ e in rw append-nil (q ∙ later)
feed_all-flatten d d' first (piece ∷ pieces) out out' h e =
    let ((d1, out1), q, later) = >>=-eq-ok (feed d first out) _ e in
    feed-append d d1 first (piece ++ flatten pieces) out out1 h q
    ∙ feed_all-flatten d1 d' piece pieces out1 out' (feed-IsSound d (d1, out1) first out h q) later
