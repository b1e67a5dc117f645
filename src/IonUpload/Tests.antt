-- ===== src/IonUpload/Tests.antt =====
-- Runs of the upload endpoint's decoder and ledger at concrete inputs.
use tiletopia.Prelude.{ℕ, ◌≡◌, refl, some, List, [], ◌∷◌, ◌++◌, arith}
use tiletopia.Prelude.Res.{ok}
use mathlib.Core.List.{flatten}
use tiletopia.IonUpload.Chunked.{
  Decoder, new_decoder, done, chunk_data, from_hex, before_semicolon, feed, finish,
}
use tiletopia.IonUpload.ChunkedLaws.{feed_all, feed_all-flatten}
use tiletopia.IonUpload.ChunkedRoundTrip.{Chunk, encode, payloads, feed-encode}
use tiletopia.IonUpload.Ledger.{StagedUsage, StagedCaps, Reservation, new_reservation, try_add}
use tiletopia.IonUpload.Accounts.{Uploads, IsKept, Reach, here, next, begin, add, Reach-IsKept}

-- "3" CRLF "abc" CRLF "0" CRLF CRLF
abbrev body : List ℕ
body = 51 ∷ 13 ∷ 10 ∷ 97 ∷ 98 ∷ 99 ∷ 13 ∷ 10 ∷ 48 ∷ 13 ∷ 10 ∷ 13 ∷ 10 ∷ []

abbrev all_read : Decoder
all_read = record { state = done; pending = [] }

decodes : feed new_decoder body [] ≡ ok (all_read, 97 ∷ 98 ∷ 99 ∷ [])
unfolding feed
decodes = refl

abbrev first_piece : List ℕ
first_piece = 51 ∷ 13 ∷ 10 ∷ 97 ∷ []

abbrev second_piece : List ℕ
second_piece = 98 ∷ 99 ∷ 13 ∷ 10 ∷ 48 ∷ 13 ∷ 10 ∷ 13 ∷ 10 ∷ []

abbrev half_way : Decoder
half_way = record { state = chunk_data 2; pending = [] }

feed_all-flatten_example :
    feed new_decoder (first_piece ++ flatten (second_piece ∷ [])) []
    ≡ ok (all_read, 97 ∷ 98 ∷ 99 ∷ [])
unfolding feed feed_all
feed_all-flatten_example =
    feed_all-flatten new_decoder all_read first_piece (second_piece ∷ []) [] (97 ∷ 98 ∷ 99 ∷ []) tt
      refl

abbrev abc : Chunk
abc = record { line = 51 ∷ []; payload = 97 ∷ 98 ∷ 99 ∷ [] }

three : from_hex (51 ∷ []) ≡ some 3
unfolding from_hex before_semicolon
three = refl

feed-encode_example :
    (feed new_decoder (encode (abc ∷ []) (48 ∷ [])) [] ≡ ok (all_read, [] ++ payloads (abc ∷ [])))
    × (finish all_read ≡ ok tt)
unfolding from_hex before_semicolon
feed-encode_example =
    feed-encode (abc ∷ []) (48 ∷ []) [] ((((omega arith, tt), refl), omega arith), tt)
      ((omega arith, tt), refl)

abbrev caps : StagedCaps
caps = record { bytes = 100; files = 2; sessions = 1 }

abbrev empty_usage : StagedUsage
empty_usage = record { bytes = 0; files = 0; sessions = 0 }

abbrev uploads : Uploads
uploads = record {
  ledger = record { staged_bytes = 0; staged_files = 0; open_sessions = 0; caps = caps };
  live = [];
  stored = empty_usage;
}

uploads-IsKept : IsKept 0 uploads
uploads-IsKept = (ground arith, ground arith, tt)

abbrev begun : Uploads
begun = record uploads { live = new_reservation 0 ∷ [] }

abbrev added : Uploads
added = record begun {
  ledger = (try_add begun.ledger (new_reservation 0) 60).0;
  live = (try_add begun.ledger (new_reservation 0) 60).1 ∷ [];
}

added_holds : added.ledger.staged_bytes ≡ 60
unfolding try_add
added_holds = refl

abbrev added_reach : Reach 0 uploads added
added_reach =
    next (next here (begin uploads 0 (omega arith)))
      (add begun (new_reservation 0) [] 60 refl (omega arith))

Reach-IsKept_example : IsKept 0 added
Reach-IsKept_example = Reach-IsKept uploads-IsKept added_reach

abbrev holding : Reservation
holding = record { replaced_bytes = 0; held_bytes = 60; held_files = 0 }

abbrev held_uploads : Uploads
held_uploads = record begun {
  ledger = record begun.ledger { staged_bytes = 60 };
  live = holding ∷ [];
}
