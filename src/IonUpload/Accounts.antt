-- ===== src/IonUpload/Accounts.antt =====
-- The counters of the upload ledger of crates/tiletopia-server/src/ion_s3_endpoint.rs under any
-- interleaving of requests.
use tiletopia.Prelude.{
  ℕ, ◌+◌, ◌-◌, ◌^◌, ◌≤◌, ◌<◌, ◌≡◌, ap, List, [], ◌∷◌, ◌++◌, arith, if◌then◌else◌, All, All-append,
}
use tiletopia.IonUpload.Ledger.{
  StagedUsage, StagedLedger, try_open_session, release_file, release_session, Reservation,
  new_reservation, try_add, try_add_file, drop_reservation, keep,
}

-- The ledger, the requests at work, and what finished requests have left on disk.
pub record Uploads : Type 0 where
  pub ledger : StagedLedger
  pub live : List Reservation
  pub stored : StagedUsage

abbrev pub held_bytes : List Reservation → ℕ
held_bytes [] = 0
held_bytes (r ∷ live) = r.held_bytes + held_bytes live

abbrev pub held_files : List Reservation → ℕ
held_files [] = 0
held_files (r ∷ live) = r.held_files + held_files live

-- Every counter is what is stored and what the requests at work hold.
pub record IsAccounted (u : Uploads) : Type 0 where
  pub bytes : u.ledger.staged_bytes ≡ u.stored.bytes + held_bytes u.live
  pub files : u.ledger.staged_files ≡ u.stored.files + held_files u.live
  pub sessions : u.ledger.open_sessions ≡ u.stored.sessions

-- No counter is near the end of a u64, and nor is a cap with what an upload replaces.
pub record InRange (u : Uploads) (most_replaced : ℕ) : Type 0 where
  pub bytes : u.ledger.staged_bytes ≤ u.ledger.caps.bytes + most_replaced
  pub files : u.ledger.staged_files ≤ u.ledger.caps.files + most_replaced
  pub sessions : u.ledger.open_sessions ≤ u.ledger.caps.sessions
  pub room_bytes : u.ledger.caps.bytes + most_replaced < 2 ^ 63
  pub room_files : u.ledger.caps.files + most_replaced < 2 ^ 63
  pub room_sessions : u.ledger.caps.sessions < 2 ^ 63

-- One step of one request. The request at work stands first; `turn` brings another to the front.
pub data Step (most_replaced : ℕ) : Uploads → Uploads → Type 0 where
  begin :
      (u : Uploads) (replaced : ℕ)
      → replaced ≤ most_replaced
      → Step most_replaced u (record u { live = new_reservation replaced ∷ u.live })
  turn :
      (u : Uploads) (r s : Reservation) (live : List Reservation)
      → u.live ≡ r ∷ s ∷ live
      → Step most_replaced u (record u { live = (s ∷ live) ++ r ∷ [] })
  add :
      (u : Uploads) (r : Reservation) (live : List Reservation) (incoming : ℕ)
      → u.live ≡ r ∷ live
      → incoming < 2 ^ 63
      → Step most_replaced u (record u {
        ledger = (try_add u.ledger r incoming).0;
        live = (try_add u.ledger r incoming).1 ∷ live;
      })
  add_file :
      (u : Uploads) (r : Reservation) (live : List Reservation) (replaced_files : ℕ)
      → u.live ≡ r ∷ live
      → replaced_files ≤ most_replaced
      → Step most_replaced u (record u {
        ledger = (try_add_file u.ledger r replaced_files).0;
        live = (try_add_file u.ledger r replaced_files).1 ∷ live;
      })
  finish :
      (u : Uploads) (r : Reservation) (live : List Reservation)
      → u.live ≡ r ∷ live
      → Step most_replaced u (record u {
        ledger = keep u.ledger r;
        live = live;
        stored = record u.stored {
          bytes = u.stored.bytes + r.held_bytes;
          files = u.stored.files + r.held_files;
        };
      })
  cancel :
      (u : Uploads) (r : Reservation) (live : List Reservation)
      → u.live ≡ r ∷ live
      → Step most_replaced u (record u { ledger = drop_reservation u.ledger r; live = live })
  replace_file :
      (u : Uploads) (bytes : ℕ)
      → bytes ≤ u.stored.bytes
      → 0 < u.stored.files
      → Step most_replaced u (record u {
        ledger = release_file u.ledger bytes;
        stored = record u.stored { bytes = u.stored.bytes - bytes; files = u.stored.files - 1 };
      })
  open_session :
      (u : Uploads)
      → Step most_replaced u (record u {
        ledger = (try_open_session u.ledger).0;
        stored = record u.stored {
          sessions =
              if (try_open_session u.ledger).1 then u.stored.sessions + 1 else u.stored.sessions;
        };
      })
  end_session :
      (u : Uploads) (session : StagedUsage)
      → session.bytes ≤ u.stored.bytes
      → session.files ≤ u.stored.files
      → session.sessions ≤ u.stored.sessions
      → Step most_replaced u (record u {
        ledger = release_session u.ledger session;
        stored = record {
          bytes = u.stored.bytes - session.bytes;
          files = u.stored.files - session.files;
          sessions = u.stored.sessions - session.sessions;
        };
      })

pub data Reach (most_replaced : ℕ) (u : Uploads) : Uploads → Type 0 where
  here : Reach most_replaced u u
  next :
      {v w : Uploads} → Reach most_replaced u v → Step most_replaced v w → Reach most_replaced u w

-- No request replaces more than the given number of bytes.
abbrev pub Within : ℕ → List Reservation → Type 0
Within most_replaced = All (λ (r : Reservation). r.replaced_bytes ≤ most_replaced)

abbrev pub IsKept : ℕ → Uploads → Type 0
IsKept most_replaced u = IsAccounted u × InRange u most_replaced × Within most_replaced u.live

held_bytes-append : (l m : List Reservation) → held_bytes (l ++ m) ≡ held_bytes l + held_bytes m
held_bytes-append [] m = omega arith
held_bytes-append (r ∷ l) m = omega (arith, held_bytes-append l m)

held_files-append : (l m : List Reservation) → held_files (l ++ m) ≡ held_files l + held_files m
held_files-append [] m = omega arith
held_files-append (r ∷ l) m = omega (arith, held_files-append l m)

replaced-try_add :
    (l : StagedLedger) (r : Reservation) (n : ℕ)
    → (try_add l r n).1.replaced_bytes ≡ r.replaced_bytes
unfolding try_add
replaced-try_add l r n = ground arith

replaced-try_add_file :
    (l : StagedLedger) (r : Reservation) (n : ℕ)
    → (try_add_file l r n).1.replaced_bytes ≡ r.replaced_bytes
unfolding try_add_file
replaced-try_add_file l r n = ground arith

Step-Within : {R : ℕ} {u v : Uploads} → Step R u v → Within R u.live → Within R v.live
Step-Within (begin u replaced h) w = (h, w)
Step-Within {R} (turn u r s live e) w =
    let w' : Within R (r ∷ s ∷ live) = rw e at w in
    (w'.1.0, All-append (λ (x : Reservation). x.replaced_bytes ≤ R) live (r ∷ []) w'.1.1 (w'.0, tt))
Step-Within {R} (add u r live incoming e p) w =
    let w' : Within R (r ∷ live) = rw e at w in
    (rw (replaced-try_add u.ledger r incoming) w'.0, w'.1)
Step-Within {R} (add_file u r live n e h) w =
    let w' : Within R (r ∷ live) = rw e at w in (rw (replaced-try_add_file u.ledger r n) w'.0, w'.1)
Step-Within {R} (finish u r live e) w = let w' : Within R (r ∷ live) = rw e at w in w'.1
Step-Within {R} (cancel u r live e) w = let w' : Within R (r ∷ live) = rw e at w in w'.1
Step-Within (replace_file u bytes h p) w = w
Step-Within (open_session u) w = w
Step-Within (end_session u session p q r) w = w

Step-IsAccounted : {R : ℕ} {u v : Uploads} → Step R u v → IsKept R u → IsAccounted v
unfolding try_add try_add_file drop_reservation keep release_file release_session try_open_session
Step-IsAccounted (begin u replaced h) (a, b, w) = ground arith
Step-IsAccounted (turn u r s live e) (a, b, w) = ground (
  arith,
  ap held_bytes e,
  ap held_files e,
  held_bytes-append live (r ∷ []),
  held_files-append live (r ∷ []),
)
Step-IsAccounted {R} (add u r live incoming e p) (a, b, w) =
    let w' : Within R (r ∷ live) = rw e at w in
    ground (arith, ap held_bytes e, ap held_files e, w'.0)
Step-IsAccounted (add_file u r live replaced e h) (a, b, w) =
    ground (arith, ap held_bytes e, ap held_files e)
Step-IsAccounted (finish u r live e) (a, b, w) = ground (arith, ap held_bytes e, ap held_files e)
Step-IsAccounted (cancel u r live e) (a, b, w) = ground (arith, ap held_bytes e, ap held_files e)
Step-IsAccounted (replace_file u bytes h p) (a, b, w) = ground arith
Step-IsAccounted (open_session u) (a, b, w) = ground arith
Step-IsAccounted (end_session u session p q r) (a, b, w) = ground arith

Step-InRange : {R : ℕ} {u v : Uploads} → Step R u v → IsKept R u → InRange v R
unfolding try_add try_add_file drop_reservation keep release_file release_session try_open_session
Step-InRange (begin u replaced h) (a, b, w) = ground arith
Step-InRange (turn u r s live e) (a, b, w) = ground arith
Step-InRange {R} (add u r live incoming e p) (a, b, w) =
    let w' : Within R (r ∷ live) = rw e at w in
    ground (arith, ap held_bytes e, ap held_files e, w'.0)
Step-InRange (add_file u r live replaced e h) (a, b, w) =
    ground (arith, ap held_bytes e, ap held_files e)
Step-InRange (finish u r live e) (a, b, w) = ground (arith, ap held_bytes e, ap held_files e)
Step-InRange (cancel u r live e) (a, b, w) = ground (arith, ap held_bytes e, ap held_files e)
Step-InRange (replace_file u bytes h p) (a, b, w) = ground arith
Step-InRange (open_session u) (a, b, w) = ground arith
Step-InRange (end_session u session p q r) (a, b, w) = ground arith

-- However the requests are interleaved, every counter stays what is stored and held, and stays
-- within its cap, save for the bytes and files that a request replaces.
pub Reach-IsKept : {R : ℕ} {u v : Uploads} → IsKept R u → Reach R u v → IsKept R v
Reach-IsKept k here = k
Reach-IsKept k (next r s) =
    let before = Reach-IsKept k r in
    (Step-IsAccounted s before, Step-InRange s before, Step-Within s before.2)
