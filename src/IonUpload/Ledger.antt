-- ===== src/IonUpload/Ledger.antt =====
-- `StagedLedger` and `Reservation` of crates/tiletopia-server/src/ion_s3_endpoint.rs: the counters
-- that requests running at the same time share, and what each of them holds.
-- A counter is a u64 that wraps. Every counter update is one atomic step, so the requests are a
-- sequence of steps in any order. A dropped reservation, which a cancelled request leaves, is the
-- step `drop`; `keep` also ends in a drop, of an emptied reservation.
use tiletopia.Prelude.{ℕ, ◌+◌, ◌-◌, ◌%◌, ◌^◌, Bool, true, false, leb, if◌then◌else◌}

abbrev pub u64 : ℕ → ℕ
u64 n = n % 2 ^ 64

-- `fetch_sub`
abbrev pub sub64 : ℕ → ℕ → ℕ
sub64 a b = u64 (a + 2 ^ 64 - b)

-- `upload_cap_allows(staged_bytes, replaced_bytes, incoming_bytes, cap_bytes)`
unfoldable pub upload_cap_allows : ℕ → ℕ → ℕ → ℕ → Bool
upload_cap_allows staged replaced incoming cap =
    leb (u64 (staged + incoming)) (u64 (cap + replaced))

-- `try_count_up(counter, adding, replacing, cap)`: the counter after it, and whether it counted.
unfoldable pub try_count_up : ℕ → ℕ → ℕ → ℕ → ℕ × Bool
unfolding upload_cap_allows
try_count_up count adding replacing cap =
    if upload_cap_allows count replacing adding cap
    then (u64 (count + adding), true)
    else (count, false)

pub record StagedCaps : Type 0 where
  pub bytes : ℕ
  pub files : ℕ
  pub sessions : ℕ

pub record StagedUsage : Type 0 where
  pub bytes : ℕ
  pub files : ℕ
  pub sessions : ℕ

pub record StagedLedger : Type 0 where
  pub staged_bytes : ℕ
  pub staged_files : ℕ
  pub open_sessions : ℕ
  pub caps : StagedCaps

unfoldable pub new_ledger : StagedUsage → StagedCaps → StagedLedger
new_ledger usage caps = record {
  staged_bytes = usage.bytes;
  staged_files = usage.files;
  open_sessions = usage.sessions;
  caps = caps;
}

unfoldable pub try_reserve : StagedLedger → ℕ → ℕ → StagedLedger × Bool
unfolding try_count_up
try_reserve l incoming replaced =
    let (count, counted) = try_count_up l.staged_bytes incoming replaced l.caps.bytes in
    (record l { staged_bytes = count }, counted)

unfoldable pub try_open_session : StagedLedger → StagedLedger × Bool
unfolding try_count_up
try_open_session l =
    let (count, counted) = try_count_up l.open_sessions 1 0 l.caps.sessions in
    (record l { open_sessions = count }, counted)

unfoldable pub release : StagedLedger → ℕ → StagedLedger
release l bytes = record l { staged_bytes = sub64 l.staged_bytes bytes }

unfoldable pub release_file : StagedLedger → ℕ → StagedLedger
unfolding release
release_file l bytes =
    let l' = release l bytes in record l' { staged_files = sub64 l'.staged_files 1 }

unfoldable pub release_session : StagedLedger → StagedUsage → StagedLedger
unfolding release
release_session l session =
    let l' = release l session.bytes in
    record l' {
      staged_files = sub64 l'.staged_files session.files;
      open_sessions = sub64 l'.open_sessions session.sessions;
    }

-- The ledger that a reservation names is the one that the steps act on.
pub record Reservation : Type 0 where
  pub replaced_bytes : ℕ
  pub held_bytes : ℕ
  pub held_files : ℕ

abbrev pub new_reservation : ℕ → Reservation
new_reservation replaced = record { replaced_bytes = replaced; held_bytes = 0; held_files = 0 }

unfoldable pub try_add : StagedLedger → Reservation → ℕ → StagedLedger × Reservation × Bool
unfolding try_reserve
try_add l r incoming =
    let (l', reserved) = try_reserve l incoming r.replaced_bytes in
    (
      l',
      (if reserved then record r { held_bytes = u64 (r.held_bytes + incoming) } else r),
      reserved,
    )

unfoldable pub try_add_file : StagedLedger → Reservation → ℕ → StagedLedger × Reservation × Bool
unfolding try_count_up
try_add_file l r replaced_files =
    let (count, reserved) = try_count_up l.staged_files 1 replaced_files l.caps.files in
    (
      record l { staged_files = count },
      (if reserved then record r { held_files = u64 (r.held_files + 1) } else r),
      reserved,
    )

-- `Drop for Reservation`
unfoldable pub drop_reservation : StagedLedger → Reservation → StagedLedger
unfolding release
drop_reservation l r =
    let l' = release l r.held_bytes in
    record l' { staged_files = sub64 l'.staged_files r.held_files }

-- `Reservation::keep`, with the drop of `self` at its end
unfoldable pub keep : StagedLedger → Reservation → StagedLedger
unfolding drop_reservation
keep l r = drop_reservation l (record r { held_bytes = 0; held_files = 0 })
