-- ===== src/Times.antt =====
-- The times of src/utils.c. A FILETIME is its two 32-bit halves; the conversions of Windows are
-- parameters.
use trace_glass.Base.{
  ℕ, ◌+◌, ◌*◌, ◌/◌, ◌%◌, ◌<◌, ◌≡◌, ◌≢◌, Option, none, some, arith, ◌==◌, if◌then◌else◌,
}
use trace_glass.Events.{SystemTime}

pub record FileTime : Type 0 where
  pub low : ℕ
  pub high : ℕ

abbrev pub dword : ℕ
dword = 0x1_0000_0000

unfoldable pub filetime_to_u64 : FileTime → ℕ
filetime_to_u64 value = value.low + value.high * dword

-- The halves of `utc_filetime`.
unfoldable pub filetime_of : ℕ → FileTime
filetime_of value = record { low = value % dword; high = value / dword % dword }

-- `convert` is FileTimeToLocalFileTime followed by FileTimeToSystemTime; `none` is FALSE.
unfoldable pub local_systemtime_from_filetime :
    (FileTime → Option SystemTime) → ℕ → Option SystemTime
unfolding filetime_of
local_systemtime_from_filetime convert value =
    if value == 0 then none else convert (filetime_of value)

-- GetSystemTime, and SystemTimeToTzSpecificLocalTime if it succeeds.
unfoldable pub get_local_system_time : SystemTime → (SystemTime → Option SystemTime) → SystemTime
get_local_system_time utc to_local = elim (to_local utc) [ none ↦ utc | some t ↦ t ]

-- A 64-bit time other than 0 is converted as the FILETIME that `filetime_to_u64` reads as that time.
pub local_systemtime-filetime :
    (convert : FileTime → Option SystemTime) (value : ℕ)
    → value ≢ 0
    → value < dword * dword
    → (local_systemtime_from_filetime convert value ≡ convert (filetime_of value))
      × (filetime_to_u64 (filetime_of value) ≡ value)
unfolding local_systemtime_from_filetime filetime_to_u64
local_systemtime-filetime convert value h k = (ground arith, omega arith)

-- A FILETIME whose halves are of 32 bits comes back from its 64-bit number.
pub filetime_of-filetime_to_u64 :
    (t : FileTime) → t.low < dword → t.high < dword → filetime_of (filetime_to_u64 t) ≡ t
unfolding filetime_of filetime_to_u64
filetime_of-filetime_to_u64 t h k = λ i. record { low = low_half i; high = high_half i }
  where
    low_half : (t.low + t.high * dword) % dword ≡ t.low
    low_half = omega (arith, h, k)

    high_half : (t.low + t.high * dword) / dword % dword ≡ t.high
    high_half = omega (arith, h, k)
