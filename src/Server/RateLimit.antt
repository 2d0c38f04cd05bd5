-- ===== src/Server/RateLimit.antt =====
-- `allowSecureEnrollment` of server/enrollment.go: at most 120 attempts in a window of a minute. The
-- mutex makes each call one step; the record is the package's variable.
pub mod Window
mod Examples
use mesh_alot.Prelude.{
  ℕ, zero, suc, ◌+◌, Bool, true, false, ◌||◌, List, [], ◌∷◌, leb, if◌then◌else◌,
}
use mesh_alot.Prelude.Int.{ℤ, pos, ltb_ℤ, leb_ℤ}
use mesh_alot.Prelude.Time.{Instant, is_zero, minute, sub}

pub record Rate : Type 0 where
  pub window : Instant
  pub attempts : ℕ

abbrev pub attempts_per_minute : ℕ
attempts_per_minute = 120

-- A new window starts when there is none, when a minute has passed, or when the clock went back.
abbrev pub starts_window : Rate → Instant → Bool
starts_window r now =
    is_zero r.window || leb_ℤ (pos minute) (sub now r.window) || ltb_ℤ now r.window

abbrev spend : Rate → Rate × Bool
spend r =
    if leb attempts_per_minute r.attempts
    then (r, false)
    else (record r { attempts = r.attempts + 1 }, true)

unfoldable pub allow_secure_enrollment : Rate → Instant → Rate × Bool
allow_secure_enrollment r now =
    spend (if starts_window r now then record { window = now; attempts = 0 } else r)
