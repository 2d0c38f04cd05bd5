-- ===== src/Server/RateLimit/Window.antt =====
-- How many attempts `allowSecureEnrollment` of server/enrollment.go lets through.
use Prim.Native.Nat.{min}
use mesh_alot.Prelude.{
  ℕ, ◌<◌, suc, ◌+◌, ◌-◌, ◌≡◌, refl, Bool, true, false, List, [], ◌∷◌, All, length, leb,
  if◌then◌else◌, arith, Bool-cases, inl, inr,
}
use mesh_alot.Prelude.Int.{pos}
use mesh_alot.Prelude.Time.{Instant, minute, sub}
use mesh_alot.Server.RateLimit.{Rate, attempts_per_minute, starts_window, allow_secure_enrollment}

abbrev count_true : Bool → ℕ → ℕ
count_true true n = suc n
count_true false n = n

-- The calls at these instants, in order: the last state, and how many were allowed.
pub attempt_all : Rate → List Instant → Rate × ℕ
attempt_all r [] = (r, 0)
attempt_all r (t ∷ ts) =
    let (r', allowed) = allow_secure_enrollment r t in
    let (last, n) = attempt_all r' ts in (last, count_true allowed n)

-- The window has begun, at a time that is not zero, and this time is less than a minute later.
abbrev pub InWindow : Rate → Instant → Type 0
InWindow r t =
    (start : ℕ) × (passed : ℕ) × (r.window ≡ pos start)
    × (0 < start)
    × (t ≡ pos (start + passed))
    × (passed < minute)

window_runs : (r : Rate) (t : Instant) → InWindow r t → starts_window r t ≡ false
unfolding sub
window_runs r t (start, passed, at, begun, same, short) =
    rw at (rw same (ground (arith, begun, short)))

inside :
    (r : Rate) (t : Instant)
    → InWindow r t
    → allow_secure_enrollment r t ≡ (
        if leb attempts_per_minute r.attempts
        then (r, false)
        else (record r { attempts = r.attempts + 1 }, true))
unfolding allow_secure_enrollment
inside r t h = rw (window_runs r t h)

spent :
    (r : Rate) (ts : List Instant)
    → All (InWindow r) ts
    → leb attempts_per_minute r.attempts ≡ true
    → (attempt_all r ts).1 ≡ 0
unfolding attempt_all
spent r [] h full = refl
spent r (t ∷ ts) (h, hs) full = rw (inside r t h, full) (spent r ts hs full)

-- Of any calls less than a minute after the start of the window, which is not the zero time, exactly
-- as many are allowed as there are attempts left of the 120, or all of them if they are fewer.
pub allowed-InWindow :
    (r : Rate) (ts : List Instant)
    → All (InWindow r) ts
    → (attempt_all r ts).1 ≡ min (length ts) (attempts_per_minute - r.attempts)
unfolding attempt_all
allowed-InWindow r [] h = omega arith
allowed-InWindow r (t ∷ ts) (h, hs) = elim (Bool-cases (leb attempts_per_minute r.attempts)) [
  | inl full ↦ rw (inside r t h, full) (rw (spent r ts hs full) (ground arith))
  | inr free ↦
      rw (inside r t h, free)
        (ground (arith, allowed-InWindow (record r { attempts = r.attempts + 1 }) ts hs))
]
