-- ===== src/Server/Enrollment/Quota.antt =====
-- How many live codes an account has, by server/enrollment.go.
use mesh_alot.Prelude.{ℕ, ◌≤◌, ◌<◌, ◌≡◌, true, false, List, [], ◌∷◌, arith}
use mesh_alot.Prelude.Int.{ltb_ℤ}
use mesh_alot.Prelude.Text.{Text, text_eq}
use mesh_alot.Prelude.Time.{Instant}
use mesh_alot.Server.Database.{Database, Faults, too_many_active_enrollment_codes}
use mesh_alot.Server.Enrollment.{
  Progress, counting, created, failed, create_step, count_active, has_hash, check_quota,
  insert_token, create_enrollment_token, max_active_enrollment_codes,
}

-- If no account has more than five live codes at an instant, none has after any request for a code
-- that runs alone at that instant.
pub create-count_active-le :
    (fault : Faults) (now : Instant) (fresh user : ℕ) (hash : Text) (expires : Instant)
    (db : Database)
    → ((u : ℕ) → count_active u now db.tokens ≤ max_active_enrollment_codes)
    → (u : ℕ)
    → count_active u now (create_enrollment_token fault now fresh user hash expires db).1.tokens
      ≤ max_active_enrollment_codes
unfolding create_enrollment_token check_quota insert_token count_active
create-count_active-le fault now fresh user hash expires db h u = ground (arith, h u, h user)

-- Whose statement is next.
pub data Turn : Type 0 where
  first second : Turn

-- Two requests of one account at one instant, which differ in the code, and the tables.
pub record Race : Type 0 where
  pub one : Progress
  pub two : Progress
  pub tables : Database

module _ (fault : Faults) (now expires : Instant) (user fresh fresh' : ℕ) (hash hash' : Text) where
  abbrev pub move : Turn → Race → Race
  move first r =
      let (p, db) = create_step fault now fresh user hash expires r.one r.tables in
      record r { one = p; tables = db }
  move second r =
      let (p, db) = create_step fault now fresh' user hash' expires r.two r.tables in
      record r { two = p; tables = db }

  abbrev pub run : List Turn → Race → Race
  run [] r = r
  run (t ∷ ts) r = run ts (move t r)

  -- Two requests of an account that has four live codes, for two different codes that are not stored
  -- and have not ended, whose statements the database does not refuse. If one runs before the other, the first makes a code, the second is refused as one too
  -- many, and five codes are live. If both count before either inserts, both make a code, and more
  -- codes are live than the maximum.
  pub racing_requests :
      (db : Database)
      → ((n : ℕ) → fault n ≡ false)
      → count_active user now db.tokens ≡ 4
      → ltb_ℤ now expires ≡ true
      → has_hash hash db.tokens ≡ false
      → has_hash hash' db.tokens ≡ false
      → text_eq hash hash' ≡ false
      → let start : Race = record { one = counting; two = counting; tables = db } in
        let serial = run (first ∷ first ∷ second ∷ second ∷ []) start in
        let race = run (first ∷ second ∷ first ∷ second ∷ []) start in
        (serial.one ≡ created)
        × (serial.two ≡ failed too_many_active_enrollment_codes)
        × (count_active user now serial.tables.tokens ≡ max_active_enrollment_codes)
        × (race.one ≡ created)
        × (race.two ≡ created)
        × (max_active_enrollment_codes < count_active user now race.tables.tokens)
  unfolding create_step check_quota insert_token count_active has_hash
  racing_requests db sound four live a b apart = (
    ground (arith, sound 0, sound 1),
    ground (arith, sound 0, sound 1),
    ground (arith, sound 0, sound 1),
    ground (arith, sound 0, sound 1),
    ground (arith, sound 0, sound 1),
    ground (arith, sound 0, sound 1),
  )
