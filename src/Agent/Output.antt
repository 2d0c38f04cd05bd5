-- ===== src/Agent/Output.antt =====
-- What the agent keeps of a program's output: `limitedBuffer` of agent/inventory_linux.go and
-- `networkBenchmarkLimitedBuffer` of agent/network_benchmark_linux.go, which are the same.
use mesh_alot.Prelude.{
  ℕ, zero, suc, ◌-◌, ◌≤◌, ◌≡◌, refl, sym, List, [], ◌∷◌, ◌++◌, arith, length, ltb, ◌==◌,
  if◌then◌else◌, is_empty, Bool-cases, inl, inr, ap,
}
use mathlib.Core.List.{append-nil, append_assoc}
use mesh_alot.Prelude.Text.{Text}

abbrev pub take : ℕ → Text → Text
take zero xs = []
take (suc n) [] = []
take (suc n) (x ∷ xs) = x ∷ take n xs

pub record LimitedBuffer : Type 0 where
  pub w : Text
  pub n : ℕ

abbrev pub keep : LimitedBuffer → Text → LimitedBuffer
keep b p = record { w = b.w ++ p; n = b.n - length p }

-- `Write`, which says that it wrote everything, whatever it kept; a limit is never negative.
unfoldable pub write : LimitedBuffer → Text → ℕ × LimitedBuffer
write b p =
    if b.n == 0
    then (length p, b)
    else if ltb b.n (length p)
    then (length p, keep b (take b.n p))
    else (length p, keep b p)

unfoldable pub write_all : LimitedBuffer → List Text → LimitedBuffer
write_all b [] = b
write_all b (p ∷ ps) = write_all (write b p).1 ps

-- The output of a program: what it wrote to the first stream, or else to the second.
unfoldable pub program_output : ℕ → List Text → List Text → Text
program_output limit stdout stderr =
    let out = write_all (record { w = []; n = limit }) stdout in
    let errors = write_all (record { w = []; n = limit }) stderr in
    if is_empty out.w then errors.w else out.w

unfoldable pub concat : List Text → Text
concat [] = []
concat (x ∷ xs) = x ++ concat xs

length-take : (n : ℕ) (p : Text) → n ≤ length p → length (take n p) ≡ n
length-take zero p h = refl
length-take (suc n) [] h = omega arith
length-take (suc n) (x ∷ xs) h = omega (arith, length-take n xs)

take-all : (n : ℕ) (p : Text) → length p ≤ n → take n p ≡ p
take-all zero [] h = refl
take-all zero (x ∷ xs) h = absurd (omega (arith, h))
take-all (suc n) [] h = refl
take-all (suc n) (x ∷ xs) h = ground (arith, take-all n xs)

take-append : (n : ℕ) (p q : Text) → take n (p ++ q) ≡ take n p ++ take (n - length p) q
take-append zero p q = let e : 0 - length p ≡ 0 = omega arith in rw e refl
take-append (suc n) [] q = let e : suc n - 0 ≡ suc n = omega arith in rw e refl
take-append (suc n) (x ∷ xs) q =
    let e : suc n - suc (length xs) ≡ n - length xs = omega arith in
    rw e (ap (λ r. x ∷ r) (take-append n xs q))

take-nil : (n : ℕ) → take n [] ≡ []
take-nil zero = refl
take-nil (suc n) = refl

write_lem :
    (b : LimitedBuffer) (p : Text)
    → (write b p).1 ≡ record { w = b.w ++ take b.n p; n = b.n - length p }
unfolding write
write_lem b p = elim (Bool-cases (b.n == 0)) [
  | inl full ↦
      let none_left : b.n ≡ 0 = ground (arith, full) in
      ground (arith, full, none_left, append-nil b.w, ap (λ k. take k p) none_left)
  | inr room ↦ elim (Bool-cases (ltb b.n (length p))) [
    | inl long ↦ ground (arith, room, long, length-take b.n p)
    | inr short ↦ ground (arith, room, short, take-all b.n p)
  ]
]

write_all-w :
    (b : LimitedBuffer) (ps : List Text) → (write_all b ps).w ≡ b.w ++ take b.n (concat ps)
unfolding write_all concat
write_all-w b [] = let e : take b.n [] ≡ [] = take-nil b.n in rw e (sym (append-nil b.w))
write_all-w b (p ∷ ps) =
    let first = write_lem b p in
    let rest = write_all-w (write b p).1 ps in
    let cut = take-append b.n p (concat ps) in
    let moved = append_assoc b.w (take b.n p) (take (b.n - length p) (concat ps)) in
    ground (arith, first, rest, cut, moved)

length-take-le : (n : ℕ) (p : Text) → length (take n p) ≤ n
length-take-le zero p = omega arith
length-take-le (suc n) [] = omega arith
length-take-le (suc n) (x ∷ xs) = omega (arith, length-take-le n xs)

-- However a program's output is cut into writes, what is kept of a stream is its beginning, up to
-- the limit; the result is what is kept of the first stream or, if that is nothing, of the second,
-- and so is never longer than the limit.
pub program_output_lem :
    (limit : ℕ) (stdout stderr : List Text)
    → (program_output limit stdout stderr ≡ (
        if is_empty (take limit (concat stdout))
        then take limit (concat stderr)
        else take limit (concat stdout)))
      × (length (program_output limit stdout stderr) ≤ limit)
unfolding program_output
program_output_lem limit stdout stderr =
    let start : LimitedBuffer = record { w = []; n = limit } in
    let out = write_all-w start stdout in
    let errors = write_all-w start stderr in
    (
      ground (arith, out, errors),
      ground (
        arith,
        out,
        errors,
        length-take-le limit (concat stdout),
        length-take-le limit (concat stderr),
      ),
    )
