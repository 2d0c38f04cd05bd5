-- ===== src/Agent/Benchmark/Parse/Rows.antt =====
-- What `parseLlamaBenchJSON` of agent/compute_benchmark_llama_bench.go accepts.
use mathlib.Core.Path.{subst}
use mesh_alot.Prelude.{
  true, false, not, ◌≡◌, refl, sym, ap, ◌∙◌, Option, none, some, List, [], ◌∷◌, ◌++◌, length,
  is_empty, if◌then◌else◌, ==_iff, arith,
}
use mesh_alot.Prelude.Int.{eq_ℤ_lem}
use mesh_alot.Prelude.Text.{Text, text_eq_iff, trim_space}
use mesh_alot.Prelude.Float.{Float64}
use mesh_alot.Prelude.Outcome.{ok, guard, ok_inj, >>=-eq-ok, >>-eq-ok}
use mesh_alot.Agent.Benchmark.{
  BenchRow, LlamaBenchThroughput, BenchmarkError, empty_output, invalid_json, missing_prompt,
  missing_generation, is_prompt_row, is_generation_row, select_rows,
}
use mesh_alot.Agent.Benchmark.Parse.{found, check_rows, throughput_of, parse_llama_bench_json}

abbrev pub to_list {ℓ} : {A : Type ℓ} → Option A → List A
to_list none = []
to_list (some a) = a ∷ []

to_list-append {ℓ} : {A : Type ℓ} (o : Option A) → to_list o ++ [] ≡ to_list o
to_list-append none = refl
to_list-append (some a) = refl

found_lem {ℓ} :
    {A : Type ℓ} (o : Option A) (e : BenchmarkError) {a : A} → found o e ≡ ok a → o ≡ some a
found_lem none e h = cc
found_lem (some a) e h = ap some (ok_inj h)

to_list-singleton {ℓ} : {A : Type ℓ} (o : Option A) (a : A) → o ≡ some a → to_list o ≡ a ∷ []
to_list-singleton o a h = ap to_list h

module _ {ℓ} {F : Type ℓ} ⦃f : Float64 F⦄ where
  -- The rows of the prompt test, and those of the generation test.
  abbrev pub prompt_rows : List (BenchRow F) → List (BenchRow F)
  prompt_rows [] = []
  prompt_rows (r ∷ rs) = let rest = prompt_rows rs in if is_prompt_row r then r ∷ rest else rest

  abbrev pub generation_rows : List (BenchRow F) → List (BenchRow F)
  generation_rows [] = []
  generation_rows (r ∷ rs) =
      let rest = generation_rows rs in if is_generation_row r then r ∷ rest else rest

  kinds_apart : (r : BenchRow F) → is_prompt_row r ≡ true → is_generation_row r ≡ false
  kinds_apart r h = ground arith

  select_lem :
      (p g : Option (BenchRow F)) (rows : List (BenchRow F)) (p' g' : Option (BenchRow F))
      → select_rows p g rows ≡ ok (p', g')
      → (to_list p ++ prompt_rows rows ≡ to_list p')
        × (to_list g ++ generation_rows rows ≡ to_list g')
  unfolding select_rows
  select_lem p g [] p' g' h =
      subst
        (λ (z : Option (BenchRow F) × Option (BenchRow F)).
          (to_list p ++ [] ≡ to_list z.0) × (to_list g ++ [] ≡ to_list z.1))
        (ok_inj h) (to_list-append p, to_list-append g)
  select_lem none none (r ∷ rows) p' g' h = ground (
    arith,
    kinds_apart r,
    select_lem (some r) none rows p' g',
    select_lem none (some r) rows p' g',
    select_lem none none rows p' g',
  )
  select_lem none (some g) (r ∷ rows) p' g' h = ground (
    arith,
    kinds_apart r,
    select_lem (some r) (some g) rows p' g',
    select_lem none (some g) rows p' g',
  )
  select_lem (some p) none (r ∷ rows) p' g' h = ground (
    arith,
    kinds_apart r,
    select_lem (some p) (some r) rows p' g',
    select_lem (some p) none rows p' g',
  )
  select_lem (some p) (some g) (r ∷ rows) p' g' h =
      ground (arith, kinds_apart r, select_lem (some p) (some g) rows p' g')

  -- Two rows of one run: the same model, build and back end, and one rate each.
  pub record IsOneRun (p g : BenchRow F) : Type ℓ where
    pub model : p.model_filename ≡ g.model_filename
    pub model_type : p.model_type ≡ g.model_type
    pub commit : p.build_commit ≡ g.build_commit
    pub build : p.build_number ≡ g.build_number
    pub backend : p.backends ≡ g.backends
    pub prompt_count : length p.samples_ts ≡ 1
    pub generation_count : length g.samples_ts ≡ 1

  check_rows-IsOneRun : (p g : BenchRow F) → check_rows p g ≡ ok tt → IsOneRun p g
  unfolding check_rows
  check_rows-IsOneRun p g h = record {
    model = ground (arith, text_eq_iff p.model_filename g.model_filename);
    model_type = ground (arith, text_eq_iff p.model_type g.model_type);
    commit = ground (arith, text_eq_iff p.build_commit g.build_commit);
    build = eq_ℤ_lem p.build_number g.build_number (ground arith);
    backend = ground (arith, text_eq_iff p.backends g.backends);
    prompt_count = ground (arith, ==_iff (length p.samples_ts) 1);
    generation_count =
        ground (
          arith,
          ==_iff (length p.samples_ts) 1,
          ==_iff (length p.samples_ts) (length g.samples_ts),
        );
  }

  -- An output that is accepted has exactly one row of the prompt test and one of the generation
  -- test; they are of one model, build and back end and have one rate each, and the throughput is
  -- made of these two.
  pub parsed_rows :
      (decode : Text → Option (List (BenchRow F))) (raw : Text) (t : LlamaBenchThroughput F)
      → parse_llama_bench_json decode raw ≡ ok t
      → (rows : List (BenchRow F)) × (p : BenchRow F) × (g : BenchRow F) × (decode raw ≡ some rows)
        × (prompt_rows rows ≡ p ∷ [])
        × (generation_rows rows ≡ g ∷ [])
        × IsOneRun p g
        × (t ≡ throughput_of p g)
  unfolding parse_llama_bench_json
  parsed_rows decode raw t h =
      let (_, h0) = >>-eq-ok (guard (not (is_empty (trim_space raw))) empty_output) _ h in
      let (rows, a, h1) = >>=-eq-ok (found (decode raw) invalid_json) _ h0 in
      let (selected, b, h2) = >>=-eq-ok (select_rows none none rows) _ h1 in
      let (p, c, h3) = >>=-eq-ok (found selected.0 missing_prompt) _ h2 in
      let (g, d, h4) = >>=-eq-ok (found selected.1 missing_generation) _ h3 in
      let (e, k) = >>-eq-ok (check_rows p g) _ h4 in
      let (ps, gs) = select_lem none none rows selected.0 selected.1 b in
      (
        rows,
        p,
        g,
        found_lem _ _ a,
        ps ∙ to_list-singleton selected.0 p (found_lem _ _ c),
        gs ∙ to_list-singleton selected.1 g (found_lem _ _ d),
        check_rows-IsOneRun p g e,
        sym (ok_inj k),
      )
