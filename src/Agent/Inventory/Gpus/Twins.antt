-- ===== src/Agent/Inventory/Gpus/Twins.antt =====
-- Cards of one model in agent/inventory_linux.go.
use mesh_alot.Prelude.{
  ◌≡◌, refl, sym, ap, Bool, true, false, ◌&&◌, List, [], ◌∷◌, ◌++◌, All, arith, is_empty,
}
use mathlib.Core.Path.{subst}
use mesh_alot.Prelude.Text.{codes}
use mesh_alot.Prelude.Text.Split.{contains_refl}
use mesh_alot.Agent.Inventory.{Matching}
use mesh_alot.Agent.Inventory.Gpus.{GpuInventory, same_model, normalize_gpu_model}
use mesh_alot.Agent.Inventory.Gpus.Programs.{NvidiaLine}
use mesh_alot.Agent.Inventory.Gpus.Merge.{as_discrete, merge_nvidia}

-- Whether a card is of the model that a line of `nvidia-smi` names.
abbrev pub is_named : Matching → NvidiaLine → GpuInventory → Bool
is_named m n gpu =
    m.equal_fold gpu.vendor (codes "NVIDIA")
    && same_model (normalize_gpu_model m gpu.model) (normalize_gpu_model m n.model)

module _ (m : Matching) where
  merge_first :
      (n : NvidiaLine) (before : List GpuInventory) (gpu : GpuInventory) (after : List GpuInventory)
      → All (λ g. is_named m n g ≡ false) before
      → is_named m n gpu ≡ true
      → merge_nvidia m n (before ++ (gpu ∷ after)) ≡ before ++ (as_discrete n gpu ∷ after)
  unfolding merge_nvidia
  merge_first n [] gpu after others here = rw here refl
  merge_first n (g ∷ before) gpu after others here =
      rw others.0 (ap (λ l. g ∷ l) (merge_first n before gpu after others.1 here))

  same_itself :
      (n : NvidiaLine)
      → is_empty (normalize_gpu_model m n.model) ≡ false
      → same_model (normalize_gpu_model m n.model) (normalize_gpu_model m n.model) ≡ true
  unfolding same_model
  same_itself n named = ground (arith, named, contains_refl (normalize_gpu_model m n.model))

  -- Two lines of `nvidia-smi` for one model, which is more than the words left out of models, go to
  -- one card, if a card of that model is there and `NVIDIA` folds to itself: the first card of that model takes the first line and then the second, and every
  -- other card, also one of the same model behind it, stays as it was.
  pub merge_nvidia_twins :
      (one two : NvidiaLine) (before : List GpuInventory) (gpu : GpuInventory)
      (after : List GpuInventory)
      → m.equal_fold (codes "NVIDIA") (codes "NVIDIA") ≡ true
      → is_empty (normalize_gpu_model m one.model) ≡ false
      → two.model ≡ one.model
      → All (λ g. is_named m one g ≡ false) before
      → is_named m one gpu ≡ true
      → merge_nvidia m two (merge_nvidia m one (before ++ (gpu ∷ after)))
        ≡ before ++ (as_discrete two (as_discrete one gpu) ∷ after)
  merge_nvidia_twins one two before gpu after folds named same others here =
      let others' : All (λ g. is_named m two g ≡ false) before =
        subst
          (λ t.
            All
              (λ g.
                (m.equal_fold g.vendor (codes "NVIDIA")
                  && same_model (normalize_gpu_model m g.model) (normalize_gpu_model m t))
                ≡ false)
              before)
          (sym same) others in
      let again : is_named m two (as_discrete one gpu) ≡ true =
        rw same (rw folds (same_itself one named)) in
      rw (merge_first one before gpu after others here)
        (merge_first two before (as_discrete one gpu) after others' again)
