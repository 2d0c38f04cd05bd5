-- ===== src/Prelude/Text/Trim.antt =====
-- `strings.TrimSpace` leaves a trimmed text as it is.
use mathlib.Core.Path.{◌≡◌, refl, sym, ap, ◌∙◌, subst}
use mathlib.Core.List.{[], ◌∷◌, ◌++◌, reverse, reverse-reverse, reverse-append, reverse-cons}
use Prim.Native.Nat.{ℕ, zero, suc, ◌≤◌}
use mathlib.Core.Bool.{false}
use native.Mathlib.Omega.{arith}
use mesh_alot.Prelude.Lists.{length, is_empty}
use mesh_alot.Prelude.Text.{
  Text, is_space1, is_space2, is_space3, leading, trailing, byte_at, drop_spaces, trim_space,
}

abbrev Width : Type 0
Width = ℕ → ℕ → ℕ → ℕ

-- No white space stands at the start of a text.
IsStuck : Width → Text → Type 0
IsStuck w t = w (byte_at t 0) (byte_at t 1) (byte_at t 2) ≡ 0

module _ (w : Width) (none_left : w 0 0 0 ≡ 0) where
  step-IsStuck :
      (x : ℕ) (xs : Text) (m : ℕ)
      → w x (byte_at xs 0) (byte_at xs 1) ≡ m
      → ((k : ℕ) → IsStuck w (drop_spaces w k xs))
      → IsStuck w (elim m [ zero ↦ x ∷ xs | suc k ↦ drop_spaces w k xs ])
  unfolding IsStuck byte_at
  step-IsStuck x xs zero e ih = e
  step-IsStuck x xs (suc k) e ih = ih k

  drop-IsStuck : (k : ℕ) (t : Text) → IsStuck w (drop_spaces w k t)
  unfolding drop_spaces IsStuck byte_at
  drop-IsStuck k [] = none_left
  drop-IsStuck (suc k) (x ∷ xs) = drop-IsStuck k xs
  drop-IsStuck zero (x ∷ xs) = step-IsStuck x xs _ refl (λ k. drop-IsStuck k xs)

drop-stuck : (w : Width) (t : Text) → IsStuck w t → drop_spaces w 0 t ≡ t
unfolding drop_spaces IsStuck byte_at
drop-stuck w [] h = refl
drop-stuck w (x ∷ xs) h =
    subst (λ m. elim m [ zero ↦ x ∷ xs | suc k ↦ drop_spaces w k xs ] ≡ x ∷ xs) (sym h) refl

abbrev IsSuffix : Text → Text → Type 0
IsSuffix d t = (p : Text) × (t ≡ p ++ d)

IsSuffix-cons : (x : ℕ) (d t : Text) → IsSuffix d t → IsSuffix d (x ∷ t)
IsSuffix-cons x d t (p, e) = (x ∷ p, ap (λ u. x ∷ u) e)

module _ (w : Width) where
  step-suffix :
      (x : ℕ) (xs : Text) (m : ℕ)
      → ((k : ℕ) → IsSuffix (drop_spaces w k xs) xs)
      → IsSuffix (elim m [ zero ↦ x ∷ xs | suc k ↦ drop_spaces w k xs ]) (x ∷ xs)
  step-suffix x xs zero ih = ([], refl)
  step-suffix x xs (suc k) ih = IsSuffix-cons x _ xs (ih k)

  -- What is dropped is a beginning.
  drop-suffix : (k : ℕ) (t : Text) → IsSuffix (drop_spaces w k t) t
  unfolding drop_spaces byte_at
  drop-suffix k [] = ([], refl)
  drop-suffix (suc k) (x ∷ xs) = IsSuffix-cons x _ xs (drop-suffix k xs)
  drop-suffix zero (x ∷ xs) = step-suffix x xs _ (λ k. drop-suffix k xs)

prefix-IsStuck : (a b : Text) → IsStuck leading (a ++ b) → IsStuck leading a
unfolding IsStuck leading is_space1 is_space2 is_space3 byte_at
prefix-IsStuck [] b h = refl
prefix-IsStuck (x ∷ []) b h = ground arith
prefix-IsStuck (x ∷ (y ∷ [])) b h = ground arith
prefix-IsStuck (x ∷ (y ∷ (z ∷ a))) b h = h

pub trim_space-trim_space : (s : Text) → trim_space (trim_space s) ≡ trim_space s
unfolding trim_space
trim_space-trim_space s =
    let t = drop_spaces leading 0 s in
    let d = drop_spaces trailing 0 (reverse t) in
    let (p, e) = drop-suffix trailing 0 (reverse t) in
    let whole : t ≡ reverse d ++ reverse p =
      sym (reverse-reverse t) ∙ (ap reverse e ∙ reverse-append p d) in
    let start = drop-IsStuck leading refl 0 s in
    let begins = prefix-IsStuck (reverse d) (reverse p) (subst (IsStuck leading) whole start) in
    let ends = drop-IsStuck trailing refl 0 (reverse t) in
    rw (drop-stuck leading (reverse d) begins, reverse-reverse d, drop-stuck trailing d ends) refl

not_empty-reverse : (t : Text) → is_empty t ≡ false → is_empty (reverse t) ≡ false
not_empty-reverse [] h = h
not_empty-reverse (x ∷ t) h = rw (reverse-cons x t) (not_empty-append (reverse t) x)
  where
    not_empty-append : (s : Text) (y : ℕ) → is_empty (s ++ (y ∷ [])) ≡ false
    not_empty-append [] y = refl
    not_empty-append (z ∷ s) y = refl

-- A printable ASCII character.
abbrev pub IsVisible : ℕ → Type 0
IsVisible x = (33 ≤ x) × (x ≤ 126)

module _ (x : ℕ) (visible : IsVisible x) where
  width-le :
      (y : ℕ) (ys : Text)
      → let t = ys ++ (x ∷ []) in trailing y (byte_at t 0) (byte_at t 1) ≤ suc (length ys)
  unfolding trailing is_space1 is_space2 is_space3 byte_at
  width-le y [] = ground arith
  width-le y (z ∷ []) = ground arith
  width-le y (z ∷ (u ∷ ys)) = ground arith

  step-keeps :
      (y : ℕ) (ys : Text) (m : ℕ)
      → m ≤ suc (length ys)
      → ((k : ℕ) → k ≤ length ys → is_empty (drop_spaces trailing k (ys ++ (x ∷ []))) ≡ false)
      → is_empty
          (elim m [ zero ↦ y ∷ (ys ++ (x ∷ [])) | suc k ↦ drop_spaces trailing k (ys ++ (x ∷ [])) ])
        ≡ false
  step-keeps y ys zero h ih = refl
  step-keeps y ys (suc k) h ih = ih k (omega arith)

  at_end : trailing x 0 0 ≡ 0
  unfolding trailing is_space1 is_space2 is_space3
  at_end = ground arith

  drop-keeps :
      (k : ℕ) (xs : Text)
      → k ≤ length xs
      → is_empty (drop_spaces trailing k (xs ++ (x ∷ []))) ≡ false
  unfolding drop_spaces byte_at
  drop-keeps zero [] h =
      subst (λ m. is_empty (elim m [ zero ↦ x ∷ [] | suc k ↦ [] ]) ≡ false) (sym at_end) refl
  drop-keeps (suc k) [] h = absurd (omega arith)
  drop-keeps (suc k) (y ∷ ys) h = drop-keeps k ys (omega arith)
  drop-keeps zero (y ∷ ys) h = step-keeps y ys _ (width-le y ys) (λ k. drop-keeps k ys)

  at_start : (t : Text) → IsStuck leading (x ∷ t)
  unfolding IsStuck leading is_space1 is_space2 is_space3 byte_at
  at_start t = ground arith

  -- A text that starts with a printable character is not blank.
  pub visible-not_blank : (t : Text) → is_empty (trim_space (x ∷ t)) ≡ false
  unfolding trim_space
  visible-not_blank t =
      rw (drop-stuck leading (x ∷ t) (at_start t), reverse-cons x t)
        (not_empty-reverse _ (drop-keeps 0 (reverse t) (omega arith)))

  ends_visible : (u : Text) → IsStuck trailing (x ∷ u)
  unfolding IsStuck trailing is_space1 is_space2 is_space3 byte_at
  ends_visible u = ground arith

  -- A text between two printable characters has no white space around it.
  pub enclosed-trim_space : (t : Text) → trim_space (x ∷ (t ++ (x ∷ []))) ≡ x ∷ (t ++ (x ∷ []))
  unfolding trim_space
  enclosed-trim_space t =
      let s = x ∷ (t ++ (x ∷ [])) in
      let back : reverse s ≡ x ∷ reverse (x ∷ t) = reverse-append (x ∷ t) (x ∷ []) in
      rw (drop-stuck leading s (at_start (t ++ (x ∷ [])))) (
        rw
          (drop-stuck trailing (reverse s)
            (subst (IsStuck trailing) (sym back) (ends_visible (reverse (x ∷ t)))))
          (reverse-reverse s))
