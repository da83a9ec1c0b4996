-- ===== src/Common/Update.antt =====
-- C arrays as functions of the index, and the write of one cell.
use mathlib.Core.Path.{◌≡◌}
use mathlib.Core.Bool.{false}
use classicladder.Common.Tests.{if◌then◌else◌}
use classicladder.Common.Int.{ℤ, ◌==ℤ◌, ==ℤ_refl}

-- The index is an `int`. An access outside the array has no meaning in C; here each index has a
-- cell of its own, so that an access out of range disturbs no cell in range.
unfoldable pub update {ℓ} : {A : Type ℓ} → (ℤ → A) → ℤ → A → ℤ → A
update f i v j = if i ==ℤ j then v else f j

pub update_self {ℓ} : {A : Type ℓ} (f : ℤ → A) (i : ℤ) (v : A) → update f i v i ≡ v
unfolding update
update_self f i v = rw (==ℤ_refl i)

pub update_ne {ℓ} :
    {A : Type ℓ} (f : ℤ → A) (i j : ℤ) (v : A) → (i ==ℤ j) ≡ false → update f i v j ≡ f j
unfolding update
update_ne f i j v h = rw h
