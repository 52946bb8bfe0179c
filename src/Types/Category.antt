-- ===== src/Types/Category.antt =====
-- The security questions, and their stable positions (crates/fidelity-types/src/category.rs).
use Prim.Native.Nat.{ℕ}
use fidelity.Common.{Bool, List, [], ◌∷◌, ◌==◌}

pub data Category : Type 0 where
  integrity debugging instrumentation device_compromise virtualization ui_abuse : Category

-- `Category::ALL`.
abbrev pub all_categories : List Category
all_categories =
    integrity ∷ debugging ∷ instrumentation ∷ device_compromise ∷ virtualization ∷ ui_abuse ∷ []

abbrev pub index : Category → ℕ
index integrity = 0
index debugging = 1
index instrumentation = 2
index device_compromise = 3
index virtualization = 4
index ui_abuse = 5

-- The derived `PartialEq`: the discriminants are the positions.
abbrev pub same_category : Category → Category → Bool
same_category c d = index c == index d
