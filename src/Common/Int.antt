-- ===== src/Common/Int.antt =====
-- Rust's signed integers, as the integers that they stand for; `negsuc n` is -(n + 1).
use Prim.Native.Nat.{ℕ, suc, ◌+◌, ◌-◌, ◌^◌}
use mathlib.Core.Option.{Option, none, some}
use fidelity.Common.Tests.{ltb, leb, if◌then◌else◌}

pub data ℤ : Type 0 where
  pos : ℕ → ℤ
  negsuc : ℕ → ℤ

-- `u64::checked_add_signed`
unfoldable pub checked_add_signed : ℕ → ℤ → Option ℕ
checked_add_signed a (pos n) = if ltb (a + n) (2 ^ 64) then some (a + n) else none
checked_add_signed a (negsuc n) = if leb (suc n) a then some (a - suc n) else none
