-- ===== src/Base/Heaps.antt =====
-- Shared objects. A Go pointer is a number, and 0 is `nil`; a heap gives the object behind each.
use Prim.Native.Nat.{ℕ}
use mathlib.Core.Path.{◌≡◌}
use native.Mathlib.Omega.{arith}
use kwmserver.Base.Tests.{nat_beq, if◌then◌else◌}

abbrev pub Ptr : Type 0
Ptr = ℕ

abbrev pub nil : Ptr
nil = 0

abbrev pub Heap {ℓ} : Type ℓ → Type ℓ
Heap A = Ptr → A

-- The heap after a write of `a` through `p`.
abbrev pub update {ℓ} : {A : Type ℓ} → Heap A → Ptr → A → Heap A
update h p a q = if nat_beq p q then a else h q

pub update_self {ℓ} : {A : Type ℓ} (h : Heap A) (p : Ptr) (a : A) → update h p a p ≡ a
update_self h p a = ground arith
