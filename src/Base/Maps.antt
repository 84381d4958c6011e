-- ===== src/Base/Maps.antt =====
-- Go maps as functions, with the write of one key; `none` is a missing key.
use Prim.Native.Nat.{ℕ}
use mathlib.Core.Option.{Option, none, some}
use cabinet_kv_store.Base.Tests.{◌==◌, if◌then◌else◌}

abbrev pub update {ℓ} : {A : Type ℓ} → (ℕ → A) → ℕ → A → ℕ → A
update f i a j = if i == j then a else f j

abbrev pub Map {ℓ} : Type ℓ → Type ℓ
Map V = ℕ → Option V

abbrev pub no_entries {ℓ} : {V : Type ℓ} → Map V
no_entries _ = none

-- m[k] = v
abbrev pub insert {ℓ} : {V : Type ℓ} → Map V → ℕ → V → Map V
insert m k v = update m k (some v)

-- m[k], which is the zero value at a missing key
abbrev pub at_or {ℓ} : {V : Type ℓ} → Map V → ℕ → V → V
at_or m k d = elim (m k) [ none ↦ d | some v ↦ v ]
