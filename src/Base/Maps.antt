-- ===== src/Base/Maps.antt =====
-- `Map<string, V>` where the source never reads its order: a function from keys.
use mathlib.Core.Option.{Option, none, some}
use yeah.Base.Tests.{if◌then◌else◌}
use yeah.Base.Strings.{Text, equal}

abbrev pub Dict {ℓ} : Type ℓ → Type ℓ
Dict V = Text → Option V

module _ {ℓ} {V : Type ℓ} where
  abbrev pub empty : Dict V
  empty k = none

  -- `map.set(k, v)`
  abbrev pub insert : Text → V → Dict V → Dict V
  insert k v m j = if equal k j then some v else m j

  -- `map.delete(k)`
  abbrev pub remove : Text → Dict V → Dict V
  remove k m j = if equal k j then none else m j
