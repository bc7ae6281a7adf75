-- ===== src/Common/Assoc.antt =====
-- Association lists with a Boolean test of keys: the dictionaries and hashes of the program.
use mathlib.Core.List.{List, [], ◌∷◌}
use mathlib.Core.Option.{Option, none, some}
use Prim.Native.String.{String}
use text.Mathlib.Text.{◌==◌ as str_eq}
use ai_calling_agent.Common.Tests.{if◌then◌else◌}

module _ {ℓ} {V : Type ℓ} where
  -- `d.get(key)`
  abbrev pub lookup : String → List (String × V) → Option V
  lookup wanted [] = none
  lookup wanted ((key, value) ∷ d) = if str_eq key wanted then some value else lookup wanted d

  -- `d[key] = value`, which keeps the place of a key that is there.
  abbrev pub insert : String → V → List (String × V) → List (String × V)
  insert new value [] = (new, value) ∷ []
  insert new value ((key, old) ∷ d) =
      if str_eq key new then (new, value) ∷ d else (key, old) ∷ insert new value d

  -- `{**old, **new}`: the entries of `new` win.
  abbrev pub merge : List (String × V) → List (String × V) → List (String × V)
  merge old [] = old
  merge old ((k, v) ∷ new) = merge (insert k v old) new
