-- ===== src/Prelude/Dict.antt =====
-- dict.get on an association list with text keys.
use doktok_ng.Prelude.Tests.{if◌then◌else◌}
use doktok_ng.Prelude.Lists.{All}
use mathlib.Core.Path.{◌≡◌}
use mathlib.Core.Bool.{false}
use Prim.Native.String.{String}
use mathlib.Core.Option.{Option, none, some}
use mathlib.Core.List.{List, [], ◌∷◌}
use text.Mathlib.Text.{◌==◌ as str_eq}

abbrev pub dict_get {ℓ} : {V : Type ℓ} → List (String × V) → String → Option V
dict_get [] k = none
dict_get ((j, v) ∷ rest) k = let others = dict_get rest k in if str_eq j k then some v else others

-- A dict has each key once.
abbrev pub IsDict {ℓ} : {V : Type ℓ} → List (String × V) → Type 0
IsDict [] = Unit
IsDict ((k, v) ∷ rest) = All (λ e. str_eq e.0 k ≡ false) rest × IsDict rest

module _ {ℓ} {V : Type ℓ} where
  -- d[k] = v: in its place where the key is there, at the end where it is not
  abbrev pub dict_set : List (String × V) → String → V → List (String × V)
  dict_set [] k v = (k, v) ∷ []
  dict_set ((j, w) ∷ rest) k v =
      let others = dict_set rest k v in if str_eq j k then (j, v) ∷ rest else (j, w) ∷ others

  -- d.setdefault(k, v)
  abbrev pub dict_setdefault : List (String × V) → String → V → List (String × V)
  dict_setdefault [] k v = (k, v) ∷ []
  dict_setdefault ((j, w) ∷ rest) k v =
      let others = dict_setdefault rest k v in if str_eq j k then (j, w) ∷ rest else (j, w) ∷ others

  -- d.values()
  abbrev pub dict_values : List (String × V) → List V
  dict_values [] = []
  dict_values ((j, w) ∷ rest) = w ∷ dict_values rest

  -- del d[k]
  abbrev pub dict_delete : List (String × V) → String → List (String × V)
  dict_delete [] k = []
  dict_delete ((j, w) ∷ rest) k =
      let others = dict_delete rest k in if str_eq j k then rest else (j, w) ∷ others
