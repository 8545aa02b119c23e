-- ===== src/Prelude/Dict.antt =====
-- A plain object or a `Map` with text keys: an association list in insertion order. A write to a
-- key that is there keeps its place. That a plain object lists keys that are whole numbers first,
-- in ascending order, is left out.
use Prim.Native.String.{String}
use mathlib.Core.Path.{◌≡◌, refl, ◌∙◌}
use mathlib.Core.Logic.{◌⊎◌, inl, inr}
use mathlib.Core.Bool.{Bool, false}
use mathlib.Core.Option.{Option, none, some}
use mathlib.Core.List.{List, [], ◌∷◌, map}
use native.Mathlib.Omega.{arith}
use text.Mathlib.Text.{◌==◌}
use text.Mathlib.TextEquality.{eq_iff}
use gemini_agent_lib.Prelude.Tests.{Bool-cases, if◌then◌else◌, is_some}

abbrev pub Dict {ℓ} : Type ℓ → Type ℓ
Dict V = List (String × V)

module _ {ℓ} {V : Type ℓ} where
  -- `d[k]`, `d.get(k)`
  unfoldable pub get : Dict V → String → Option V
  get [] k = none
  get ((j, v) ∷ d) k = let rest = get d k in if j == k then some v else rest

  -- `d[k] = v`, `d.set(k, v)`
  unfoldable pub put : Dict V → String → V → Dict V
  put [] k v = (k, v) ∷ []
  put ((j, w) ∷ d) k v = let rest = put d k v in if j == k then (j, v) ∷ d else (j, w) ∷ rest

  -- `delete d[k]`, `d.delete(k)`
  unfoldable pub remove : Dict V → String → Dict V
  remove [] k = []
  remove ((j, v) ∷ d) k = let rest = remove d k in if j == k then rest else (j, v) ∷ rest

  -- `d.has(k)`
  abbrev pub has : Dict V → String → Bool
  has d k = is_some (get d k)

  -- `Object.keys(d)`
  abbrev pub keys : Dict V → List String
  keys d = map (λ e. e.0) d

  -- `{ ...d, ...e }`
  unfoldable pub spread : Dict V → Dict V → Dict V
  unfolding put
  spread d [] = d
  spread d ((k, v) ∷ e) = spread (put d k v) e

  pub get-put :
      (o : Dict V) (k j : String) (v : V) → get (put o k v) j ≡ (if k == j then some v else get o j)
  unfolding get put
  get-put [] k j v = refl
  get-put ((i, w) ∷ o) k j v = ground (arith, get-put o k j v, eq_iff k j, eq_iff i k, eq_iff i j)

  pub get-remove :
      (o : Dict V) (k j : String) → get (remove o k) j ≡ (if k == j then none else get o j)
  unfolding get remove
  get-remove [] k j = ground arith
  get-remove ((i, w) ∷ o) k j = ground (arith, get-remove o k j, eq_iff k j, eq_iff i k, eq_iff i j)

  pub get-put_self : (d : Dict V) (k : String) (v : V) → get (put d k v) k ≡ some v
  get-put_self d k v = ground (arith, get-put d k k v, eq_iff k k)

  pub get-put_other :
      (d : Dict V) (k j : String) (v : V) → (k == j) ≡ false → get (put d k v) j ≡ get d j
  get-put_other d k j v h = ground (arith, get-put d k j v)

  pub get-remove_self : (d : Dict V) (k : String) → get (remove d k) k ≡ none
  get-remove_self d k = ground (arith, get-remove d k k, eq_iff k k)

  pub get-remove_other :
      (d : Dict V) (k j : String) → (k == j) ≡ false → get (remove d k) j ≡ get d j
  get-remove_other d k j h = ground (arith, get-remove d k j)

  -- Where a value comes from that is found after a write or a removal.
  pub put-eq-some :
      (d : Dict V) (k j : String) (v w : V)
      → get (put d k v) j ≡ some w
      → ((k ≡ j) × (v ≡ w)) ⊎ (((k == j) ≡ false) × (get d j ≡ some w))
  put-eq-some d k j v w h = elim (Bool-cases (k == j)) [
    | inl same ↦ inl ((eq_iff k j).0 same, ground (arith, get-put d k j v))
    | inr other ↦ inr (other, ground (arith, get-put d k j v))
  ]

  pub remove-eq-some :
      (d : Dict V) (k j : String) (w : V)
      → get (remove d k) j ≡ some w
      → ((k == j) ≡ false) × (get d j ≡ some w)
  remove-eq-some d k j w h = ground (arith, get-remove d k j)

  -- An object has each key once.
  abbrev pub IsObject : Dict V → Type 0
  IsObject [] = Unit
  IsObject ((k, v) ∷ d) = (has d k ≡ false) × IsObject d

  -- the value of the first of two that has one
  abbrev pub first_of_two : Option V → Option V → Option V
  first_of_two none o = o
  first_of_two (some v) o = some v

  pub get-spread :
      (d e : Dict V) (j : String)
      → IsObject e
      → get (spread d e) j ≡ first_of_two (get e j) (get d j)
  unfolding spread
  get-spread d [] j h = unfold get in refl
  get-spread d ((k, v) ∷ e) j (h, hs) =
      get-spread (put d k v) e j hs ∙ rw get-put (unfold get in ground (arith, eq_iff k j))

pub ruleset dict_laws = (get-put, get-remove)
