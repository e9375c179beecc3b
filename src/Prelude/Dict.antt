-- ===== src/Prelude/Dict.antt =====
-- A Python dictionary as an association list in insertion order, over keys with an equality test.
use mathlib.Core.Path.{◌≡◌, refl}
use mathlib.Core.Bool.{Bool, false, ◌||◌}
use mathlib.Core.List.{List, [], ◌∷◌, ◌++◌}
use mathlib.Core.Option.{Option, none, some}
use mathlib.Core.Logic.{◌⊎◌, inl, inr}
use native.Mathlib.Omega.{arith}
use niceone_obsidian.Prelude.Tests.{if◌then◌else◌, is_some, Bool-cases}
use niceone_obsidian.Prelude.Lists.{All}
use niceone_obsidian.Prelude.Keys.{KeyTest}

abbrev pub Dict {ℓ κ} : Type ℓ → Type κ → Type (ℓ ⊔ κ)
Dict K V = List (K × V)

module _ {ℓ κ} {K : Type ℓ} ⦃e : KeyTest K⦄ {V : Type κ} where
  -- `d.get(k)`
  unfoldable pub get : Dict K V → K → Option V
  get [] k = none
  get ((j, v) ∷ d) k = if e.same_key j k then some v else get d k

  -- `k in d`
  unfoldable pub contains : Dict K V → K → Bool
  unfolding get
  contains d k = is_some (get d k)

  -- `d[k] = v`: a key that is there keeps its place
  unfoldable pub set : Dict K V → K → V → Dict K V
  set [] k v = (k, v) ∷ []
  set ((j, w) ∷ d) k v = if e.same_key j k then (j, v) ∷ d else (j, w) ∷ set d k v

  -- `d.pop(k, None)`
  unfoldable pub delete : Dict K V → K → Dict K V
  delete [] k = []
  delete ((j, w) ∷ d) k = if e.same_key j k then delete d k else (j, w) ∷ delete d k

  -- `d.setdefault(k, v)`
  unfoldable pub set_default : Dict K V → K → V → Dict K V
  unfolding contains
  set_default d k v = if contains d k then d else set d k v

  pub get-set :
      (d : Dict K V) (k j : K) (v : V)
      → get (set d k v) j ≡ (if e.same_key k j then some v else get d j)
  unfolding get set
  get-set [] k j v = refl
  get-set ((i, w) ∷ d) k j v =
      ground (arith, e.same_key_iff k j, e.same_key_iff i k, e.same_key_iff i j, get-set d k j v)

  pub get-delete :
      (d : Dict K V) (k j : K) → get (delete d k) j ≡ (if e.same_key k j then none else get d j)
  unfolding get delete
  get-delete [] k j = ground arith
  get-delete ((i, w) ∷ d) k j =
      ground (arith, e.same_key_iff k j, e.same_key_iff i k, e.same_key_iff i j, get-delete d k j)

  pub get-set_self : (d : Dict K V) (k : K) (v : V) → get (set d k v) k ≡ some v
  get-set_self d k v = ground (arith, get-set d k k v, e.same_key_iff k k)

  pub get-set_default :
      (d : Dict K V) (k : K) (v : V) (j : K) (w : V)
      → get d j ≡ some w
      → get (set_default d k v) j ≡ some w
  unfolding set_default
  get-set_default d k v j w h = ground (arith, get-set d k j v, e.same_key_iff k j)

  -- An entry after `setdefault` was there, or is the one just given.
  pub get-set_default_new :
      (d : Dict K V) (k : K) (v : V) (j : K) (w : V)
      → get (set_default d k v) j ≡ some w
      → (get d j ≡ some w) ⊎ (v ≡ w)
  unfolding set_default
  get-set_default_new d k v j w h = ground (arith, get-set d k j v, e.same_key_iff k j)

  pub get-set_default_none :
      (d : Dict K V) (k : K) (v : V) → get d k ≡ none → get (set_default d k v) k ≡ some v
  unfolding set_default
  get-set_default_none d k v h = ground (arith, get-set_self d k v)

  -- The keys of a dictionary are distinct.
  abbrev pub IsDict : Dict K V → Type 0
  IsDict [] = Unit
  IsDict ((k, v) ∷ d) = (contains d k ≡ false) × IsDict d

  abbrev Found : Dict K V → K × V → Type κ
  Found d (k, v) = get d k ≡ some v

  Found-cons :
      (d sub : Dict K V) (k : K) (v : V)
      → contains d k ≡ false
      → All (Found d) sub
      → All (Found ((k, v) ∷ d)) sub
  unfolding get contains
  Found-cons d [] k v h a = tt
  Found-cons d ((j, w) ∷ sub) k v h (f, a) =
      (ground (arith, e.same_key_iff k j, f, h), Found-cons d sub k v h a)

  -- Each entry is what `get` finds under its key.
  pub get-All : (d : Dict K V) → IsDict d → All (Found d) d
  unfolding get
  get-All [] h = tt
  get-All ((k, v) ∷ d) (n, h) =
      (ground (arith, e.same_key_iff k k), Found-cons d d k v n (get-All d h))

  -- An assignment to a new key adds an entry at the end.
  pub set_new : (d : Dict K V) (k : K) (v : V) → contains d k ≡ false → set d k v ≡ d ++ (k, v) ∷ []
  unfolding set contains get
  set_new [] k v h = refl
  set_new ((j, w) ∷ d) k v h = ground (arith, set_new d k v)

  pub contains-append :
      (d c : Dict K V) (k : K) → contains (d ++ c) k ≡ contains d k || contains c k
  unfolding contains get
  contains-append [] c k = refl
  contains-append ((j, w) ∷ d) c k = ground (arith, contains-append d c k)

  pub contains-set :
      (d : Dict K V) (k j : K) (v : V) → contains (set d k v) j ≡ e.same_key k j || contains d j
  unfolding contains
  contains-set d k j v = ground (arith, get-set d k j v)

  pub IsDict-set : (d : Dict K V) (k : K) (v : V) → IsDict d → IsDict (set d k v)
  unfolding set contains get
  IsDict-set [] k v h = (refl, tt)
  IsDict-set ((j, w) ∷ d) k v (n, h) = elim (Bool-cases (e.same_key j k)) [
    | inl y ↦ rw y (n, h)
    | inr o ↦ rw o (
      ground (arith, contains-set d k j v, e.same_key_iff j k, e.same_key_iff k j),
      IsDict-set d k v h,
    )
  ]
