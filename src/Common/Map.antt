-- ===== src/Common/Map.antt =====
-- `HashMap` as a list of entries in the order in which the map iterates. A key that is new goes to
-- the end, and a key that is there keeps its place; the theorems hold for every list of entries.
pub mod Values
use mathlib.Core.Path.{◌≡◌, refl}
use mathlib.Core.Logic.{◌↔◌, inl, inr}
use mathlib.Core.Bool.{Bool, true, false}
use mathlib.Core.List.{List, [], ◌∷◌, map}
use mathlib.Core.Option
use mathlib.Core.Option.{Option, none, some}
use native.Mathlib.Omega.{arith}
use stratum_v2_tools.Common.Tests.{Eq, ◌==◌, if◌then◌else◌, Bool-cases, ==_iff, ==_refl}

abbrev pub Map {ℓ κ} : Type ℓ → Type κ → Type (ℓ ⊔ κ)
Map K V = List (K × V)

module _ {ℓ κ} {K : Type ℓ} {V : Type κ} where
  abbrev pub keys : Map K V → List K
  keys m = map (λ e. e.0) m

  abbrev pub values : Map K V → List V
  values m = map (λ e. e.1) m

  -- Keep the entries that pass the test.
  unfoldable pub retain : (K → V → Bool) → Map K V → Map K V
  retain p [] = []
  retain p ((j, w) ∷ m) = if p j w then (j, w) ∷ retain p m else retain p m

  -- The first entry whose value passes the test.
  unfoldable pub find_entry : (V → Bool) → Map K V → Option (K × V)
  find_entry p [] = none
  find_entry p ((j, w) ∷ m) = if p w then some (j, w) else find_entry p m

module _ {ℓ κ} {K : Type ℓ} {V : Type κ} ⦃key : Eq K⦄ where
  unfoldable pub get : K → Map K V → Option V
  get k [] = none
  get k ((j, w) ∷ m) = if j == k then some w else get k m

  unfoldable pub contains_key : K → Map K V → Bool
  contains_key k [] = false
  contains_key k ((j, w) ∷ m) = if j == k then true else contains_key k m

  unfoldable pub insert : K → V → Map K V → Map K V
  insert k v [] = (k, v) ∷ []
  insert k v ((j, w) ∷ m) = if j == k then (k, v) ∷ m else (j, w) ∷ insert k v m

  unfoldable pub remove : K → Map K V → Map K V
  remove k [] = []
  remove k ((j, w) ∷ m) = if j == k then remove k m else (j, w) ∷ remove k m

  -- A change through `get_mut`: the entry of the key is rewritten, if there is one.
  unfoldable pub modify : K → (V → V) → Map K V → Map K V
  modify k f [] = []
  modify k f ((j, w) ∷ m) = if j == k then (j, f w) ∷ m else (j, w) ∷ modify k f m

  -- No key stands in two entries.
  abbrev pub IsMap : Map K V → Type κ
  IsMap [] = Unit
  IsMap ((j, w) ∷ m) = (get j m ≡ none) × IsMap m

  pub get-insert :
      (k j : K) (v : V) (m : Map K V) → get j (insert k v m) ≡ (if k == j then some v else get j m)
  unfolding get insert
  get-insert k j v [] = refl
  get-insert k j v ((i, w) ∷ m) =
      ground (arith, ==_iff k j, ==_iff i k, ==_iff i j, get-insert k j v m)

  pub get-remove : (k j : K) (m : Map K V) → get j (remove k m) ≡ (if k == j then none else get j m)
  unfolding get remove
  get-remove k j [] = ground arith
  get-remove k j ((i, w) ∷ m) = ground (arith, ==_iff k j, ==_iff i k, ==_iff i j, get-remove k j m)

  pub get-modify :
      (k j : K) (f : V → V) (m : Map K V)
      → get j (modify k f m) ≡ (if k == j then Option.map f (get j m) else get j m)
  unfolding get modify
  get-modify k j f [] = ground arith
  get-modify k j f ((i, w) ∷ m) =
      ground (arith, ==_iff k j, ==_iff i k, ==_iff i j, get-modify k j f m)

  pub contains_key-get : (k : K) (m : Map K V) → (contains_key k m ≡ false) ↔ (get k m ≡ none)
  unfolding get contains_key
  contains_key-get k [] = ground arith
  contains_key-get k ((i, w) ∷ m) = ground (arith, contains_key-get k m)

  pub retain_missing :
      (p : K → V → Bool) (k : K) (m : Map K V) → get k m ≡ none → get k (retain p m) ≡ none
  unfolding get retain
  retain_missing p k [] e = refl
  retain_missing p k ((i, w) ∷ m) e = ground (arith, retain_missing p k m)

  -- What `retain` keeps passes the test, and was there before.
  abbrev pub keep : (K → V → Bool) → K → Option V → Option V
  keep p k none = none
  keep p k (some v) = if p k v then some v else none

  pub get-retain :
      (p : K → V → Bool) (k : K) (m : Map K V) → IsMap m → get k (retain p m) ≡ keep p k (get k m)
  unfolding get retain
  get-retain p k [] h = refl
  get-retain p k ((i, w) ∷ m) (fresh, h) = elim (Bool-cases (i == k)) [
    | inl hit ↦
        rw hit (
          let e = (==_iff i k).0 hit in ground (arith, get-retain p k m h, retain_missing p k m, e))
    | inr miss ↦ ground (arith, get-retain p k m h)
  ]

module _ {ℓ κ} {K : Type ℓ} {V : Type κ} ⦃key : Eq K⦄ where
  pub insert-IsMap : (k : K) (v : V) (m : Map K V) → IsMap m → IsMap (insert k v m)
  unfolding insert get
  insert-IsMap k v [] h = ground arith
  insert-IsMap k v ((i, w) ∷ m) (fresh, h) =
      ground (arith, ==_iff i k, ==_iff k i, get-insert k i v m, insert-IsMap k v m h)

  pub remove-IsMap : (k : K) (m : Map K V) → IsMap m → IsMap (remove k m)
  unfolding remove
  remove-IsMap k [] h = tt
  remove-IsMap k ((i, w) ∷ m) (fresh, h) = ground (arith, get-remove k i m, remove-IsMap k m h)

  pub modify-IsMap : (k : K) (f : V → V) (m : Map K V) → IsMap m → IsMap (modify k f m)
  unfolding modify get
  modify-IsMap k f [] h = tt
  modify-IsMap k f ((i, w) ∷ m) (fresh, h) =
      ground (arith, get-modify k i f m, ==_iff k i, ==_iff i k, modify-IsMap k f m h)

  pub retain-IsMap : (p : K → V → Bool) (m : Map K V) → IsMap m → IsMap (retain p m)
  unfolding retain
  retain-IsMap p [] h = tt
  retain-IsMap p ((i, w) ∷ m) (fresh, h) =
      ground (arith, retain_missing p i m fresh, retain-IsMap p m h)

  pub remove_missing : (k : K) (m : Map K V) → get k m ≡ none → remove k m ≡ m
  unfolding get remove
  remove_missing k [] e = refl
  remove_missing k ((i, w) ∷ m) e = ground (arith, remove_missing k m)

  pub modify_missing : (k : K) (f : V → V) (m : Map K V) → get k m ≡ none → modify k f m ≡ m
  unfolding get modify
  modify_missing k f [] e = refl
  modify_missing k f ((i, w) ∷ m) e = ground (arith, modify_missing k f m)

  -- An entry that a search finds is the entry of its key.
  pub find_entry-get :
      (p : V → Bool) (m : Map K V) (k : K) (v : V)
      → IsMap m
      → find_entry p m ≡ some (k, v)
      → (get k m ≡ some v) × (p v ≡ true)
  unfolding find_entry get
  find_entry-get p [] k v h e = ground arith
  find_entry-get p ((i, w) ∷ m) k v (fresh, h) e = elim (Bool-cases (p w)) [
    | inl hit ↦ ground (arith, ==_refl i)
    | inr miss ↦
        let (found, holds) = find_entry-get p m k v h (ground arith) in
        ground (arith, found, holds, ==_iff i k)
  ]

  -- A search that finds nothing has refused the value of every key.
  pub find_entry-none :
      (p : V → Bool) (m : Map K V) (k : K) (v : V)
      → find_entry p m ≡ none
      → get k m ≡ some v
      → p v ≡ false
  unfolding find_entry get
  find_entry-none p [] k v e g = ground arith
  find_entry-none p ((i, w) ∷ m) k v e g = ground (arith, find_entry-none p m k v)
