-- ===== src/Common/Map/Values.antt =====
-- What the map operations do to a count of the values and to a property of all of them.
use stratum_v2_tools.Common.{
  Bool, Bool-cases, Eq, [], arith, count_by, if◌then◌else◌, inl, inr, nat_eq, refl, select, some,
  string_eq, subst, ◌+◌, ◌==◌, ◌∷◌, ◌≡◌, ◌≤◌,
}
use stratum_v2_tools.Common.Map.{Map, get, insert, modify, remove, retain, values}

module _ {ℓ κ} {K : Type ℓ} {V : Type κ} (p : V → Bool) where
  pub count_by-retain :
      (q : K → V → Bool) (m : Map K V) → count_by p (values (retain q m)) ≤ count_by p (values m)
  unfolding retain count_by
  count_by-retain q [] = omega arith
  count_by-retain q ((j, w) ∷ m) = ground (arith, count_by-retain q m)

  pub values-retain : (m : Map K V) → values (retain (λ _ v. p v) m) ≡ select p (values m)
  unfolding retain select
  values-retain [] = refl
  values-retain ((j, w) ∷ m) = ground (arith, values-retain m)

module _ {ℓ κ} {K : Type ℓ} {V : Type κ} ⦃key : Eq K⦄ (p : V → Bool) where
  pub count_by-insert :
      (k : K) (v : V) (m : Map K V)
      → count_by p (values (insert k v m)) ≤ (if p v then 1 else 0) + count_by p (values m)
  unfolding insert count_by
  count_by-insert k v [] = omega arith
  count_by-insert k v ((j, w) ∷ m) = ground (arith, count_by-insert k v m)

  pub count_by-remove :
      (k : K) (m : Map K V) → count_by p (values (remove k m)) ≤ count_by p (values m)
  unfolding remove count_by
  count_by-remove k [] = omega arith
  count_by-remove k ((j, w) ∷ m) = ground (arith, count_by-remove k m)

  pub count_by-modify :
      (k : K) (f : V → V)
      → ((v : V) → p (f v) ≡ p v)
      → (m : Map K V) → count_by p (values (modify k f m)) ≡ count_by p (values m)
  unfolding modify count_by
  count_by-modify k f h [] = refl
  count_by-modify k f h ((j, w) ∷ m) = ground (arith, h w, count_by-modify k f h m)

-- Every value of the map has the property.
module _ {ℓ κ μ} {K : Type ℓ} {V : Type κ} (P : V → Type μ) where
  abbrev pub AllValues : Map K V → Type μ
  AllValues [] = Unit
  AllValues ((j, w) ∷ m) = P w × AllValues m

  pub retain-AllValues : (q : K → V → Bool) (m : Map K V) → AllValues m → AllValues (retain q m)
  unfolding retain
  retain-AllValues q [] h = tt
  retain-AllValues q ((j, w) ∷ m) (x, h) = ground (arith, x, retain-AllValues q m h)

module _ {ℓ κ μ} {K : Type ℓ} {V : Type κ} ⦃key : Eq K⦄ (P : V → Type μ) where
  pub insert-AllValues :
      (k : K) (v : V) (m : Map K V) → P v → AllValues P m → AllValues P (insert k v m)
  unfolding insert
  insert-AllValues k v [] p h = (p, tt)
  insert-AllValues k v ((j, w) ∷ m) p (x, h) = ground (arith, p, x, insert-AllValues k v m p h)

  pub remove-AllValues : (k : K) (m : Map K V) → AllValues P m → AllValues P (remove k m)
  unfolding remove
  remove-AllValues k [] h = tt
  remove-AllValues k ((j, w) ∷ m) (x, h) = ground (arith, x, remove-AllValues k m h)

  pub modify-AllValues :
      (k : K) (f : V → V)
      → ((v : V) → P v → P (f v))
      → (m : Map K V) → AllValues P m
      → AllValues P (modify k f m)
  unfolding modify
  modify-AllValues k f g [] h = tt
  modify-AllValues k f g ((j, w) ∷ m) (x, h) = ground (arith, x, g w x, modify-AllValues k f g m h)

  pub get-AllValues : (k : K) (m : Map K V) (v : V) → AllValues P m → get k m ≡ some v → P v
  unfolding get
  get-AllValues k [] v h e = cc
  get-AllValues k ((j, w) ∷ m) v (x, h) e = elim (Bool-cases (j == k)) [
    | inl hit ↦ subst P (ground arith) x
    | inr miss ↦ get-AllValues k m v h (ground arith)
  ]

-- A property that implies another on every value.
pub AllValues-map {ℓ κ μ ν} :
    {K : Type ℓ} {V : Type κ} (P : V → Type μ) (Q : V → Type ν)
    → ((v : V) → P v → Q v)
    → (m : Map K V) → AllValues P m
    → AllValues Q m
AllValues-map P Q f [] h = tt
AllValues-map P Q f ((j, w) ∷ m) (x, h) = (f w x, AllValues-map P Q f m h)
