-- ===== src/Map.antt =====
-- Rust's `HashMap` and `DashMap`: an association list that holds no key twice. The source iterates
-- over a map only where the order does not matter. Clients go by `map_laws`.
use zet_mq.Prelude.{
  ℕ, suc, ◌≡◌, ◌≤◌, refl, Bool, true, List, [], ◌∷◌, Option, none, some, arith, ◌==◌, if◌then◌else◌,
  ==_iff, str_eq, str_eq_iff, ◌↔◌, length, Bool-cases, inl, inr,
}

-- `Eq` of a key type.
pub record Key {ℓ} (K : Type ℓ) : Type ℓ where
  pub eq : K → K → Bool
  pub eq_iff : (a b : K) → (eq a b ≡ true) ↔ (a ≡ b)

instance abbrev pub nat_key : Key ℕ
nat_key = record { eq = ◌==◌; eq_iff = ==_iff }

instance abbrev pub str_key : Key (List ℕ)
str_key = record { eq = str_eq; eq_iff = str_eq_iff }

pub record Map {ℓ κ} (K : Type ℓ) (V : Type κ) : Type (ℓ ⊔ κ) where
  pub entries : List (K × V)

abbrev pub mapped {ℓ} : {V : Type ℓ} → (V → V) → Option V → Option V
mapped f none = none
mapped f (some v) = some (f v)

module _ {ℓ κ} {K : Type ℓ} {V : Type κ} where
  unfoldable pub empty : Map K V
  empty = record { entries = [] }

module _ {ℓ κ} {K : Type ℓ} {V : Type κ} ⦃k : Key K⦄ where
  lookup : K → List (K × V) → Option V
  lookup a [] = none
  lookup a ((b, v) ∷ es) = let rest = lookup a es in if k.eq b a then some v else rest

  put : K → V → List (K × V) → List (K × V)
  put a v [] = (a, v) ∷ []
  put a v ((b, w) ∷ es) = let rest = put a v es in if k.eq b a then (b, v) ∷ es else (b, w) ∷ rest

  without : K → List (K × V) → List (K × V)
  without a [] = []
  without a ((b, w) ∷ es) = let rest = without a es in if k.eq b a then rest else (b, w) ∷ rest

  -- `map.get(&a)`
  unfoldable pub get : K → Map K V → Option V
  unfolding lookup
  get a m = lookup a m.entries

  -- `map.insert(a, v)`
  unfoldable pub insert : K → V → Map K V → Map K V
  unfolding put
  insert a v m = record { entries = put a v m.entries }

  -- `map.remove(&a)`
  unfoldable pub remove : K → Map K V → Map K V
  unfolding without
  remove a m = record { entries = without a m.entries }

  abbrev updated : (V → V) → K → Option V → Map K V → Map K V
  updated f a none m = m
  updated f a (some v) m = insert a (f v) m

  -- `if let Some(v) = map.get_mut(&a) { *v = f(*v) }`
  unfoldable pub update : (V → V) → K → Map K V → Map K V
  unfolding get insert
  update f a m = updated f a (get a m) m

  lookup-put :
      (a b : K) (v : V) (es : List (K × V))
      → lookup b (put a v es) ≡ (if k.eq a b then some v else lookup b es)
  unfolding lookup put
  lookup-put a b v [] = refl
  lookup-put a b v ((c, w) ∷ es) =
      ground (arith, lookup-put a b v es, k.eq_iff c a, k.eq_iff c b, k.eq_iff a b)

  lookup-without :
      (a b : K) (es : List (K × V))
      → lookup b (without a es) ≡ (if k.eq a b then none else lookup b es)
  unfolding lookup without
  lookup-without a b [] = ground arith
  lookup-without a b ((c, w) ∷ es) =
      ground (arith, lookup-without a b es, k.eq_iff c a, k.eq_iff c b, k.eq_iff a b)

  pub get-insert :
      (a b : K) (v : V) (m : Map K V)
      → get b (insert a v m) ≡ (if k.eq a b then some v else get b m)
  unfolding get insert
  get-insert a b v m = lookup-put a b v m.entries

  pub get-remove :
      (a b : K) (m : Map K V) → get b (remove a m) ≡ (if k.eq a b then none else get b m)
  unfolding get remove
  get-remove a b m = lookup-without a b m.entries

  pub get-update :
      (f : V → V) (a b : K) (m : Map K V)
      → get b (update f a m) ≡ (if k.eq a b then mapped f (get b m) else get b m)
  unfolding update
  get-update f a b m = at-updated (get a m) refl
    where
      at-updated :
          (o : Option V)
          → get a m ≡ o
          → get b (updated f a o m) ≡ (if k.eq a b then mapped f (get b m) else get b m)
      at-updated none e = elim (Bool-cases (k.eq a b)) [
        | inl same ↦ rw (same, ← (k.eq_iff a b).0 same, e)
        | inr other ↦ rw other
      ]
      at-updated (some v) e = elim (Bool-cases (k.eq a b)) [
        | inl same ↦
            rw (same, ← (k.eq_iff a b).0 same, e, get-insert a a (f v) m, (k.eq_iff a a).1 refl)
        | inr other ↦ rw (other, get-insert a b (f v) m, other)
      ]

  -- `map.len()`
  abbrev pub size : Map K V → ℕ
  size m = length m.entries

  length-put :
      (a : K) (v : V) (es : List (K × V))
      → length (put a v es) ≡ (elim (lookup a es) [ none ↦ suc (length es) | some w ↦ length es ])
  unfolding lookup put
  length-put a v [] = refl
  length-put a v ((b, w) ∷ es) = ground (arith, length-put a v es)

  length-without : (a : K) (es : List (K × V)) → length (without a es) ≤ length es
  unfolding without
  length-without a [] = omega arith
  length-without a ((b, w) ∷ es) = ground (arith, length-without a es)

  pub size-insert :
      (a : K) (v : V) (m : Map K V)
      → size (insert a v m) ≡ (elim (get a m) [ none ↦ suc (size m) | some w ↦ size m ])
  unfolding get insert
  size-insert a v m = length-put a v m.entries

  pub size-remove-le : (a : K) (m : Map K V) → size (remove a m) ≤ size m
  unfolding remove
  size-remove-le a m = length-without a m.entries

  pub get-empty : (a : K) → get a (empty {K = K} {V = V}) ≡ none
  unfolding get empty
  get-empty a = refl

pub ruleset map_laws = (get-empty, get-insert, get-remove, get-update)
