-- ===== src/Vnet/PortMap.antt =====
-- Go's `map[int][]T`, as an association list: what the listener and connection maps are kept in.
use transport.Prelude.{
  ℕ, ◌+◌, ◌≡◌, true, false, Option, none, some, List, [], ◌∷◌, ◌==◌, if◌then◌else◌, length, arith,
  ◌≢◌, none-ne-some, sym, ap, ◌∙◌,
}

abbrev pub PortMap {ℓ} : Type ℓ → Type ℓ
PortMap A = List (ℕ × List A)

module _ {ℓ} {A : Type ℓ} where
  -- `v, ok := m[k]`
  unfoldable pub lookup : ℕ → PortMap A → Option (List A)
  lookup port [] = none
  lookup port (entry ∷ rest) = elim (entry.0 == port) [
    | true ↦ some entry.1
    | false ↦ lookup port rest
  ]

  -- `m[k] = v`
  unfoldable pub insert : ℕ → List A → PortMap A → PortMap A
  insert port values [] = (port, values) ∷ []
  insert port values (entry ∷ rest) = elim (entry.0 == port) [
    | true ↦ (port, values) ∷ rest
    | false ↦ entry ∷ insert port values rest
  ]

  -- `delete(m, k)`
  unfoldable pub erase : ℕ → PortMap A → PortMap A
  erase k [] = []
  erase k ((j, w) ∷ m) = if j == k then erase k m else (j, w) ∷ erase k m

  -- The number of values under all the keys.
  unfoldable pub total : PortMap A → ℕ
  total [] = 0
  total ((k, v) ∷ m) = length v + total m

  -- How many values a key has; 0 where it has no entry.
  abbrev pub count_at : Option (List A) → ℕ
  count_at none = 0
  count_at (some v) = length v

  pub lookup-insert :
      (port other : ℕ) (values : List A) (m : PortMap A)
      → lookup other (insert port values m)
        ≡ (if port == other then some values else lookup other m)
  unfolding insert lookup
  lookup-insert port other values [] = ground arith
  lookup-insert port other values (entry ∷ rest) =
      ground (arith, lookup-insert port other values rest)

  pub lookup-erase :
      (k j : ℕ) (m : PortMap A) → lookup j (erase k m) ≡ (if k == j then none else lookup j m)
  unfolding lookup erase
  lookup-erase k j [] = ground arith
  lookup-erase k j ((i, w) ∷ m) = ground (arith, lookup-erase k j m)

  pub total-insert :
      (k : ℕ) (v : List A) (m : PortMap A)
      → total (insert k v m) + count_at (lookup k m) ≡ total m + length v
  unfolding lookup insert total
  total-insert k v [] = ground arith
  total-insert k v ((i, w) ∷ m) = ground (arith, total-insert k v m)

  pub lookup-erase-some :
      (k j : ℕ) (m : PortMap A) {v : List A} → lookup j (erase k m) ≡ some v → lookup j m ≡ some v
  lookup-erase-some k j m e = ground (arith, lookup-erase k j m)

  pub lookup-erase_ne :
      (k j : ℕ) (m : PortMap A) {v : List A} → lookup j (erase k m) ≡ some v → k ≢ j
  lookup-erase_ne k j m e same = none-ne-some (
      sym (ap (λ b. if b then none else lookup j m) {x = k == j} {y = true} (ground arith))
      ∙ sym (lookup-erase k j m)
      ∙ e)
