-- ===== src/Connection/Table.antt =====
-- The maps of rtsp-2/src/protocol/connection/receiver.rs (`HashMap`) as association lists.
use rtsp_rs.Prelude.{
  ◌++◌, ℕ, sym, ◌<◌, ◌≤◌, ◌≡◌, refl, List, [], ◌∷◌, ◌==◌, if◌then◌else◌, Option, none, some, false,
  length, arith, ==_iff, Bool-cases, inl, inr, ◌⊎◌,
}

abbrev pub Table : Type 0 → Type 0
Table A = List (ℕ × A)

module _ {A : Type 0} where
  unfoldable pub lookup : ℕ → Table A → Option A
  lookup key [] = none
  lookup key ((k, a) ∷ t) = if k == key then some a else lookup key t

  unfoldable pub remove : ℕ → Table A → Table A
  remove key [] = []
  remove key ((k, a) ∷ t) = let rest = remove key t in if k == key then rest else (k, a) ∷ rest

  pub lookup-remove : (key : ℕ) (t : Table A) → lookup key (remove key t) ≡ none
  unfolding lookup remove
  lookup-remove key [] = refl
  lookup-remove key ((k, a) ∷ t) = ground (arith, lookup-remove key t)

  pub lookup-remove_other :
      (key other : ℕ) (t : Table A)
      → (key == other) ≡ false
      → lookup other (remove key t) ≡ lookup other t
  unfolding lookup remove
  lookup-remove_other key other [] h = refl
  lookup-remove_other key other ((k, a) ∷ t) h = ground (arith, lookup-remove_other key other t h)

  pub length-remove-le : (key : ℕ) (t : Table A) → length (remove key t) ≤ length t
  unfolding remove
  length-remove-le key [] = omega arith
  length-remove-le key ((k, a) ∷ t) = ground (arith, length-remove-le key t)

  pub length-remove-lt :
      (key : ℕ) (t : Table A) {a : A} → lookup key t ≡ some a → length (remove key t) < length t
  unfolding lookup remove
  length-remove-lt key [] h = ground arith
  length-remove-lt key ((k, a) ∷ t) {a = b} h =
      ground (arith, length-remove-le key t, length-remove-lt key t {a = b})

  -- What holds of every entry.
  abbrev pub All : (ℕ → A → Type 0) → Table A → Type 0
  All P [] = Unit {0}
  All P ((k, a) ∷ t) = P k a × All P t

  module _ (P : ℕ → A → Type 0) where
    pub remove-All : (key : ℕ) (t : Table A) → All P t → All P (remove key t)
    unfolding remove
    remove-All key [] h = tt
    remove-All key ((k, a) ∷ t) (p, h) = elim (Bool-cases (k == key)) [
      | inl hit ↦ rw hit (remove-All key t h)
      | inr miss ↦ rw miss (p, remove-All key t h)
    ]

    pub lookup-All : (key : ℕ) (t : Table A) {a : A} → All P t → lookup key t ≡ some a → P key a
    unfolding lookup
    lookup-All key [] h e = ground arith
    lookup-All key ((k, a) ∷ t) {a = b} (p, h) e = elim (Bool-cases (k == key)) [
      | inl hit ↦
          let same_key : k ≡ key = (==_iff k key).0 hit in
          let found : some a ≡ some b = rw hit at e in
          let same_value : a ≡ b = cc in rw (sym same_key, sym same_value) p
      | inr miss ↦ lookup-All key t h (rw miss at e)
    ]

-- An entry of a list of pairs.
module _ {R : Type 0} (c : ℕ) (r : R) where
  abbrev pub Has : List (ℕ × R) → Type 0
  Has [] = ⊥
  Has ((n, q) ∷ items) = ((n ≡ c) × (q ≡ r)) ⊎ Has items

  pub Has-append_left :
      (items : List (ℕ × R)) (n : ℕ) (q : R) → Has items → Has (items ++ ((n, q) ∷ []))
  Has-append_left [] n q h = elim h [ ]
  Has-append_left ((m, s) ∷ items) n q (inl e) = inl e
  Has-append_left ((m, s) ∷ items) n q (inr h) = inr (Has-append_left items n q h)

  pub Has-append_right : (items : List (ℕ × R)) (n : ℕ) → n ≡ c → Has (items ++ ((n, r) ∷ []))
  Has-append_right [] n e = inl (e, refl)
  Has-append_right ((m, s) ∷ items) n e = inr (Has-append_right items n e)
