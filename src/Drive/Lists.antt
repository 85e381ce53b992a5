-- ===== src/Drive/Lists.antt =====
-- The first entries of an array, as the zones of a table.
use smr_simulator.Base.{
  ℕ, zero, suc, ◌+◌, ◌-◌, ◌≡◌, ◌<◌, ◌≤◌, refl, ap, arith, List, [], ◌∷◌, ◌++◌, Option, none, some,
  length, take, drop, set, replicate, get_elem?, get_elem?-set_ne, get_elem?-set_self, length-set,
  length-clear, ◌∙◌, sym,
}
use native.Mathlib.Decide.{dec_lt}

module _ {ℓ} {A : Type ℓ} where
  pub length-take : (n : ℕ) (xs : List A) → n ≤ length xs → length (take n xs) ≡ n
  length-take zero xs h = refl
  length-take (suc n) [] h = elim h [ ]
  length-take (suc n) (x ∷ xs) h = ap suc (length-take n xs (omega arith))

  pub get_elem?-take :
      (n : ℕ) (xs : List A) (i : ℕ) → i < n → get_elem? (take n xs) i ≡ get_elem? xs i
  get_elem?-take zero xs i h = elim h [ ]
  get_elem?-take (suc n) [] i h = refl
  get_elem?-take (suc n) (x ∷ xs) zero h = refl
  get_elem?-take (suc n) (x ∷ xs) (suc i) h = get_elem?-take n xs i (omega arith)

  pub get_elem?-take_past : (n : ℕ) (xs : List A) (i : ℕ) → n ≤ i → get_elem? (take n xs) i ≡ none
  get_elem?-take_past zero xs i h = refl
  get_elem?-take_past (suc n) [] i h = refl
  get_elem?-take_past (suc n) (x ∷ xs) zero h = elim h [ ]
  get_elem?-take_past (suc n) (x ∷ xs) (suc i) h = get_elem?-take_past n xs i (omega arith)

  pub take-set : (n : ℕ) (xs : List A) (i : ℕ) (v : A) → take n (set xs i v) ≡ set (take n xs) i v
  take-set zero xs i v = refl
  take-set (suc n) [] i v = refl
  take-set (suc n) (x ∷ xs) zero v = refl
  take-set (suc n) (x ∷ xs) (suc i) v = ap (λ r. x ∷ r) (take-set n xs i v)

  -- The entry behind the first `n`.
  pub take_next :
      (n : ℕ) (xs : List A) (v : A)
      → get_elem? xs n ≡ some v
      → take (suc n) xs ≡ take n xs ++ (v ∷ [])
  take_next n [] v e = cc
  take_next zero (x ∷ xs) v e = cc
  take_next (suc n) (x ∷ xs) v e = ap (λ r. x ∷ r) (take_next n xs v e)

  set_beyond : (xs : List A) (i : ℕ) (v : A) → length xs ≤ i → set xs i v ≡ xs
  set_beyond [] i v h = refl
  set_beyond (x ∷ xs) zero v h = elim h [ ]
  set_beyond (x ∷ xs) (suc i) v h = ap (λ r. x ∷ r) (set_beyond xs i v (omega arith))

  -- The entry behind the first `n` is written.
  pub take-set_next :
      (n : ℕ) (xs : List A) (v : A)
      → n < length xs
      → take (n + 1) (set xs n v) ≡ take n xs ++ (v ∷ [])
  take-set_next n xs v h =
      let next : n + 1 ≡ suc n = omega arith in
      let same : take n (set xs n v) ≡ take n xs =
        take-set n xs n v
        ∙ set_beyond (take n xs) n v (omega (arith, length-take n xs (omega arith))) in
      rw next
        (take_next n (set xs n v) v (get_elem?-set_self xs n v h) ∙ ap (λ r. r ++ (v ∷ [])) same)

  pub drop-set : (xs : List A) (i : ℕ) (v : A) → drop (suc i) (set xs i v) ≡ drop (suc i) xs
  drop-set [] i v = refl
  drop-set (x ∷ xs) zero v = refl
  drop-set (x ∷ xs) (suc i) v = drop-set xs i v

  pub take-replicate : (n : ℕ) (v : A) (xs : List A) → take n (replicate n v ++ xs) ≡ replicate n v
  take-replicate zero v xs = refl
  take-replicate (suc n) v xs = ap (λ r. v ∷ r) (take-replicate n v xs)

  take-all : (xs : List A) → take (length xs) xs ≡ xs
  take-all [] = refl
  take-all (x ∷ xs) = ap (λ r. x ∷ r) (take-all xs)

  pub take-length : (n : ℕ) (xs : List A) → length xs ≡ n → take n xs ≡ xs
  take-length n xs e = rw (← e) (take-all xs)

  -- A part of the first `n` entries.
  pub take-drop :
      (w i n : ℕ) (xs : List A) → i + w ≤ n → take w (drop i (take n xs)) ≡ take w (drop i xs)
  take-drop zero i n xs h = refl
  take-drop (suc w) i zero xs h = absurd (omega arith)
  take-drop (suc w) zero (suc n) [] h = refl
  take-drop (suc w) zero (suc n) (x ∷ xs) h = ap (λ r. x ∷ r) (take-drop w zero n xs (omega arith))
  take-drop (suc w) (suc i) (suc n) [] h = refl
  take-drop (suc w) (suc i) (suc n) (x ∷ xs) h = take-drop (suc w) i n xs (omega arith)

  -- An array whose first `n` entries were overwritten.
  pub get_elem?-cleared_low :
      (n : ℕ) (v : A) (ys : List A) (i : ℕ) → i < n → get_elem? (replicate n v ++ ys) i ≡ some v
  get_elem?-cleared_low zero v ys i h = elim h [ ]
  get_elem?-cleared_low (suc n) v ys zero h = refl
  get_elem?-cleared_low (suc n) v ys (suc i) h = get_elem?-cleared_low n v ys i (omega arith)

  pub get_elem?-cleared_high :
      (n : ℕ) (v : A) (xs : List A) (i : ℕ)
      → n ≤ length xs
      → n ≤ i
      → get_elem? (replicate n v ++ drop n xs) i ≡ get_elem? xs i
  get_elem?-cleared_high zero v xs i l h = refl
  get_elem?-cleared_high (suc n) v [] i l h = elim l [ ]
  get_elem?-cleared_high (suc n) v (x ∷ xs) zero l h = elim h [ ]
  get_elem?-cleared_high (suc n) v (x ∷ xs) (suc i) l h =
      get_elem?-cleared_high n v xs i (omega arith) (omega arith)

  -- Lists with the same entries.
  pub get_elem?-ext : (xs ys : List A) → ((i : ℕ) → get_elem? xs i ≡ get_elem? ys i) → xs ≡ ys
  get_elem?-ext [] [] h = refl
  get_elem?-ext [] (y ∷ ys) h = absurd (clash (h 0))
    where
      clash : ¬ (◌≡◌ {A = Option A} none (some y))
      clash e = cc
  get_elem?-ext (x ∷ xs) [] h = absurd (clash (h 0))
    where
      clash : ¬ (◌≡◌ {A = Option A} (some x) none)
      clash e = cc
  get_elem?-ext (x ∷ xs) (y ∷ ys) h =
      let heads : x ≡ y = some_inj (h 0) in
      let tails : xs ≡ ys = get_elem?-ext xs ys (λ i. h (suc i)) in rw (heads, tails) refl
    where
      some_inj : {a b : A} → some a ≡ some b → a ≡ b
      some_inj e = cc

-- An entry past the first `n`, in the rest of the array.
module _ {ℓ} {A : Type ℓ} where
  get_elem?-drop :
      (n : ℕ) (xs : List A) (i : ℕ) → n ≤ i → get_elem? xs i ≡ get_elem? (drop n xs) (i - n)
  get_elem?-drop zero xs i h = ap (λ k. get_elem? xs k) (omega arith)
  get_elem?-drop (suc n) [] i h = refl
  get_elem?-drop (suc n) (x ∷ xs) zero h = elim h [ ]
  get_elem?-drop (suc n) (x ∷ xs) (suc i) h =
      get_elem?-drop n xs i (omega arith) ∙ ap (λ k. get_elem? (drop n xs) k) (omega arith)

  pub rest_eq :
      (n : ℕ) (xs ys : List A) (i : ℕ)
      → drop n xs ≡ drop n ys
      → n ≤ i
      → get_elem? xs i ≡ get_elem? ys i
  rest_eq n xs ys i e h =
      get_elem?-drop n xs i h ∙ ap (λ r. get_elem? r (i - n)) e ∙ sym (get_elem?-drop n ys i h)

-- The entries from `n` on are all `v`.
abbrev pub RestIs {ℓ} : {A : Type ℓ} → A → ℕ → List A → Type ℓ
RestIs v n xs = (i : ℕ) → n ≤ i → i < length xs → get_elem? xs i ≡ some v

-- What changes below `n` leaves, and what an overwriting of the first `n` entries leaves.
pub RestIs-set {ℓ} :
    {A : Type ℓ} (v w : A) (n i : ℕ) (xs : List A) → i < n → RestIs v n xs → RestIs v n (set xs i w)
RestIs-set v w n i xs h r j l le =
    get_elem?-set_ne xs i j w (λ e. absurd (omega arith)) ∙ r j l (rw (length-set xs i w) at le)

pub RestIs-suc {ℓ} :
    {A : Type ℓ} (v : A) (n : ℕ) (xs : List A) → RestIs v n xs → RestIs v (n + 1) xs
RestIs-suc v n xs r j l le = r j (omega arith) le

pub RestIs-cleared {ℓ} :
    {A : Type ℓ} (v : A) (n : ℕ) (xs : List A)
    → n ≤ length xs
    → RestIs v n xs
    → RestIs v 0 (replicate n v ++ drop n xs)
RestIs-cleared v n xs h r j l le = elim (dec_lt j n) [
  | yes low ↦ get_elem?-cleared_low n v (drop n xs) j low
  | no high ↦
      get_elem?-cleared_high n v xs j h (omega arith)
      ∙ r j (omega arith) (rw (length-clear n v xs h) at le)
]
