-- ===== src/Pstore/Segments.antt =====
-- Segments of a list of bytes, and the arithmetic of their offsets.
use smr_simulator.Base.{
  ℕ, zero, suc, ◌+◌, ◌-◌, ◌*◌, ◌≡◌, ◌<◌, arith, refl, ap, sym, ◌∙◌, List, [], ◌∷◌, ◌++◌, take, drop,
  length, get_elem?, take-nil,
}

pub drop-nil : (n : ℕ) → drop {A = ℕ} n [] ≡ []
drop-nil zero = refl
drop-nil (suc n) = refl

pub take-append-drop : (a b : ℕ) (xs : List ℕ) → take a xs ++ take b (drop a xs) ≡ take (a + b) xs
take-append-drop zero b xs = ap (λ n. take n xs) (omega arith)
take-append-drop (suc a) b [] = take-nil b ∙ sym (take-nil (suc a + b))
take-append-drop (suc a) b (x ∷ xs) =
    let shift : suc a + b ≡ suc (a + b) = omega arith in
    rw shift (ap (λ r. x ∷ r) (take-append-drop a b xs))

pub drop-drop : (a b : ℕ) (xs : List ℕ) → drop b (drop a xs) ≡ drop (a + b) xs
drop-drop zero b xs = ap (λ n. drop n xs) (omega arith)
drop-drop (suc a) b [] = drop-nil b ∙ sym (drop-nil (suc a + b))
drop-drop (suc a) b (x ∷ xs) =
    let shift : suc a + b ≡ suc (a + b) = omega arith in rw shift (drop-drop a b xs)

pub take-all : (xs : List ℕ) → take (length xs) xs ≡ xs
take-all [] = refl
take-all (x ∷ xs) = ap (λ r. x ∷ r) (take-all xs)

pub get_elem?-take : (n i : ℕ) (xs : List ℕ) → i < n → get_elem? (take n xs) i ≡ get_elem? xs i
get_elem?-take zero i xs h = elim h [ ]
get_elem?-take (suc n) i [] h = refl
get_elem?-take (suc n) zero (x ∷ xs) h = refl
get_elem?-take (suc n) (suc i) (x ∷ xs) h = get_elem?-take n i xs (omega arith)

pub get_elem?-append :
    (i : ℕ) (xs ys : List ℕ) → i < length xs → get_elem? (xs ++ ys) i ≡ get_elem? xs i
get_elem?-append i [] ys h = elim h [ ]
get_elem?-append zero (x ∷ xs) ys h = refl
get_elem?-append (suc i) (x ∷ xs) ys h = get_elem?-append i xs ys (omega arith)

pub zero_mul : (p : ℕ) → 0 * p ≡ 0
zero_mul p = omega arith

pub succ_mul : (a p : ℕ) → (a + 1) * p ≡ a * p + p
succ_mul a p = grind arith

pub suc_mul : (a p : ℕ) → p + a * p ≡ suc a * p
suc_mul a p = grind arith

pub take-whole : (n : ℕ) (xs ys : List ℕ) → length xs ≡ n → take n (xs ++ ys) ≡ xs
take-whole zero [] ys e = refl
take-whole zero (x ∷ xs) ys e = absurd (omega arith)
take-whole (suc n) [] ys e = absurd (omega arith)
take-whole (suc n) (x ∷ xs) ys e = ap (λ r. x ∷ r) (take-whole n xs ys (omega arith))

pub length-drop : (n : ℕ) (xs : List ℕ) → length (drop n xs) ≡ length xs - n
length-drop zero xs = omega arith
length-drop (suc n) [] = omega arith
length-drop (suc n) (x ∷ xs) = omega (arith, length-drop n xs)

pub take_whole : (n : ℕ) (xs : List ℕ) → length xs ≡ n → take n xs ≡ xs
take_whole n xs e = rw (← e) (take-all xs)

pub take-drop : (n : ℕ) (xs : List ℕ) → take n xs ++ drop n xs ≡ xs
take-drop zero xs = refl
take-drop (suc n) [] = refl
take-drop (suc n) (x ∷ xs) = ap (λ r. x ∷ r) (take-drop n xs)

pub nil_of_length : (xs : List ℕ) → length xs ≡ 0 → [] ≡ xs
nil_of_length [] e = refl
nil_of_length (x ∷ xs) e = absurd (omega arith)
