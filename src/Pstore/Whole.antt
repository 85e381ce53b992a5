-- ===== src/Pstore/Whole.antt =====
-- The pages of smrsim_save_persistence are those of the whole object.
use native.Mathlib.Decide.{dec_lt}
use native.Mathlib.Nat.{div-mul-le_self, lt-div-mul-add, mod-eq-sub-div-mul}
use smr_simulator.Base.{
  ℕ, zero, suc, ◌+◌, ◌*◌, ◌/◌, ◌%◌, ◌≡◌, ◌≢◌, ◌<◌, ◌≤◌, refl, ap, ◌∙◌, arith, some, List, [], ◌∷◌,
  ◌++◌, get_elem?,
}
use smr_simulator.State.{Sim}
use smr_simulator.Pstore.Task.{pages_from, save_pages}

get_elem?-pages_from : (from n k : ℕ) → k < n → get_elem? (pages_from from n) k ≡ some (from + k)
get_elem?-pages_from from zero k h = elim h [ ]
get_elem?-pages_from from (suc n) zero h = ap some (omega arith)
get_elem?-pages_from from (suc n) (suc k) h =
    get_elem?-pages_from (from + 1) n k (omega arith) ∙ ap some (omega arith)

-- The pages before a last one, and the last one.
get_elem?-before :
    (from n k : ℕ) (rest : List ℕ)
    → k < n
    → get_elem? (pages_from from n ++ rest) k ≡ some (from + k)
get_elem?-before from zero k rest h = elim h [ ]
get_elem?-before from (suc n) zero rest h = ap some (omega arith)
get_elem?-before from (suc n) (suc k) rest h =
    get_elem?-before (from + 1) n k rest (omega arith) ∙ ap some (omega arith)

get_elem?-last : (from n last : ℕ) → get_elem? (pages_from from n ++ (last ∷ [])) n ≡ some last
get_elem?-last from zero last = refl
get_elem?-last from (suc n) last = get_elem?-last (from + 1) n last

below : (k a p : ℕ) → k * p < a * p → k < a
below k a p h = elim (dec_lt k a) [
  | yes l ↦ l
  | no g ↦ absurd (omega (arith, mul_le a k p (omega arith)))
]
  where
    mul_le : (a b p : ℕ) → a ≤ b → a * p ≤ b * p
    mul_le a b p h = grind arith

-- Page `k` is the `k`th that is written, for every page that starts within the length.
pub save_pages-whole :
    (page_size : ℕ) (crc_of : Sim → ℕ) (len k : ℕ)
    → 0 < page_size
    → k * page_size < len
    → get_elem? (save_pages page_size crc_of len) k ≡ some k
unfolding save_pages
save_pages-whole page_size crc_of len k pos h = elim (dec_lt k (len / page_size)) [
  | yes l ↦ get_elem?-before 0 (len / page_size) k _ l ∙ ap some (omega arith)
  | no g ↦
      let n = len / page_size in
      let last : k ≡ n = omega (
        arith,
        below k (n + 1) page_size
            (omega (arith, succ_mul n page_size, lt-div-mul-add {a = len} {b = page_size} pos)),
      ) in
      let part : len % page_size ≢ 0 = λ e. absurd (
        omega (
          arith,
          mod-eq-sub-div-mul len page_size,
          div-mul-le_self len page_size,
          mul_eq k n page_size last,
        )) in
      rw last (ground (arith, part, get_elem?-last 0 n n))
]
  where
    succ_mul : (n p : ℕ) → (n + 1) * p ≡ n * p + p
    succ_mul n p = grind arith

    mul_eq : (k n p : ℕ) → k ≡ n → k * p ≡ n * p
    mul_eq k n p e = rw e refl
