-- ===== src/Util/Atoi.antt =====
-- The numbers on the command line: C's `atoi` and `atol`, which are `strtol` in base 10. A text is
-- the list of its characters' codes; a result is given by its bits, as a __u32 or __u64.
use smr_simulator.Base.{
  ℕ, ◌+◌, ◌-◌, ◌*◌, ◌%◌, ◌^◌, Bool, ◌||◌, ◌&&◌, if◌then◌else◌, ltb, leb, ◌==◌, List, [], ◌∷◌,
}

abbrev pub Text : Type 0
Text = List ℕ

abbrev is_space : ℕ → Bool
is_space c = c == 32 || (leb 9 c && leb c 13)

abbrev is_digit : ℕ → Bool
is_digit c = leb 48 c && leb c 57

unfoldable pub skip_spaces : Text → Text
skip_spaces [] = []
skip_spaces (c ∷ cs) = let rest = skip_spaces cs in if is_space c then rest else c ∷ cs

-- The digits up to the first other character, after those that came to `acc`.
unfoldable pub digits_value : ℕ → Text → ℕ
digits_value acc [] = acc
digits_value acc (c ∷ cs) =
    let rest = digits_value (10 * acc + (c - 48)) cs in if is_digit c then rest else acc

-- At most LONG_MAX, or for a negative number LONG_MIN.
abbrev pub positive : ℕ → ℕ
positive n = if ltb n (2 ^ 63) then n else 2 ^ 63 - 1

abbrev pub negative : ℕ → ℕ
negative n = if leb n (2 ^ 63) then (2 ^ 64 - n) % 2 ^ 64 else 2 ^ 63

unfoldable pub signed_value : Text → ℕ
unfolding digits_value
signed_value [] = 0
signed_value (c ∷ cs) =
    if c == 45
    then negative (digits_value 0 cs)
    else if c == 43
    then positive (digits_value 0 cs)
    else positive (digits_value 0 (c ∷ cs))

unfoldable pub atol : Text → ℕ
unfolding skip_spaces signed_value
atol cs = signed_value (skip_spaces cs)

unfoldable pub atoi : Text → ℕ
unfolding atol
atoi cs = atol cs % 2 ^ 32
