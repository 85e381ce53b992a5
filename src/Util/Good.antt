-- ===== src/Util/Good.antt =====
-- Results of the tool without a fault, and the parts of a command that only read the device.
use smr_simulator.Base.{
  ℕ, ◌≡◌, ◌⊎◌, refl, arith, inl, inr, Bool, true, false, List, [], ◌∷◌, Bool-cases, Option-cases,
  if◌then◌else◌, Option, some, none,
}
use smr_simulator.Types.{success}
use smr_simulator.State.{Sim}
use smr_simulator.Ioctl.{word, Cmd, Outcome}
use smr_simulator.Util.Run.{
  Run, Result, fault, left, next, Tool, Driver, Msg, ioctl_call, ioctl_say, malloc_or_break, scanf,
  argument, number_or_break, chain,
}

pub List-cases : {A : Type 0} (xs : List A) → (xs ≡ []) ⊎ ((x : A) × (ys : List A) × (xs ≡ x ∷ ys))
List-cases [] = inl refl
List-cases (x ∷ xs) = inr (x, xs, refl)

-- No fault; the device satisfies `P`, and a value that is handed on satisfies `Q`.
abbrev pub Good : {A : Type 0} → (Sim → Type 0) → (A → Type 0) → Result A → Type 0
Good P Q fault = ⊥
Good P Q (left r) = P r.device
Good P Q (next a r) = P r.device × Q a

abbrev pub Any : {A : Type 0} → A → Type 0
Any a = Unit

module _ {A B : Type 0} (P P' : Sim → Type 0) (Q : A → Type 0) (Q' : B → Type 0)
    (w : (d : Sim) → P d → P' d) (f : A → Tool B)
    (k : (a : A) (r : Run) → P r.device → Q a → Good P' Q' (f a r)) where
  pub chain-Good : (x : Result A) → Good P Q x → Good P' Q' (chain x f)
  chain-Good fault h = h
  chain-Good (left r) h = w r.device h
  chain-Good (next a r) h = k a r (h.0) (h.1)

-- A call that returns, and what it leaves of the device.
abbrev pub Leaves : (Sim → Type 0) → Option Outcome → Type 0
Leaves P none = ⊥
Leaves P (some o) = P o.state

pub ioctl-Good :
    (P : Sim → Type 0) (call : Driver) (cmd : Cmd) (r : Run)
    → Leaves P (call r.device cmd)
    → Good P Any (ioctl_call call cmd r)
ioctl-Good P call cmd r h = elim (Option-cases (call r.device cmd)) [
  | inl e ↦ ground (arith, e, h)
  | inr (o, e) ↦ ground (arith, e, h)
]

pub ioctl_say-Good :
    (P : Sim → Type 0) (call : Driver) (cmd : Cmd) (m : Msg) (r : Run)
    → Leaves P (call r.device cmd)
    → Good P Any (ioctl_say call cmd m r)
ioctl_say-Good P call cmd m r h = elim (Option-cases (call r.device cmd)) [
  | inl e ↦ ground (arith, e, h)
  | inr (o, e) ↦ ground (arith, e, h)
]

pub number-Good :
    (P : Sim → Type 0) (call : Driver) (cmd : Cmd) (r : Run) (n : ℕ)
    → call r.device cmd ≡ some (record { code = success; reply = word n; state = r.device })
    → P r.device
    → Good P (λ m. m ≡ n) (number_or_break call cmd r)
number-Good P call cmd r n e p = ground (arith, e, p)

pub argument-Good :
    {A : Type 0} (P : Sim → Type 0) (t : Option A) (a : A) (r : Run)
    → P r.device
    → Good P (λ u. t ≡ some u) (argument t a r)
argument-Good P none a r p = p
argument-Good P (some t) a r p = (p, refl)

pub malloc-Good : (P : Sim → Type 0) (r : Run) → P r.device → Good P Any (malloc_or_break r)
malloc-Good P r p = elim (List-cases r.mallocs) [
  | inl e ↦ ground (arith, e, p)
  | inr (b, bs, e) ↦ elim (Bool-cases b) [
    | inl h ↦ ground (arith, e, h, p)
    | inr h ↦ ground (arith, e, h, p)
  ]
]

pub scanf-Good : (P : Sim → Type 0) (old : ℕ) (r : Run) → P r.device → Good P Any (scanf old r)
scanf-Good P old r p = elim (List-cases r.input) [
  | inl e ↦ ground (arith, e, p)
  | inr (b, bs, e) ↦ ground (arith, e, p)
]

pub if-Good :
    {A : Type 0} (P : Sim → Type 0) (Q : A → Type 0) (b : Bool) (m k : Tool A) (r : Run)
    → (b ≡ true → Good P Q (m r))
    → (b ≡ false → Good P Q (k r))
    → Good P Q ((if b then m else k) r)
if-Good P Q true m k r hm hk = hm refl
if-Good P Q false m k r hm hk = hk refl
