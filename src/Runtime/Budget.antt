-- ===== src/Runtime/Budget.antt =====
-- fusen/src/runtime/budget.rs: `ByteBudget` under any interleaving of its users, and the writer that
-- is charged to it. An action is one atomic access of `used`. A permit that grows is in the hands of
-- the caller that grows it.
pub mod Accounting
pub mod Writer
use fusen_rs.Prelude.{
  ℕ, zero, suc, ◌+◌, ◌-◌, ◌%◌, ◌^◌, Bool, true, false, Option, none, some, ltb, leb, ◌==◌,
  if◌then◌else◌, List, [], ◌∷◌, get_elem?, remove_at, set,
}

abbrev pub usize_limit : ℕ
usize_limit = 2 ^ 64

-- `usize::checked_add`.
unfoldable pub checked_add : ℕ → ℕ → Option ℕ
checked_add a b = if ltb (a + b) usize_limit then some (a + b) else none

-- The value that a round of `try_add` wants to store, if it goes on.
unfoldable pub next_used : ℕ → ℕ → ℕ → Option ℕ
unfolding checked_add
next_used limit current bytes = elim (checked_add current bytes) [
  | none ↦ none
  | some next ↦ if ltb limit next then none else some next
]

-- A call of `try_add`, with the bytes of the permit that it grows, if any.
pub data Adder : Type 0 where
  -- `current` was read.
  adding : (bytes current : ℕ) (held : Option ℕ) → Adder
  -- The exchange succeeded.
  granted : (bytes : ℕ) (held : Option ℕ) → Adder

pub record ByteBudget : Type 0 where
  pub limit : ℕ
  pub used : ℕ
  pub permits : List ℕ
  pub adders : List Adder

unfoldable pub new : ℕ → ByteBudget
new limit = record { limit = limit; used = 0; permits = []; adders = [] }

pub data Action : Type 0 where
  -- `try_reserve`, and `grow` of a permit.
  reserve : (bytes : ℕ) → Action
  grow : (permit bytes : ℕ) → Action
  -- A round of the loop of `try_add`, and the end of the call that was granted.
  round settle : (adder : ℕ) → Action
  -- A permit is dropped.
  release : (permit : ℕ) → Action

-- The permits with the one that a finished call leaves behind.
abbrev pub give_back : Option ℕ → List ℕ → List ℕ
give_back none ps = ps
give_back (some h) ps = h ∷ ps

abbrev pub held_bytes : Option ℕ → ℕ
held_bytes none = 0
held_bytes (some h) = h

-- One round: refused by the bound, done by the exchange, or another round with the value found.
unfoldable pub try_add_round : ByteBudget → ℕ → Adder → ByteBudget
unfolding next_used
try_add_round b i (adding bytes current held) = elim (next_used b.limit current bytes) [
  | none ↦ record b { permits = give_back held b.permits; adders = remove_at i b.adders }
  | some next ↦
      if b.used == current
      then record b { used = next; adders = set b.adders i (granted bytes held) }
      else record b { adders = set b.adders i (adding bytes b.used held) }
]
try_add_round b i (granted bytes held) = b

unfoldable pub settle_call : ByteBudget → ℕ → Adder → ByteBudget
settle_call b i (adding bytes current held) = b
settle_call b i (granted bytes held) = record b {
  permits = (held_bytes held + bytes) ∷ b.permits;
  adders = remove_at i b.adders;
}

-- An action that names no permit or call is none.
unfoldable pub step : ByteBudget → Action → ByteBudget
unfolding try_add_round settle_call
step b (reserve bytes) = record b { adders = adding bytes b.used none ∷ b.adders }
step b (grow i bytes) = elim (get_elem? b.permits i) [
  | none ↦ b
  | some held ↦ record b {
    permits = remove_at i b.permits;
    adders = adding bytes b.used (some held) ∷ b.adders;
  }
]
step b (round i) = elim (get_elem? b.adders i) [ none ↦ b | some a ↦ try_add_round b i a ]
step b (settle i) = elim (get_elem? b.adders i) [ none ↦ b | some a ↦ settle_call b i a ]
step b (release i) = elim (get_elem? b.permits i) [
  | none ↦ b
  | some bytes ↦ record b {
    used = (b.used + usize_limit - bytes) % usize_limit;
    permits = remove_at i b.permits;
  }
]

unfoldable pub run : ByteBudget → List Action → ByteBudget
run b [] = b
run b (a ∷ rest) = run (step b a) rest
