-- ===== src/Prelude/Int.antt =====
-- Signed integers over the native numbers: `sdk.Int`, and `int64` with its wrap-around.
use furynode.Prelude.{
  ℕ, suc, ◌+◌, ◌-◌, ◌*◌, ◌/◌, ◌%◌, ◌^◌, ◌≤◌, ◌<◌, ◌≡◌, refl, ap, Bool, arith, ltb, leb,
  if◌then◌else◌,
}

-- `negsuc n` is -(n + 1).
pub data ℤ : Type 0 where
  pos : ℕ → ℤ
  negsuc : ℕ → ℤ

abbrev pub pos_part : ℤ → ℕ
pos_part (pos n) = n
pos_part (negsuc _) = 0

abbrev pub neg_part : ℤ → ℕ
neg_part (pos _) = 0
neg_part (negsuc n) = suc n

-- a - b, as an integer.
abbrev pub sub_ℕ : ℕ → ℕ → ℤ
sub_ℕ a b = if leb b a then pos (a - b) else negsuc (b - a - 1)

infixl 65 ◌+ℤ◌ ◌-ℤ◌
infix 50 ◌≤ℤ◌
unfoldable pub ◌+ℤ◌ : ℤ → ℤ → ℤ
a +ℤ b = sub_ℕ (pos_part a + pos_part b) (neg_part a + neg_part b)

unfoldable pub ◌-ℤ◌ : ℤ → ℤ → ℤ
a -ℤ b = sub_ℕ (pos_part a + neg_part b) (neg_part a + pos_part b)

abbrev pub ◌≤ℤ◌ : ℤ → ℤ → Type 0
a ≤ℤ b = pos_part a + neg_part b ≤ pos_part b + neg_part a

abbrev pub ltb_ℤ : ℤ → ℤ → Bool
ltb_ℤ a b = ltb (pos_part a + neg_part b) (pos_part b + neg_part a)

abbrev pub leb_ℤ : ℤ → ℤ → Bool
leb_ℤ a b = leb (pos_part a + neg_part b) (pos_part b + neg_part a)

-- With these the operations can stay shut.
pub +ℤ_parts :
    (a b : ℤ)
    → pos_part (a +ℤ b) + neg_part a + neg_part b ≡ neg_part (a +ℤ b) + pos_part a + pos_part b
unfolding ◌+ℤ◌
+ℤ_parts a b = ground arith

pub eq_of_parts : (a b : ℤ) → pos_part a + neg_part b ≡ pos_part b + neg_part a → a ≡ b
eq_of_parts a b h = ground arith

pub ruleset int_laws = (arith, +ℤ_parts, eq_of_parts)

-- An integer modulo 2 ^ 64.
unfoldable pub residue : ℤ → ℕ
residue (pos n) = n % 2 ^ 64
residue (negsuc n) = 2 ^ 64 - 1 - n % 2 ^ 64

-- A residue read as two's complement.
unfoldable pub signed : ℕ → ℤ
signed r = if ltb r (2 ^ 63) then pos r else negsuc (2 ^ 64 - r - 1)

-- `a + b` and `a - b` on `int64`.
infixl 65 ◌+64◌ ◌-64◌
unfoldable pub ◌+64◌ : ℤ → ℤ → ℤ
unfolding ◌+ℤ◌ residue signed
a +64 b = signed (residue (a +ℤ b))

unfoldable pub ◌-64◌ : ℤ → ℤ → ℤ
unfolding ◌-ℤ◌ residue signed
a -64 b = signed (residue (a -ℤ b))

-- Below 2 ^ 63 the sum does not wrap.
pub +64-pos : (a b : ℕ) → a + b < 2 ^ 63 → pos a +64 pos b ≡ pos (a + b)
unfolding ◌+64◌
+64-pos a b h = ground arith

residue-lt : (a : ℤ) → residue a < 2 ^ 64
unfolding residue
residue-lt (pos n) = omega arith
residue-lt (negsuc n) = omega arith

residue-signed : (r : ℕ) → r < 2 ^ 64 → residue (signed r) ≡ r
unfolding residue signed
residue-signed r h = ground arith

residue-add : (a b : ℤ) → residue (a +ℤ b) ≡ (residue a + residue b) % 2 ^ 64
unfolding residue ◌+ℤ◌
residue-add (pos a) (pos b) = ground arith
residue-add (pos a) (negsuc b) = ground arith
residue-add (negsuc a) (pos b) = ground arith
residue-add (negsuc a) (negsuc b) = ground arith

add64-residue : (a b : ℤ) → a +64 b ≡ signed ((residue a + residue b) % 2 ^ 64)
unfolding ◌+64◌
add64-residue a b = ap signed (residue-add a b)

-- A running `int64` total does not depend on the order of two terms.
pub +64-right_comm : (a b c : ℤ) → a +64 b +64 c ≡ a +64 c +64 b
+64-right_comm a b c =
    let x = residue a in
    let y = residue b in
    let z = residue c in
    simp (add64-residue) (
      rw
        (
          residue-signed ((x + y) % 2 ^ 64) (omega arith),
          residue-signed ((x + z) % 2 ^ 64) (omega arith),
        )
        (ap signed (omega arith)))
