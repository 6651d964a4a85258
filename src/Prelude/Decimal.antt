-- ===== src/Prelude/Decimal.antt =====
-- Integers as texts: `strconv.FormatInt` and the verb `%d`, on `int64`.
pub mod Texts
use Prim.Native.String.{◌++◌ as text_append, slice}
use furynode.Prelude.{ℕ, zero, suc, ◌+◌, ◌/◌, ◌%◌, String, ltb, if◌then◌else◌}
use furynode.Prelude.Int.{ℤ, pos, negsuc}

-- `strconv.FormatInt(n, 10)` on `int64`, which has 19 digits at most.
digit : ℕ → String
digit d = slice "0123456789" d (d + 1)

decimal : ℕ → ℕ → String → String
decimal zero n acc = acc
decimal (suc fuel) n acc =
    let rest = decimal fuel (n / 10) (text_append (digit (n % 10)) acc) in
    if ltb n 10 then text_append (digit n) acc else rest

unfoldable pub format_int : ℤ → String
unfolding digit decimal
format_int (pos n) = decimal 20 n ""
format_int (negsuc n) = text_append "-" (decimal 20 (suc n) "")
