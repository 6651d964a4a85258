-- ===== src/Bridge/Checked.antt =====
-- Which locks and which burns pass the stateless checks.
use Prim.Native.String.{◌++◌ as text_append, [], ◌∷◌, len, slice}
use Prim.Native.String.len
use text.Mathlib.TextPositions.{len_utf8-pos, len-append, slice-append_left, slice-append_right}
use text.Mathlib.TextEquality.{slice-prefix}
use furynode.Prelude.{
  ◌≡◌, refl, sym, ap, ◌∙◌, subst, ◌↔◌, ◌≤◌, true, false, String, ◌==◌, arith, leb,
}
use furynode.Prelude.Int.{ℤ, pos, ◌≤ℤ◌}
use furynode.Prelude.Text.{str_eq, str_eq_iff}
use furynode.Prelude.Decimal.{format_int}
use furynode.Prelude.Decimal.Texts.{len-format_int}
use furynode.Chain.Action.{ok}
use furynode.Bridge.Claim.{Codec, TransferMsg}
use furynode.Bridge.Messages.{is_zero, validate_lock, validate_burn}

-- The sender and the receiver are given, the receiver is an address of Ethereum, the amount is
-- positive, and the ceth pays for 393000 units of gas at 60 gigawei each.
pub record IsTransfer (codec : Codec) (m : TransferMsg) : Type 0 where
  pub sender : ¬ (m.cosmos_sender ≡ "")
  pub given : ¬ (m.ethereum_receiver ≡ "")
  pub receiver : codec.is_hex_address m.ethereum_receiver ≡ true
  pub amount : pos 1 ≤ℤ m.amount
  pub gas : pos 23580000000000000 ≤ℤ m.ceth_amount

str_eq_not : (s t : String) → (str_eq s t ≡ false) ↔ ¬ (s ≡ t)
str_eq_not s t = ground (arith, str_eq_iff s t)

len_nil : (s : String) → s ≡ "" → len s ≡ 0
len_nil s e = ap len e

nonempty : (s : String) → ¬ (s ≡ "") → 1 ≤ len s
nonempty [] h = absurd (h refl)
nonempty (c ∷ s) h = let shown = len.cons c s in let (k, e) = len_utf8-pos c in omega arith

len_pos : (s : String) → ((len s == 0) ≡ false) ↔ ¬ (s ≡ "")
len_pos s = (λ h e. ground (arith, len_nil s e), λ h. ground (arith, nonempty s h))

chain_id_passes : (n : ℤ) → str_eq (format_int n) "" ≡ false
chain_id_passes n =
    let shown = len-format_int n in
    (str_eq_not (format_int n) "").1 (λ e. absurd (ground (arith, len_nil (format_int n) e)))

-- A lock passes the stateless checks if and only if its sender and its receiver are given, the
-- receiver is an address of Ethereum, the amount is positive, the ceth is 23580000000000000 or
-- more, and the symbol is not empty; no number of a chain is refused.
pub validate_lock-IsTransfer :
    (codec : Codec) (m : TransferMsg)
    → (validate_lock codec m ≡ ok tt) ↔ (IsTransfer codec m × ¬ (m.symbol ≡ ""))
unfolding validate_lock
validate_lock-IsTransfer codec m =
    let chain = chain_id_passes m.ethereum_chain_id in
    let sender = str_eq_not m.cosmos_sender "" in
    let receiver = str_eq_not m.ethereum_receiver "" in
    let symbol = len_pos m.symbol in
    (
      λ h. (
        record {
          sender = sender.0 (ground arith);
          given = receiver.0 (ground arith);
          receiver = ground arith;
          amount = ground arith;
          gas = ground arith;
        },
        symbol.0 (ground arith),
      ),
      λ h.
          rw (chain, sender.1 h.0.sender, receiver.1 h.0.given, h.0.receiver, symbol.1 h.1)
            (ground (arith, h.0.amount, h.0.gas)),
    )

is_zero_not : (n : ℤ) → (is_zero n ≡ false) ↔ ¬ (n ≡ pos 0)
is_zero_not n = ground arith

-- The letter "c", and two bytes or more.
abbrev pub IsPegged : String → Type 0
IsPegged s = (rest : String) × (text_append "c" rest ≡ s) × (2 ≤ len rest)

begins_with_c : (s : String) → leb (len s) 2 ≡ false → str_eq (slice s 0 1) "c" ≡ true → IsPegged s
begins_with_c s long c =
    let (rest, e) = slice-prefix s 1 in
    let first = (str_eq_iff (slice s 0 1) "c").0 c in
    let whole = sym (ap (λ p. text_append p rest) first) ∙ e in
    let sizes = len-append "c" rest in let size = ap len whole in (rest, whole, ground arith)

pegged_passes :
    (s : String)
    → IsPegged s
    → (leb (len s) 2 ≡ false)
      × (str_eq (slice s 0 1) "c" ≡ true)
      × ((len (slice s 1 (len s)) == 0) ≡ false)
pegged_passes s (rest, whole, long) =
    let sizes = len-append "c" rest in
    let left = slice-append_left "c" rest in
    let right = slice-append_right "c" rest in
    subst
      (λ s.
        (leb (len s) 2 ≡ false)
        × (str_eq (slice s 0 1) "c" ≡ true)
        × ((len (slice s 1 (len s)) == 0) ≡ false))
      whole
      (
        ground arith,
        (str_eq_iff (slice (text_append "c" rest) 0 1) "c").1 left,
        rw (sizes, right) (ground arith),
      )

-- A burn passes the stateless checks if and only if its sender and its receiver are given, the
-- receiver is an address of Ethereum, the amount is positive, the ceth is 23580000000000000 or
-- more, the chain is not zero, and the symbol is the letter "c" followed by two bytes or more.
pub validate_burn-IsTransfer :
    (codec : Codec) (m : TransferMsg)
    → (validate_burn codec m ≡ ok tt)
      ↔ (IsTransfer codec m × ¬ (m.ethereum_chain_id ≡ pos 0) × IsPegged m.symbol)
unfolding validate_burn
validate_burn-IsTransfer codec m =
    let sender = str_eq_not m.cosmos_sender "" in
    let receiver = str_eq_not m.ethereum_receiver "" in
    let chain = is_zero_not m.ethereum_chain_id in
    (
      λ h. (
        record {
          sender = sender.0 (ground arith);
          given = receiver.0 (ground arith);
          receiver = ground arith;
          amount = ground arith;
          gas = ground arith;
        },
        chain.0 (ground arith),
        begins_with_c m.symbol (ground arith) (ground arith),
      ),
      λ (t, c, p).
          let (long, prefixed, rest) = pegged_passes m.symbol p in
          rw (chain.1 c, sender.1 t.sender, receiver.1 t.given, t.receiver, long, prefixed, rest)
            (ground (arith, t.amount, t.gas)),
    )
