-- ===== src/Node/Hex.antt =====
-- src/node.rs: `TryFrom<&str>` and `Display`. A string is the list of its characters' code points.
use Prim.Native.Char.{code}
use Prim.Native.String.{String}
use rs_merkle_tree.Run.{Run, ok, panic}
use rs_merkle_tree.Base.{
  true, ap, replicate, refl, append_assoc, length-replicate, length-append, sym, arith, All, ◌∙◌,
  lt→ltb, set, suc, zero, false, none, ◌++◌, [], ◌-◌, ◌&&◌, ◌≤◌, ◌*◌, some, ◌%◌, ◌≡◌, ◌==◌, ◌/◌,
  leb, ◌+◌, ltb, ◌<◌, length, Option, ◌∷◌, if◌then◌else◌, ℕ, List,
}
use rs_merkle_tree.Node.{IsNode, len, Node}

-- The code points of a text.
abbrev pub code_points : String → List ℕ
code_points String.[] = []
code_points (String.◌∷◌ c s) = code c ∷ code_points s

pub data HexError : Type 0 where
  wrong_length : HexError
  invalid_character : HexError

pub data Parsed (A : Type 0) : Type 0 where
  parsed : A → Parsed A
  refused : HexError → Parsed A

infixl 5 ◌>>=◌
abbrev ◌>>=◌ : {A B : Type 0} → Parsed A → (A → Parsed B) → Parsed B
parsed a >>= f = f a
refused e >>= f = refused e

-- The number of bytes of a character in UTF-8.
abbrev utf8_len : ℕ → ℕ
utf8_len c = if ltb c 128 then 1 else if ltb c 2048 then 2 else if ltb c 65536 then 3 else 4

-- `str::len`
unfoldable byte_len : List ℕ → ℕ
byte_len [] = 0
byte_len (c ∷ s) = utf8_len c + byte_len s

-- The value of a hexadecimal digit, of either case.
abbrev digit_of : ℕ → Option ℕ
digit_of c =
    if leb 48 c && leb c 57
    then some (c - 48)
    else if leb 97 c && leb c 102
    then some (c - 87)
    else if leb 65 c && leb c 70
    then some (c - 55)
    else none

-- `u8::from_str_radix(s, 16)` on at most two characters: a plus sign may stand before a digit.
unfoldable from_str_radix : List ℕ → Option ℕ
from_str_radix (c ∷ []) = digit_of c
from_str_radix (c ∷ d ∷ []) = if c == 43 then digit_of d else elim (digit_of c) [
  | none ↦ none
  | some hi ↦ elim (digit_of d) [ none ↦ none | some lo ↦ some (hi * 16 + lo) ]
]
from_str_radix _ = none

-- `hex.strip_prefix("0x").unwrap_or(hex)`
unfoldable strip_prefix : List ℕ → List ℕ
strip_prefix (c ∷ d ∷ s) = if c == 48 && d == 120 then s else c ∷ d ∷ s
strip_prefix s = s

-- The loop over the chunks of two characters, from chunk `i` on.
unfoldable fill_bytes : ℕ → List ℕ → List ℕ → Parsed (List ℕ)
unfolding from_str_radix
fill_bytes i [] bytes = parsed bytes
fill_bytes i (c ∷ []) bytes =
    if ltb i len
    then elim (from_str_radix (c ∷ [])) [
      | none ↦ refused invalid_character
      | some b ↦ parsed (set bytes i b)
    ]
    else parsed bytes
fill_bytes i (c ∷ d ∷ s) bytes =
    if ltb i len
    then elim (from_str_radix (c ∷ d ∷ [])) [
      | none ↦ refused invalid_character
      | some b ↦ fill_bytes (suc i) s (set bytes i b)
    ]
    else fill_bytes (suc i) s bytes

-- `Node::try_from`
unfoldable pub try_from : List ℕ → Parsed Node
unfolding byte_len strip_prefix fill_bytes
try_from s =
    let hex = strip_prefix s in
    if byte_len hex == 64
    then (fill_bytes 0 hex (replicate len 0) >>= λ bytes. parsed (record { bytes = bytes }))
    else refused wrong_length

-- `to_node!`: an error is a panic.
unfoldable pub to_node : List ℕ → Run Node
to_node s = elim (try_from s) [ parsed n ↦ ok n | refused e ↦ panic ]

-- A hexadecimal digit, in lower case.
abbrev hex_digit : ℕ → ℕ
hex_digit d = if ltb d 10 then 48 + d else 87 + d

-- `format!("{:02x}", byte)` for each byte
unfoldable hex_bytes : List ℕ → List ℕ
hex_bytes [] = []
hex_bytes (b ∷ bytes) = hex_digit (b / 16) ∷ hex_digit (b % 16) ∷ hex_bytes bytes

-- `Display`
unfoldable pub display : Node → List ℕ
unfolding hex_bytes
display n = 48 ∷ 120 ∷ hex_bytes n.bytes

digit_of-hex_digit : (d : ℕ) → d < 16 → digit_of (hex_digit d) ≡ some d
digit_of-hex_digit d h = ground arith

from_str_radix-hex :
    (b : ℕ) → b < 256 → from_str_radix (hex_digit (b / 16) ∷ hex_digit (b % 16) ∷ []) ≡ some b
unfolding from_str_radix
from_str_radix-hex b h =
    let value : b / 16 * 16 + b % 16 ≡ b = omega arith in
    let no_sign : (hex_digit (b / 16) == 43) ≡ false = ground arith in
    rw (
      no_sign,
      digit_of-hex_digit (b / 16) (omega arith),
      digit_of-hex_digit (b % 16) (omega arith),
      value,
    )

byte_len-hex_bytes :
    (bytes : List ℕ) → All (λ b. b < 256) bytes → byte_len (hex_bytes bytes) ≡ length bytes * 2
unfolding byte_len hex_bytes
byte_len-hex_bytes [] h = refl
byte_len-hex_bytes (b ∷ bytes) h =
    let hi : utf8_len (hex_digit (b / 16)) ≡ 1 = ground (arith, h.0) in
    let lo : utf8_len (hex_digit (b % 16)) ≡ 1 = ground arith in
    rw (hi, lo) (omega (arith, byte_len-hex_bytes bytes h.1))

set-append :
    (done rest : List ℕ) (i r b : ℕ)
    → length done ≡ i
    → set (done ++ r ∷ rest) i b ≡ (done ++ b ∷ []) ++ rest
set-append [] rest zero r b at = refl
set-append [] rest (suc i) r b at = absurd (omega arith)
set-append (d ∷ done) rest zero r b at = absurd (omega arith)
set-append (d ∷ done) rest (suc i) r b at = ap (◌∷◌ d) (set-append done rest i r b (omega arith))

fill_bytes-hex_bytes :
    (i : ℕ) (done bytes rest : List ℕ)
    → length done ≡ i
    → length bytes ≡ length rest
    → i + length bytes ≤ len
    → All (λ b. b < 256) bytes
    → fill_bytes i (hex_bytes bytes) (done ++ rest) ≡ parsed (done ++ bytes)
unfolding fill_bytes hex_bytes
fill_bytes-hex_bytes i done [] [] at same room h = refl
fill_bytes-hex_bytes i done [] (r ∷ rest) at same room h = absurd (omega arith)
fill_bytes-hex_bytes i done (b ∷ bytes) [] at same room h = absurd (omega arith)
fill_bytes-hex_bytes i done (b ∷ bytes) (r ∷ rest) at same room h =
    rw (lt→ltb i len (omega arith), from_str_radix-hex b h.0, set-append done rest i r b at)
      (fill_bytes-hex_bytes (suc i) (done ++ b ∷ []) bytes rest
          (omega (arith, length-append done (b ∷ []))) (omega arith) (omega arith) h.1
        ∙ ap parsed (append_assoc done (b ∷ []) bytes))

-- The text of a node of 32 bytes is read back as that node.
pub try_from-display : (n : Node) → IsNode n → try_from (display n) ≡ parsed n
unfolding try_from display strip_prefix
try_from-display n h =
    let size : (byte_len (hex_bytes n.bytes) == 64) ≡ true =
      ground (arith, byte_len-hex_bytes n.bytes h.1, h.0) in
    rw (
      size,
      fill_bytes-hex_bytes 0 [] n.bytes (replicate len 0) refl
          (h.0 ∙ sym (length-replicate {A = ℕ} len 0)) (omega (arith, h.0)) h.1,
    )
