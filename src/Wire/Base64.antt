-- ===== src/Wire/Base64.antt =====
-- `log_data` and the base64 text of `encode_log_data` of protocol/wire.py.
use Prim.Native.Char.{Char, code}
use Prim.Native.String.{String}
use zephyr_remote_openocd.Shared.{
  ℕ, zero, suc, ◌+◌, ◌*◌, ◌/◌, ◌%◌, not, ◌&&◌, Option, none, some, List, [], ◌∷◌, ◌++◌,
  if◌then◌else◌, nat_beq, ltb, leb, length, string_eq, ◌==◌, Result, ok, raised, protocol_error,
}
use zephyr_remote_openocd.Wire.Frames.{Bytes}
use zephyr_remote_openocd.Wire.Json.{Json, codes}

abbrev pub max_log_data_bytes : ℕ
max_log_data_bytes = 64 * 1024

abbrev pub max_log_data_text : ℕ
max_log_data_text = 4 * ((max_log_data_bytes + 2) / 3)

-- The standard alphabet. The last character is that of 63.
abbrev pub alphabet : String
alphabet = "ABCDEFGHIJKLMNOPQRSTUVWXYZabcdefghijklmnopqrstuvwxyz0123456789+/"

nth : ℕ → String → Char
nth n String.[] = "="
nth zero (String.◌∷◌ c s) = c
nth (suc n) (String.◌∷◌ c s) = nth n s

unfoldable pub digit : ℕ → Char
unfolding nth
digit n = nth n alphabet

index : ℕ → ℕ → String → Option ℕ
index c n String.[] = none
index c n (String.◌∷◌ d s) =
    let rest = index c (n + 1) s in if nat_beq c (code d) then some n else rest

unfoldable pub value : ℕ → Option ℕ
unfolding index
value c = index c 0 alphabet

-- `base64.b64encode(data).decode("ascii")`
unfoldable pub b64encode : Bytes → String
unfolding digit
b64encode [] = ""
b64encode (a ∷ []) = String.◌∷◌ (digit (a / 4)) (String.◌∷◌ (digit (a % 4 * 16)) "==")
b64encode (a ∷ b ∷ []) =
    String.◌∷◌ (digit (a / 4))
      (String.◌∷◌ (digit (a % 4 * 16 + b / 16)) (String.◌∷◌ (digit (b % 16 * 4)) "="))
b64encode (a ∷ b ∷ c ∷ rest) = String.◌∷◌ (digit (a / 4)) (
    String.◌∷◌ (digit (a % 4 * 16 + b / 16))
      (String.◌∷◌ (digit (b % 16 * 4 + c / 64)) (String.◌∷◌ (digit (c % 64)) (b64encode rest))))

-- One group of four characters; `=` (61) may stand in the last two places.
group : ℕ → ℕ → ℕ → ℕ → Option Bytes
unfolding value
group p q r s = elim (value p) [
  | none ↦ none
  | some x ↦ elim (value q) [
    | none ↦ none
    | some y ↦
        if nat_beq r 61 && nat_beq s 61 then some ((x * 4 + y / 16) ∷ []) else elim (value r) [
          | none ↦ none
          | some z ↦
              if nat_beq s 61
              then some ((x * 4 + y / 16) ∷ (y % 16 * 16 + z / 4) ∷ [])
              else elim (value s) [
                | none ↦ none
                | some w ↦ some ((x * 4 + y / 16) ∷ (y % 16 * 16 + z / 4) ∷ (z % 4 * 64 + w) ∷ [])
              ]
        ]
  ]
]

abbrev pub join : Option Bytes → Option Bytes → Option Bytes
join none later = none
join (some xs) none = none
join (some xs) (some ys) = some (xs ++ ys)

-- `base64.b64decode(text, validate=True)`. A text that is decoded here and by Python alike is all that
-- matters: `log_data` refuses every text that is not the encoding of its bytes.
unfoldable pub b64decode : List ℕ → Option Bytes
unfolding group
b64decode [] = some []
b64decode (p ∷ q ∷ r ∷ s ∷ rest) = join (group p q r s) (b64decode rest)
b64decode _ = none

canonical : String → Option Bytes → Result Bytes
unfolding b64encode
canonical text none = raised (protocol_error "invalid LOG_DATA data")
canonical text (some bytes) =
    if not (b64encode bytes == text)
    then raised (protocol_error "invalid LOG_DATA data")
    else if not (ltb 0 (length bytes) && leb (length bytes) max_log_data_bytes)
    then raised (protocol_error "invalid LOG_DATA data size")
    else ok bytes

-- `log_data` on the value of the field `data`
unfoldable pub log_data : Option Json → Result Bytes
unfolding canonical b64decode
log_data (some (Json.str text)) =
    if not (ltb 0 (length (codes text)) && leb (length (codes text)) max_log_data_text)
    then raised (protocol_error "invalid LOG_DATA data")
    else canonical text (b64decode (codes text))
log_data _ = raised (protocol_error "invalid LOG_DATA data")
