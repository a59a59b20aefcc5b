-- ===== src/Link/Receive.antt =====
-- tools/rpi-hub/bosun_hub/link.py: the receive buffer of UpstreamLink (_feed_bytes,
-- _is_own_reply). Bytes are numbers. `decode` stands for bytes.decode("utf-8", "replace").
pub mod Chunks
use Prim.Native.Char.{Char, code}
use text.Mathlib.Text.{starts_with}
use bosun_midi_captain.Base.{
  ℕ, String, Bool, true, false, Option, none, some, List, [], ◌∷◌, ◌++◌, ltb, nat_beq, length, ◌==◌,
  ◌||◌, ◌&&◌, same_nat, same_text, contains, if◌then◌else◌,
}
use bosun_midi_captain.Json.{Json, Value, Fields, str, obj, get_field}

-- RX_BUF_MAX
abbrev pub rx_buf_max : ℕ
rx_buf_max = 1048576

-- _HUB_ID_PREFIX
abbrev pub hub_id_prefix : String
hub_id_prefix = "__hub_"

abbrev pub newline : ℕ
newline = 10

-- What is left when everything up to the last newline is deleted, or all of it if there is none.
unfoldable pub after_last : List ℕ → List ℕ
after_last [] = []
after_last (b ∷ bs) =
    let rest = after_last bs in
    if contains newline bs then rest else if b == newline then bs else []

-- The overflow guard.
unfoldable pub trim : List ℕ → List ℕ
trim rx = if ltb rx_buf_max (length rx) then after_last rx else rx

-- The loop over the complete lines of the buffer; `line` holds the bytes since the last newline.
unfoldable pub split_lines : List ℕ → List ℕ → List (List ℕ) × List ℕ
split_lines line [] = ([], line)
split_lines line (b ∷ bs) = elim (b == newline) [
  | true ↦ let (lines, rest) = split_lines [] bs in (line ∷ lines, rest)
  | false ↦ split_lines (line ++ b ∷ []) bs
]

abbrev is_cr : Char → Bool
is_cr c = nat_beq (code c) 13

unfoldable pub strip_left : String → String
strip_left String.[] = String.[]
strip_left (String.◌∷◌ c s) = let rest = strip_left s in if is_cr c then rest else String.◌∷◌ c s

unfoldable pub strip_right : String → String
strip_right String.[] = String.[]
strip_right (String.◌∷◌ c s) =
    let rest = strip_right s in if is_cr c && rest == "" then String.[] else String.◌∷◌ c rest

-- line.strip("\r")
unfoldable pub strip_cr : String → String
strip_cr s = strip_right (strip_left s)

-- part in line
unfoldable pub is_infix : String → String → Bool
is_infix part String.[] = starts_with "" part
is_infix part (String.◌∷◌ c s) =
    let rest = is_infix part s in starts_with (String.◌∷◌ c s) part || rest

-- str(obj.get("id", "")).startswith(prefix): no other value is printed with this prefix.
unfoldable pub own_reply_id : Option Value → Bool
own_reply_id (some (str id)) = starts_with id hub_id_prefix
own_reply_id _ = false

unfoldable pub own_parsed : Option Value → Bool
own_parsed (some (obj msg)) = own_reply_id (get_field "id" msg)
own_parsed _ = false

module _ ⦃json : Json⦄ where
  -- UpstreamLink._is_own_reply
  unfoldable pub is_own_reply : String → Bool
  is_own_reply line = is_infix hub_id_prefix line && own_parsed (json.loads line)

  module _ (decode : List ℕ → String) where
    -- One raw line: what reaches on_line.
    unfoldable pub deliver_line : List ℕ → List String
    deliver_line raw =
        let line = strip_cr (decode raw) in
        if line == "" || is_own_reply line then [] else line ∷ []

    unfoldable pub deliver_lines : List (List ℕ) → List String
    deliver_lines [] = []
    deliver_lines (raw ∷ raws) = deliver_line raw ++ deliver_lines raws

    -- UpstreamLink._feed_bytes: the lines for on_line, and the buffer that remains.
    unfoldable pub feed_bytes : List ℕ → List ℕ → List String × List ℕ
    feed_bytes chunk rx =
        let (raws, rest) = split_lines [] (trim (rx ++ chunk)) in (deliver_lines raws, rest)
