-- ===== src/Relay/Text.antt =====
-- The text operations of the Rust library that server/src/ uses. A text is the list of its
-- characters' numbers, a byte string the list of its bytes.
pub mod Equality
use mistake_agent.Prelude.{
  ℕ, ◌+◌, ◌-◌, ◌*◌, Option, none, some, Bool, true, false, ◌&&◌, ◌||◌, List, [], ◌∷◌, ◌++◌, String,
  leb, ltb, ◌==◌, if◌then◌else◌,
}
use Prim.Native.Char.{code}

abbrev pub Text : Type 0
Text = List ℕ

abbrev pub codes : String → Text
codes String.[] = []
codes (String.◌∷◌ c s) = code c ∷ codes s

abbrev pub is_empty : Text → Bool
is_empty [] = true
is_empty (c ∷ t) = false

abbrev pub same_text : Text → Text → Bool
same_text [] [] = true
same_text [] (d ∷ u) = false
same_text (c ∷ t) [] = false
same_text (c ∷ t) (d ∷ u) = c == d && same_text t u

abbrev within : ℕ → ℕ → ℕ → Bool
within low high n = leb low n && leb n high

-- `char::is_whitespace`: White_Space of Unicode.
abbrev pub is_whitespace : ℕ → Bool
is_whitespace c =
    within 9 13 c
    || c == 32
    || c == 133
    || c == 160
    || c == 5760
    || within 8192 8202 c
    || c == 8232
    || c == 8233
    || c == 8239
    || c == 8287
    || c == 12288

abbrev pub drop_start : (ℕ → Bool) → Text → Text
drop_start p [] = []
drop_start p (c ∷ t) = if p c then drop_start p t else c ∷ t

abbrev pub drop_end : (ℕ → Bool) → Text → Text
drop_end p [] = []
drop_end p (c ∷ t) = let rest = drop_end p t in if is_empty rest && p c then [] else c ∷ rest

abbrev pub trim_start : Text → Text
trim_start = drop_start is_whitespace

abbrev pub trim : Text → Text
trim t = drop_end is_whitespace (trim_start t)

abbrev pub strip_prefix : Text → Text → Option Text
strip_prefix [] t = some t
strip_prefix (p ∷ ps) [] = none
strip_prefix (p ∷ ps) (c ∷ t) = if p == c then strip_prefix ps t else none

-- `ends_with`.
abbrev pub ends_with : Text → Text → Bool
ends_with t [] = same_text t []
ends_with t (c ∷ u) = same_text t (c ∷ u) || ends_with t u

-- A character of which `left` bytes are still to come, the next of them from `low` to `high`.
pub record Partial : Type 0 where
  pub left : ℕ
  pub low : ℕ
  pub high : ℕ
  pub bits : ℕ

abbrev pub replacement : ℕ
replacement = 65533

abbrev begin : ℕ → ℕ → ℕ → ℕ → Text × Option Partial
begin left low high bits = ([], some (record { left = left; low = low; high = high; bits = bits }))

-- The first byte of a character (the table of well-formed byte sequences of Unicode).
abbrev pub first_byte : ℕ → Text × Option Partial
first_byte b =
    if ltb b 128
    then (b ∷ [], none)
    else if within 194 223 b
    then begin 1 128 191 (b - 192)
    else if b == 224
    then begin 2 160 191 0
    else if b == 237
    then begin 2 128 159 13
    else if within 225 239 b
    then begin 2 128 191 (b - 224)
    else if b == 240
    then begin 3 144 191 0
    else if within 241 243 b
    then begin 3 128 191 (b - 240)
    else if b == 244
    then begin 3 128 143 4
    else (replacement ∷ [], none)

abbrev pub next_byte : Partial → ℕ → Text × Option Partial
next_byte p b =
    if within p.low p.high b
    then if p.left == 1
      then ((p.bits * 64 + (b - 128)) ∷ [], none)
      else begin (p.left - 1) 128 191 (p.bits * 64 + (b - 128))
    else let (out, after) = first_byte b in (replacement ∷ out, after)

abbrev pub decode_byte : Option Partial → ℕ → Text × Option Partial
decode_byte none b = first_byte b
decode_byte (some p) b = next_byte p b

abbrev pub decode : Option Partial → List ℕ → Text
decode none [] = []
decode (some p) [] = replacement ∷ []
decode p (b ∷ bytes) = let (out, after) = decode_byte p b in out ++ decode after bytes

-- `String::from_utf8_lossy`.
unfoldable pub from_utf8_lossy : List ℕ → Text
from_utf8_lossy bytes = decode none bytes

abbrev starts_line_feed : Text → Bool
starts_line_feed [] = false
starts_line_feed (c ∷ t) = c == 10

abbrev pub add_first : ℕ → List Text → List Text
add_first c [] = (c ∷ []) ∷ []
add_first c (line ∷ lines) = (c ∷ line) ∷ lines

-- `lines`: a line ends before a line feed, and before a carriage return that stands in front of it.
abbrev pub lines : Text → List Text
lines [] = []
lines (c ∷ t) =
    let rest = lines t in
    if c == 10 then [] ∷ rest else if c == 13 && starts_line_feed t then rest else add_first c rest
