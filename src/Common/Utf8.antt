-- ===== src/Common/Utf8.antt =====
-- `String::from_utf8` of the standard library: the bytes of a string are valid UTF-8.
use Prim.Native.Nat.{ℕ, zero, suc}
use mathlib.Core.Bool.{Bool, true, false, ◌&&◌}
use mathlib.Core.List.{[], ◌∷◌}
use mathlib.Core.Option.{Option, none, some}
use ldap.Common.Tests.{leb, ltb, ◌==◌, if◌then◌else◌}
use ldap.Common.Lists.{Bytes}

-- Between characters, or inside one: the next byte is between two bounds, and after it as many
-- continuation bytes are due.
pub data Utf8State : Type 0 where
  start dead : Utf8State
  inside : ℕ → ℕ → ℕ → Utf8State

abbrev lead : ℕ → Utf8State
lead b =
    if ltb b 0x80
    then start
    else if ltb b 0xc2
    then dead
    else if ltb b 0xe0
    then inside 0x80 0xbf 0
    else if b == 0xe0
    then inside 0xa0 0xbf 1
    else if b == 0xed
    then inside 0x80 0x9f 1
    else if ltb b 0xf0
    then inside 0x80 0xbf 1
    else if b == 0xf0
    then inside 0x90 0xbf 2
    else if ltb b 0xf4
    then inside 0x80 0xbf 2
    else if b == 0xf4
    then inside 0x80 0x8f 2
    else dead

abbrev continued : ℕ → Utf8State
continued zero = start
continued (suc n) = inside 0x80 0xbf n

unfoldable pub utf8_step : Utf8State → ℕ → Utf8State
utf8_step start b = lead b
utf8_step dead b = dead
utf8_step (inside lo hi n) b = if leb lo b && leb b hi then continued n else dead

unfoldable pub utf8_run : Utf8State → Bytes → Utf8State
utf8_run s [] = s
utf8_run s (b ∷ bs) = utf8_run (utf8_step s b) bs

abbrev pub is_start : Utf8State → Bool
is_start start = true
is_start dead = false
is_start (inside lo hi n) = false

unfoldable pub utf8_valid : Bytes → Bool
unfolding utf8_run utf8_step
utf8_valid bs = is_start (utf8_run start bs)

unfoldable pub from_utf8 : Bytes → Option Bytes
unfolding utf8_valid
from_utf8 bs = if utf8_valid bs then some bs else none
