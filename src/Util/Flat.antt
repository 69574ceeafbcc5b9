-- ===== src/Util/Flat.antt =====
-- The escaped form in one piece, and the facts about it (src/util.rs).
use ldap.Common.{
  ℕ, zero, suc, ◌+◌, ◌/◌, ◌%◌, ◌^◌, ◌<◌, bit_and, ◌≡◌, refl, ap, Bool, true, Option, none, some, [],
  ◌∷◌, ◌++◌, Bytes, ok, length, if◌then◌else◌, Bool-cases, inl, inr, arith, append_assoc,
  append-nil, length-append, take-append, ==_iff, ◌==◌, leb,
}
use ldap.Common.Bits.{every_below, every_below-lookup}
use ldap.Common.Utf8.{
  Utf8State, start, dead, inside, utf8_step, utf8_run, utf8_valid, from_utf8, is_start,
}
use ldap.Util.Escape.{xdigit, escape_loop, finish_escape}

-- One byte of the input, escaped or not.
abbrev pub escape_one : Bool → ℕ → Bytes
escape_one b c = if b then b'\\' ∷ xdigit (c / 2 ^ 4) ∷ xdigit (bit_and c 0xf) ∷ [] else c ∷ []

unfoldable pub escaped : (ℕ → ℕ → Bool) → ℕ → Bytes → Bytes
escaped esc i [] = []
escaped esc i (c ∷ cs) = escape_one (esc i c) c ++ escaped esc (i + 1) cs

abbrev pub output_or : Bytes → Option Bytes → Bytes
output_or lit none = lit
output_or lit (some output) = output

escape_loop-some :
    (esc : ℕ → ℕ → Bool) (lit cs out : Bytes) (i : ℕ)
    → escape_loop esc lit cs i (some out) ≡ some (out ++ escaped esc i cs)
unfolding escape_loop escaped
escape_loop-some esc lit [] out i = rw append-nil
escape_loop-some esc lit (c ∷ cs) out i = elim (Bool-cases (esc i c)) [
  | inl e ↦ rw (e, escape_loop-some esc lit cs _ (i + 1), append_assoc)
  | inr e ↦ rw (e, escape_loop-some esc lit cs _ (i + 1), append_assoc)
]

-- The loop leaves the input alone or builds its escaped form.
escape_loop-none :
    (esc : ℕ → ℕ → Bool) (done cs : Bytes)
    → output_or (done ++ cs) (escape_loop esc (done ++ cs) cs (length done) none)
      ≡ done ++ escaped esc (length done) cs
unfolding escape_loop escaped
escape_loop-none esc done [] = refl
escape_loop-none esc done (c ∷ cs) = elim (Bool-cases (esc (length done) c)) [
  | inl e ↦ rw (
    e,
    take-append done (c ∷ cs),
    escape_loop-some esc (done ++ c ∷ cs) cs (done ++ escape_one true c) (length done + 1),
    append_assoc,
  )
  | inr e ↦
      let ih = escape_loop-none esc (done ++ c ∷ []) cs in
      rw e (
        rw (append_assoc done (c ∷ []) cs, length-append done (c ∷ []), append_assoc done (c ∷ []))
          at ih)
]

-- What the loop builds, from the start.
pub escape_loop-escaped :
    (esc : ℕ → ℕ → Bool) (lit : Bytes)
    → output_or lit (escape_loop esc lit lit 0 none) ≡ escaped esc 0 lit
escape_loop-escaped esc lit = escape_loop-none esc [] lit

-- Escaping keeps valid UTF-8 valid: it touches bytes below 0x80 only.
abbrev pub EscapesAscii : (ℕ → ℕ → Bool) → Type 0
EscapesAscii esc = (i c : ℕ) → esc i c ≡ true → c < 128

dead_stays : (bs : Bytes) → utf8_run dead bs ≡ dead
unfolding utf8_run utf8_step
dead_stays [] = refl
dead_stays (b ∷ bs) = dead_stays bs

xdigit_ascii : (d : ℕ) → d < 16 → xdigit d < 128
xdigit_ascii d h = ground arith

low_table : every_below 256 (λ c. bit_and c 0xf == c % 16) ≡ true
unfolding every_below
low_table = refl

pub low_nibble : (c : ℕ) → c < 256 → bit_and c 0xf ≡ c % 16
low_nibble c h = (==_iff _ (c % 16)).0 (every_below-lookup 256 _ c low_table h)

start_ascii : (c : ℕ) → c < 128 → utf8_step start c ≡ start
unfolding utf8_step
start_ascii c h = ground arith

run_ascii :
    (a b c : ℕ) (bs : Bytes)
    → a < 128
    → b < 128
    → c < 128
    → utf8_run start (a ∷ b ∷ c ∷ bs) ≡ utf8_run start bs
unfolding utf8_run
run_ascii a b c bs ha hb hc = rw (start_ascii a ha, start_ascii b hb, start_ascii c hc)

run_escape :
    (c : ℕ) (bs : Bytes) → c < 128 → utf8_run start (escape_one true c ++ bs) ≡ utf8_run start bs
run_escape c bs h =
    run_ascii b'\\' (xdigit (c / 16)) (xdigit (bit_and c 0xf)) bs (omega arith)
      (xdigit_ascii (c / 16) (omega arith))
      (xdigit_ascii (bit_and c 0xf) (omega (arith, low_nibble c (omega arith))))

-- Inside a character only bytes from 0x80 on may come.
abbrev is_proper : Utf8State → Bool
is_proper start = true
is_proper dead = true
is_proper (inside lo hi n) = leb 128 lo

lead_proper : (c : ℕ) → is_proper (utf8_step start c) ≡ true
unfolding utf8_step
lead_proper c = ground arith

step_proper : (s : Utf8State) (c : ℕ) → is_proper s ≡ true → is_proper (utf8_step s c) ≡ true
step_proper start c h = lead_proper c
step_proper dead c h = unfold utf8_step in refl
step_proper (inside lo hi zero) c h = unfold utf8_step in ground arith
step_proper (inside lo hi (suc n)) c h = unfold utf8_step in ground arith

run_cons : (s : Utf8State) (c : ℕ) (cs : Bytes) → utf8_run s (c ∷ cs) ≡ utf8_run (utf8_step s c) cs
unfolding utf8_run
run_cons s c cs = refl

-- A byte below 0x80 in a valid string stands between characters.
ascii_start :
    (s : Utf8State) (c : ℕ) (cs : Bytes)
    → is_proper s ≡ true
    → c < 128
    → utf8_run s (c ∷ cs) ≡ start
    → s ≡ start
ascii_start start c cs h hc e = refl
ascii_start dead c cs h hc e = cc (dead_stays (c ∷ cs))
ascii_start (inside lo hi n) c cs h hc e =
    let stuck : utf8_step (inside lo hi n) c ≡ dead = unfold utf8_step in ground arith in
    cc (rw (run_cons (inside lo hi n) c cs, stuck) at e, dead_stays cs)

escaped_valid :
    (esc : ℕ → ℕ → Bool) (cs : Bytes) (i : ℕ) (s : Utf8State)
    → EscapesAscii esc
    → is_proper s ≡ true
    → utf8_run s cs ≡ start
    → utf8_run s (escaped esc i cs) ≡ start
unfolding escaped
escaped_valid esc [] i s ascii proper h = h
escaped_valid esc (c ∷ cs) i s ascii proper h = elim (Bool-cases (esc i c)) [
  | inl e ↦
      let low = ascii i c e in
      let here = ascii_start s c cs proper low h in
      let later : utf8_run start cs ≡ start =
        rw (here, run_cons start c cs, start_ascii c low) at h in
      rw (e, here, run_escape c _ low) (escaped_valid esc cs (i + 1) start ascii refl later)
  | inr e ↦
      rw (e, run_cons s c (escaped esc (i + 1) cs))
        (escaped_valid esc cs (i + 1) (utf8_step s c) ascii (step_proper s c proper)
          (rw (run_cons s c cs) at h))
]

start_of : (s : Utf8State) → is_start s ≡ true → s ≡ start
start_of start h = refl
start_of dead h = cc
start_of (inside lo hi n) h = cc

-- The escaped form of a string is a string, so the `expect` in the escaping functions holds.
pub from_utf8-escaped :
    (esc : ℕ → ℕ → Bool) (lit : Bytes)
    → EscapesAscii esc
    → utf8_valid lit ≡ true
    → from_utf8 (escaped esc 0 lit) ≡ some (escaped esc 0 lit)
unfolding from_utf8
from_utf8-escaped esc lit ascii h = rw (
    escaped_valid esc lit 0 start ascii refl (unfold utf8_valid in start_of (utf8_run start lit) h))

pub finish_escape-escaped {ℓ} :
    {E : Type ℓ} (esc : ℕ → ℕ → Bool) (lit : Bytes)
    → EscapesAscii esc
    → utf8_valid lit ≡ true
    → finish_escape {E = E} lit (escape_loop esc lit lit 0 none) ≡ ok (escaped esc 0 lit)
finish_escape-escaped {E} esc lit ascii h =
    finish_lem (escape_loop esc lit lit 0 none) (escape_loop-escaped esc lit)
  where
    finish_lem :
        (o : Option Bytes)
        → output_or lit o ≡ escaped esc 0 lit
        → finish_escape {E = E} lit o ≡ ok (escaped esc 0 lit)
    finish_lem none e = ap ok e
    finish_lem (some out) e = rw (e, from_utf8-escaped esc lit ascii h)
