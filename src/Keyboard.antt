-- ===== src/Keyboard.antt =====
-- `read` of kernel/keyboard.c: from scan codes to characters and keys.
pub mod Examples
use Prim.Native.Nat.{bit_and}
use my_kernel.Common.{
  ℕ, zero, suc, ◌+◌, ◌<◌, ◌≤◌, inl, inr, Bool-cases, ◌≡◌, ◌≢◌, refl, Bool, true, ◌&&◌, ◌||◌, List,
  [], ◌∷◌, arith, ◌==◌, ==_iff, if◌then◌else◌,
}

abbrev pub key_none : ℕ
key_none = 0

abbrev pub key_up : ℕ
key_up = 256

-- The labels of the `switch` with what they return.
abbrev pub keymap : List (ℕ × ℕ)
keymap =
    (0x02, b'1')
    ∷ (0x03, b'2')
    ∷ (0x04, b'3')
    ∷ (0x05, b'4')
    ∷ (0x06, b'5')
    ∷ (0x07, b'6')
    ∷ (0x08, b'7')
    ∷ (0x09, b'8')
    ∷ (0x0A, b'9')
    ∷ (0x0B, b'0')
    ∷ (0x1E, b'a')
    ∷ (0x30, b'b')
    ∷ (0x2E, b'c')
    ∷ (0x20, b'd')
    ∷ (0x12, b'e')
    ∷ (0x21, b'f')
    ∷ (0x22, b'g')
    ∷ (0x23, b'h')
    ∷ (0x17, b'i')
    ∷ (0x24, b'j')
    ∷ (0x25, b'k')
    ∷ (0x26, b'l')
    ∷ (0x32, b'm')
    ∷ (0x31, b'n')
    ∷ (0x18, b'o')
    ∷ (0x19, b'p')
    ∷ (0x10, b'q')
    ∷ (0x13, b'r')
    ∷ (0x1F, b's')
    ∷ (0x14, b't')
    ∷ (0x16, b'u')
    ∷ (0x2F, b'v')
    ∷ (0x11, b'w')
    ∷ (0x2D, b'x')
    ∷ (0x15, b'y')
    ∷ (0x2C, b'z')
    ∷ (0x1C, 10)
    ∷ (0x39, 32)
    ∷ (0x0E, 8)
    ∷ (0x48, 256)
    ∷ (0x50, 257)
    ∷ (0x4B, 258)
    ∷ (0x4D, 259)
    ∷ (0x3B, 260)
    ∷ (0x3C, 261)
    ∷ (0x3D, 262)
    ∷ (0x3E, 263)
    ∷ (0x3F, 264)
    ∷ (0x40, 265)
    ∷ (0x41, 266)
    ∷ (0x42, 267)
    ∷ (0x43, 268)
    ∷ (0x44, 269)
    ∷ (0x57, 270)
    ∷ (0x58, 271)
    ∷ []

pub find_key : List (ℕ × ℕ) → ℕ → ℕ
find_key [] code = key_none
find_key ((c, key) ∷ m) code = if code == c then key else find_key m code

-- `code` is the byte that `inb(0x60)` gives.
pub read : ℕ → ℕ
unfolding find_key
read code = if bit_and code 0x80 == 0 then find_key keymap code else key_none

-- Whether a test accepts `start` and the values behind it, `count` in all.
accepts : (ℕ → Bool) → ℕ → ℕ → Bool
accepts test start zero = true
accepts test start (suc count) = test start && accepts test (suc start) count

accepts-at :
    (test : ℕ → Bool) (start count c : ℕ)
    → accepts test start count ≡ true
    → start ≤ c
    → c < start + count
    → test c ≡ true
unfolding accepts
accepts-at test start zero c all lo hi = absurd (omega arith)
accepts-at test start (suc count) c all lo hi = elim (Bool-cases (c == start)) [
  | inl y ↦ let e : c ≡ start = ground arith in rw e (ground arith)
  | inr n ↦ accepts-at test (suc start) count c (ground arith) (ground arith) (omega arith)
]

-- The code of the key that gives a value, found by search through the map.
pub code_of : List (ℕ × ℕ) → ℕ → ℕ
code_of [] key = 0
code_of ((c, k) ∷ m) key = if key == k then c else code_of m key

-- The code can be found again from the value.
reads_back : ℕ → Bool
reads_back c = read c == 0 || code_of keymap (read c) == c

inverse_table : accepts reads_back 0 256 ≡ true
unfolding read accepts code_of reads_back
inverse_table = refl

release_table : accepts (λ c. read c == 0) 128 128 ≡ true
unfolding read accepts
release_table = refl

-- No two scan codes stand for one key: a byte that is a key gives a value that no other byte gives.
pub read-injective : (c d : ℕ) → c < 256 → d < 256 → read c ≢ key_none → c ≢ d → read c ≢ read d
unfolding reads_back
read-injective c d hc hd n ne e =
    let p = accepts-at reads_back 0 256 c inverse_table (omega arith) (omega arith) in
    let q = accepts-at reads_back 0 256 d inverse_table (omega arith) (omega arith) in
    ground (arith, ==_iff (code_of keymap (read c)) c)

-- A byte with the top bit set, a key that is let go, is no key.
pub read_release : (c : ℕ) → c < 128 → read (128 + c) ≡ key_none
read_release c h =
    let p =
      accepts-at (λ x. read x == 0) 128 128 (128 + c) release_table (omega arith) (omega arith) in
    (==_iff _ _).0 p

pub read_backspace : read 0x0E ≡ 8
unfolding read
read_backspace = refl

pub read_enter : read 0x1C ≡ 10
unfolding read
read_enter = refl
