-- ===== src/Vga.antt =====
-- The text screen of kernel/vga.c. A cell is the 16-bit word of a character and its colours; the
-- screen is the 2000 cells at 0xB8000, and writes behind them would go through. `cursor` and
-- `column` are the variables `i` and `j`, which the callers pass; `moved` lists the calls of `move`.
pub mod Bounds
pub mod Digits
pub mod Calls
pub mod Output
use Prim.Native.Nat.{bit_and}
use my_kernel.Common.{
  ℕ, zero, suc, ◌+◌, ◌-◌, ◌*◌, ◌/◌, ◌%◌, ◌^◌, Bool, List, [], ◌∷◌, leb, ◌==◌, if◌then◌else◌,
}

pub record Screen : Type 0 where
  pub cell : ℕ → ℕ
  pub cursor : ℕ
  pub column : ℕ
  pub moved : List ℕ

unfoldable pub write : (ℕ → ℕ) → ℕ → ℕ → ℕ → ℕ
write cell a v b = if b == a then v else cell b

abbrev pub white : ℕ
white = 0x0F * 256

-- `print(c, i)`
pub print : ℕ → ℕ → (ℕ → ℕ) → ℕ → ℕ
unfolding write
print c i cell = write cell i (white + c % 256)

-- The inner loop of `add_line` over the `n` columns from `col` on, and the outer one over rows.
pub copy_row : ℕ → ℕ → ℕ → (ℕ → ℕ) → ℕ → ℕ
unfolding write
copy_row zero col row cell = cell
copy_row (suc n) col row cell =
    copy_row n (suc col) row (write cell ((row - 1) * 80 + col) (cell (row * 80 + col)))

pub copy_rows : ℕ → ℕ → (ℕ → ℕ) → ℕ → ℕ
unfolding copy_row
copy_rows zero row cell = cell
copy_rows (suc n) row cell = copy_rows n (suc row) (copy_row 80 0 row cell)

pub blank_row : ℕ → ℕ → (ℕ → ℕ) → ℕ → ℕ
unfolding write
blank_row zero col cell = cell
blank_row (suc n) col cell = blank_row n (suc col) (write cell (24 * 80 + col) (white + 32))

pub add_line : Screen → Screen
unfolding copy_rows blank_row
add_line s = record s {
  cell = blank_row 80 0 (copy_rows 24 1 s.cell);
  cursor = if leb 2000 s.cursor then s.cursor - 80 else s.cursor;
}

pub add_line_if_needed : Screen → Screen
add_line_if_needed s = if leb 2000 s.cursor then add_line s else s

-- `print(c, *i); (*i)++`
pub emit : ℕ → Screen → Screen
unfolding print
emit c s = record s { cell = print c s.cursor s.cell; cursor = s.cursor + 1 }

-- The round of `print_number` and `print_hex` for one character, and all rounds.
pub emit_all : List ℕ → Screen → Screen
unfolding add_line_if_needed emit
emit_all [] s = add_line_if_needed s
emit_all (c ∷ cs) s = emit_all cs (emit c (add_line_if_needed s))

-- The first loop of `print_number`: the head of the buffer is what was pushed last.
pub number_text : ℕ → ℕ → List ℕ → List ℕ
number_text zero n buffer = buffer
number_text (suc fuel) n buffer =
    let rest = number_text fuel (n / 10) ((n % 10 + b'0') ∷ buffer) in
    if n == 0 then buffer else rest

-- `unsigned long` has 32 bits, so at most 10 digits are pushed.
pub print_number : ℕ → Screen → Screen
unfolding emit_all number_text
print_number n s = emit_all (if n == 0 then b'0' ∷ [] else number_text 10 n []) s

-- `hex[digit]`
pub hex_digit : ℕ → ℕ
hex_digit d = if leb d 9 then b'0' + d else b'A' + (d - 10)

-- The digits of the loop of `print_hex`, from the shift of 4 * (k - 1) bits down to 0.
pub hex_text : ℕ → ℕ → List ℕ
unfolding hex_digit
hex_text zero n = []
hex_text (suc k) n = hex_digit (bit_and (n / 2 ^ (4 * k)) 0xF) ∷ hex_text k n

pub print_hex : ℕ → Screen → Screen
unfolding emit_all hex_text
print_hex n s = emit_all (b'0' ∷ b'x' ∷ hex_text 8 n) s

-- One character of `print_string`; 10 is the line feed.
pub print_char : ℕ → Screen → Screen
unfolding add_line_if_needed emit
print_char c s =
    if c == 10
    then add_line_if_needed (record s { cursor = s.cursor + (80 - s.cursor % 80); column = 0 })
    else (let t = emit c (add_line_if_needed s) in
        add_line_if_needed (record t { column = t.column + 1 }))

pub print_chars : List ℕ → Screen → Screen
unfolding print_char
print_chars [] s = s
print_chars (c ∷ cs) s = print_chars cs (print_char c s)

-- `print_string`, which ends by moving the hardware cursor.
pub print_string : List ℕ → Screen → Screen
unfolding print_chars
print_string str s = let t = print_chars str s in record t { moved = t.cursor ∷ t.moved }

pub clear_from : ℕ → (ℕ → ℕ) → ℕ → ℕ
unfolding write
clear_from zero cell = cell
clear_from (suc n) cell = write (clear_from n cell) n 0x0720

pub clear_screen : Screen → Screen
unfolding clear_from
clear_screen s = record s { cell = clear_from 2000 s.cell }

pub time_chars : List ℕ → Screen → Screen
unfolding add_line_if_needed emit
time_chars [] s = s
time_chars (c ∷ cs) s = time_chars cs (emit c (add_line_if_needed s))

-- `print_time_message`, which has a cursor of its own.
pub print_time_message : List ℕ → ℕ → Screen → Screen
unfolding time_chars
print_time_message str i s = record (time_chars str (record s { cursor = i })) { cursor = s.cursor }

-- `clear(i)`, which keeps the colours of the cell.
pub clear : ℕ → Screen → Screen
unfolding write
clear i s = record s { cell = write s.cell i (s.cell i / 256 * 256 + 32) }
