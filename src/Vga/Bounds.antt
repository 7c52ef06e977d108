-- ===== src/Vga/Bounds.antt =====
-- The text screen of kernel/vga.c: scrolling, and no write behind the 2000 cells.
use my_kernel.Common.{
  ◌/◌, ◌*◌, ℕ, zero, suc, ◌+◌, ◌-◌, ◌*◌, ◌%◌, ◌≤◌, ◌<◌, ◌≡◌, ◌≢◌, refl, ap, ◌∙◌, ◌⊎◌, inl, inr,
  false, List, [], ◌∷◌, arith, leb, ltb, ◌==◌, if◌then◌else◌, Bool-cases,
}
use my_kernel.Vga.{
  clear, Screen, write, white, print, copy_row, copy_rows, blank_row, add_line, add_line_if_needed,
  emit, emit_all, print_char, print_chars, print_string,
}

-- Copying `n` columns of a row one row up: the cells that change, and those that do not.
copy_row_out :
    (n col row : ℕ) (cell : ℕ → ℕ) (a : ℕ)
    → (a < (row - 1) * 80 + col) ⊎ ((row - 1) * 80 + (col + n) ≤ a)
    → copy_row n col row cell a ≡ cell a
unfolding copy_row write
copy_row_out zero col row cell a h = refl
copy_row_out (suc n) col row cell a h =
    let c = write cell ((row - 1) * 80 + col) (cell (row * 80 + col)) in
    let z : (a == (row - 1) * 80 + col) ≡ false = ground arith in
    copy_row_out n (suc col) row c a (ground arith) ∙ rw z

copy_row_in :
    (n col row : ℕ) (cell : ℕ → ℕ) (a : ℕ)
    → 1 ≤ row
    → (row - 1) * 80 + col ≤ a
    → a < (row - 1) * 80 + (col + n)
    → copy_row n col row cell a ≡ cell (a + 80)
unfolding copy_row write
copy_row_in zero col row cell a h lo hi = absurd (omega arith)
copy_row_in (suc n) col row cell a h lo hi =
    let b = (row - 1) * 80 + col in
    let c = write cell b (cell (row * 80 + col)) in
    elim (Bool-cases (a == b)) [
      | inl y ↦
          let e : cell (row * 80 + col) ≡ cell (a + 80) = ap cell (ground arith) in
          copy_row_out n (suc col) row c a (ground arith) ∙ rw y e
      | inr m ↦
          let z : (a + 80 == b) ≡ false = ground arith in
          copy_row_in n (suc col) row c a h (ground arith) (omega arith) ∙ rw z
    ]

copy_rows_out :
    (n r : ℕ) (cell : ℕ → ℕ) (a : ℕ)
    → (a < r * 80) ⊎ ((r + n) * 80 ≤ a)
    → copy_rows n (suc r) cell a ≡ cell a
unfolding copy_rows
copy_rows_out zero r cell a h = refl
copy_rows_out (suc n) r cell a h =
    copy_rows_out n (suc r) (copy_row 80 0 (suc r) cell) a (omega arith)
    ∙ copy_row_out 80 0 (suc r) cell a (omega arith)

copy_rows_in :
    (n r : ℕ) (cell : ℕ → ℕ) (a : ℕ)
    → r * 80 ≤ a
    → a < (r + n) * 80
    → copy_rows n (suc r) cell a ≡ cell (a + 80)
unfolding copy_rows
copy_rows_in zero r cell a lo hi = absurd (omega arith)
copy_rows_in (suc n) r cell a lo hi =
    let c = copy_row 80 0 (suc r) cell in
    elim (Bool-cases (ltb a (r * 80 + 80))) [
      | inl y ↦
          let k : a < r * 80 + 80 = ground arith in
          copy_rows_out n (suc r) c a (omega arith)
          ∙ copy_row_in 80 0 (suc r) cell a (omega arith) (omega arith) (omega arith)
      | inr m ↦
          let k : r * 80 + 80 ≤ a = ground arith in
          copy_rows_in n (suc r) c a (omega arith) (omega arith)
          ∙ copy_row_out 80 0 (suc r) cell (a + 80) (omega arith)
    ]

blank_row_out :
    (n col : ℕ) (cell : ℕ → ℕ) (a : ℕ)
    → (a < 24 * 80 + col) ⊎ (24 * 80 + (col + n) ≤ a)
    → blank_row n col cell a ≡ cell a
unfolding blank_row write
blank_row_out zero col cell a h = refl
blank_row_out (suc n) col cell a h =
    let z : (a == 24 * 80 + col) ≡ false = ground arith in
    blank_row_out n (suc col) (write cell (24 * 80 + col) (white + 32)) a (omega arith) ∙ rw z

blank_row_in :
    (n col : ℕ) (cell : ℕ → ℕ) (a : ℕ)
    → 24 * 80 + col ≤ a
    → a < 24 * 80 + (col + n)
    → blank_row n col cell a ≡ white + 32
unfolding blank_row write
blank_row_in zero col cell a lo hi = absurd (omega arith)
blank_row_in (suc n) col cell a lo hi =
    let c = write cell (24 * 80 + col) (white + 32) in
    elim (Bool-cases (a == 24 * 80 + col)) [
      | inl y ↦ blank_row_out n (suc col) c a (ground arith) ∙ rw y
      | inr m ↦ blank_row_in n (suc col) c a (ground arith) (omega arith)
    ]

add_line-cell :
    (cell : ℕ → ℕ) (a : ℕ)
    → blank_row 80 0 (copy_rows 24 1 cell) a
      ≡ (if ltb a 1920 then cell (a + 80) else if ltb a 2000 then white + 32 else cell a)
add_line-cell cell a =
    let c = copy_rows 24 1 cell in
    elim (Bool-cases (ltb a 1920)) [
      | inl y ↦
          let k : a < 1920 = ground arith in
          blank_row_out 80 0 c a (omega arith)
          ∙ copy_rows_in 24 0 cell a (omega arith) (omega arith)
          ∙ rw y
      | inr n ↦ elim (Bool-cases (ltb a 2000)) [
        | inl y ↦
            let k : a < 2000 = ground arith in
            let l : 1920 ≤ a = ground arith in
            blank_row_in 80 0 c a (omega arith) (omega arith) ∙ rw (n, y)
        | inr m ↦
            let k : 2000 ≤ a = ground arith in
            blank_row_out 80 0 c a (omega arith)
            ∙ copy_rows_out 24 0 cell a (omega arith)
            ∙ rw (n, m)
      ]
    ]

-- `add_line` moves every row up by one, blanks the last row, touches no memory behind the screen
-- and takes the cursor up a row if it stands behind the last one.
pub add_line_lem :
    (s : Screen)
    → ((a : ℕ)
        → (add_line s).cell a
          ≡ (if ltb a 1920 then s.cell (a + 80) else if ltb a 2000 then white + 32 else s.cell a))
      × ((add_line s).cursor ≡ (if leb 2000 s.cursor then s.cursor - 80 else s.cursor))
unfolding add_line
add_line_lem s = (add_line-cell s.cell, refl)

-- `t` has the memory of `s` behind the screen.
abbrev pub Within : Screen → Screen → Type 0
Within s t = (a : ℕ) → 2000 ≤ a → t.cell a ≡ s.cell a

pub add_line_if_needed_lem :
    (s : Screen)
    → Within s (add_line_if_needed s)
      × (s.cursor < 2080 → (add_line_if_needed s).cursor < 2000)
      × (s.cursor < 2000 → add_line_if_needed s ≡ s)
unfolding add_line_if_needed
add_line_if_needed_lem s =
    let (c, i) = add_line_lem s in
    elim (Bool-cases (leb 2000 s.cursor)) [
      | inl y ↦
          rw y (λ a h. ground (arith, c a), λ h. ground (arith, i), λ h. absurd (ground arith))
      | inr n ↦ rw n (λ a h. refl, λ h. ground arith, λ h. refl)
    ]

pub emit_lem :
    (c : ℕ) (s : Screen)
    → s.cursor < 2000
    → Within s (emit c s) × ((emit c s).cursor ≡ s.cursor + 1)
unfolding emit print write
emit_lem c s h = (λ a k. ground arith, refl)

-- From a cursor at most 80 cells behind the screen, `print_number` and `print_hex` write to no
-- memory behind the screen, and leave the cursor on it.
pub emit_all-Within :
    (cs : List ℕ) (s : Screen)
    → s.cursor < 2080
    → Within s (emit_all cs s) × ((emit_all cs s).cursor < 2000)
unfolding emit_all
emit_all-Within [] s h = let (w, i, _) = add_line_if_needed_lem s in (w, i h)
emit_all-Within (c ∷ cs) s h =
    let (w, i, _) = add_line_if_needed_lem s in
    let t = add_line_if_needed s in
    let (v, e) = emit_lem c t (i h) in
    let lt = i h in
    let (u, j) = emit_all-Within cs (emit c t) (omega (arith, e)) in
    (λ a k. u a k ∙ v a k ∙ w a k, j)

print_char-Within :
    (c : ℕ) (s : Screen)
    → s.cursor < 2000
    → Within s (print_char c s) × ((print_char c s).cursor < 2000)
unfolding print_char
print_char-Within c s h = elim (Bool-cases (c == 10)) [
  | inl y ↦
      let m = record s { cursor = s.cursor + (80 - s.cursor % 80); column = 0 } in
      let (w, i, _) = add_line_if_needed_lem m in rw y (w, i (omega arith))
  | inr n ↦
      let (w, i, _) = add_line_if_needed_lem s in
      let t = add_line_if_needed s in
      let lt = i (omega arith) in
      let (v, e) = emit_lem c t lt in
      let q = emit c t in
      let (u, j, _) = add_line_if_needed_lem (record q { column = q.column + 1 }) in
      rw n (λ a k. u a k ∙ v a k ∙ w a k, j (omega (arith, e)))
]

print_chars-Within :
    (cs : List ℕ) (s : Screen)
    → s.cursor < 2000
    → Within s (print_chars cs s) × ((print_chars cs s).cursor < 2000)
unfolding print_chars
print_chars-Within [] s h = (λ a k. refl, h)
print_chars-Within (c ∷ cs) s h =
    let (w, i) = print_char-Within c s h in
    let (v, j) = print_chars-Within cs (print_char c s) i in (λ a k. v a k ∙ w a k, j)

-- From a cursor on the screen `print_string` writes to no memory behind the screen, leaves the
-- cursor on it and moves the hardware cursor there.
pub print_string-Within :
    (str : List ℕ) (s : Screen)
    → s.cursor < 2000
    → Within s (print_string str s)
      × ((print_string str s).cursor < 2000)
      × ((print_string str s).moved ≡ (print_string str s).cursor ∷ (print_chars str s).moved)
unfolding print_string
print_string-Within str s h = let (w, i) = print_chars-Within str s h in (w, i, refl)

pub clear-cell : (i : ℕ) (s : Screen) → (clear i s).cell i ≡ s.cell i / 256 * 256 + 32
unfolding clear write
clear-cell i s = ground arith

pub clear-other : (i : ℕ) (s : Screen) (a : ℕ) → a ≢ i → (clear i s).cell a ≡ s.cell a
unfolding clear write
clear-other i s a ne = ground arith

pub clear-same :
    (i : ℕ) (s : Screen)
    → ((clear i s).cursor ≡ s.cursor)
      × ((clear i s).column ≡ s.column)
      × ((clear i s).moved ≡ s.moved)
unfolding clear
clear-same i s = (refl, refl, refl)

pub print-cell :
    (c i : ℕ) (cell : ℕ → ℕ) (a : ℕ)
    → print c i cell a ≡ (if a == i then white + c % 256 else cell a)
unfolding print write
print-cell c i cell a = refl
