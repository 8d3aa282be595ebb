-- ===== src/Tty/Cursor.antt =====
-- The cursor of the console and the pixels of a character, log/tty.c. A text is the list of its bytes, and
-- what is drawn is the sequence of writes to the framebuffer, each a pixel's index and its colour.
use flurry.Prelude.{
  ℕ, zero, suc, ◌+◌, ◌*◌, ◌/◌, ◌%◌, ◌^◌, ◌==◌, ltb, leb, if◌then◌else◌, List, [], ◌∷◌, ◌++◌,
}
use flurry.Prelude.Words.{u32, add64}

pub record Tty : Type 0 where
  pub char_width : ℕ
  pub char_height : ℕ
  pub fb_width : ℕ
  pub fb_height : ℕ
  pub row : ℕ
  pub column : ℕ
  pub drawn : List (ℕ × ℕ)

unfoldable pub tty_init : ℕ → ℕ → Tty
tty_init width height = record {
  char_width = width / 9;
  char_height = height / 17;
  fb_width = width;
  fb_height = height;
  row = 0;
  column = 0;
  drawn = [];
}

-- Bit `i` of a signed byte: bit 8 is the sign.
unfoldable pub pixel_bit : ℕ → ℕ → ℕ
pixel_bit byte i = if i == 8 then byte / 2 ^ 7 % 2 else byte / 2 ^ i % 2

-- The inner loop, for the bits below `i`.
unfoldable pub draw_row : ℕ → ℕ → ℕ → ℕ → ℕ → List (ℕ × ℕ)
unfolding pixel_bit
draw_row zero byte x y fb_width = []
draw_row (suc i) byte x y fb_width =
    (u32 (u32 (y * fb_width) + x), if pixel_bit byte i == 1 then 0xff_ffff else 0)
    ∷ draw_row i byte (u32 (x + 1)) y fb_width

-- The outer loop, for so many rows from row `j` of the character on; `font` has the rows of each.
unfoldable pub draw_rows : ℕ → (ℕ → ℕ) → ℕ → ℕ → ℕ → ℕ → List (ℕ × ℕ)
unfolding draw_row
draw_rows zero data_ j x y fb_width = []
draw_rows (suc n) data_ j x y fb_width =
    draw_row 9 (data_ j) x y fb_width ++ draw_rows n data_ (j + 1) x (u32 (y + 1)) fb_width

unfoldable pub tty_kputchar_at : (ℕ → ℕ → ℕ) → ℕ → ℕ → ℕ → Tty → Tty
unfolding draw_rows
tty_kputchar_at font x y c s =
    let x' = if leb s.fb_width x then 0 else x in
    let y' = if leb s.fb_height y then 0 else y in
    record s {
      drawn = s.drawn ++ draw_rows 16 (font c) 0 (u32 (x' * 9)) (u32 (y' * 17)) s.fb_width;
    }

-- The two tests with which `tty_kputchar` begins.
unfoldable pub back_inside : Tty → Tty
back_inside s = record s {
  row = if leb s.fb_height s.row then 0 else s.row;
  column = if leb s.fb_width s.column then 0 else s.column;
}

unfoldable pub new_line : Tty → Tty
new_line s = record s { row = if ltb s.char_height s.row then 1 else add64 s.row 1; column = 0 }

unfoldable pub step_right : Tty → Tty
step_right s =
    if ltb s.char_width (add64 s.column 1)
    then record s { column = 0; row = add64 s.row 1 }
    else record s { column = add64 s.column 1 }

unfoldable pub tty_kputchar : (ℕ → ℕ → ℕ) → ℕ → Tty → Tty
unfolding back_inside new_line step_right tty_kputchar_at
tty_kputchar font c s =
    let t = back_inside s in
    if c == 10 then new_line t else step_right (tty_kputchar_at font (u32 t.column) (u32 t.row) c t)

-- The text is the list of its characters, without the NUL at which the loop ends.
unfoldable pub kputs : (ℕ → ℕ → ℕ) → List ℕ → Tty → Tty
unfolding tty_kputchar
kputs font [] s = s
kputs font (c ∷ cs) s = kputs font cs (tty_kputchar font c s)
