-- ===== src/Tty/Lines.antt =====
-- Lines that are filled without a newline.
use mathlib.Core.Path.{subst}
use native.Mathlib.Nat.{mul-le-mul_right}
use flurry.Prelude.{
  ℕ, zero, suc, ◌+◌, ◌*◌, ◌/◌, ◌^◌, ◌<◌, ◌≤◌, ◌≡◌, ◌≢◌, ◌∙◌, refl, sym, ap, true, false, ◌==◌, ltb,
  leb, if◌then◌else◌, arith, ne→==, Bool-cases, inl, inr, List, [], ◌∷◌, ◌++◌,
}
use flurry.Prelude.Words.{u32, add64}
use flurry.Tty.Cursor.{
  Tty, tty_init, draw_row, draw_rows, pixel_bit, tty_kputchar_at, back_inside, new_line, step_right,
  tty_kputchar, kputs,
}

-- The cursor is here, on a console of this size.
pub record IsAt (s : Tty) (width height row column : ℕ) : Type 0 where
  pub row_is : s.row ≡ row
  pub column_is : s.column ≡ column
  pub width_is : s.fb_width ≡ width
  pub height_is : s.fb_height ≡ height
  pub chars_is : s.char_width ≡ width / 9

abbrev pub times : ℕ → ℕ → List ℕ
times zero c = []
times (suc n) c = c ∷ times n c

-- Text of `n` lines, each one character longer than `char_width`.
abbrev pub full_lines : ℕ → ℕ → ℕ → List ℕ
full_lines zero width c = []
full_lines (suc n) width c = times (suc (width / 9)) c ++ full_lines n width c

inside-eq :
    (s : Tty) (width height row column : ℕ)
    → IsAt s width height row column
    → row < height
    → column < width
    → back_inside s ≡ s
unfolding back_inside
inside-eq s width height row column at below left =
    let r : leb s.fb_height s.row ≡ false = ground (arith, at.row_is, at.height_is) in
    let c : leb s.fb_width s.column ≡ false = ground (arith, at.column_is, at.width_is) in
    rw (r, c) refl

kputs-nil : (font : ℕ → ℕ → ℕ) (s : Tty) → kputs font [] s ≡ s
unfolding kputs
kputs-nil font s = refl

kputs-append :
    (font : ℕ → ℕ → ℕ) (xs ys : List ℕ) (s : Tty)
    → kputs font (xs ++ ys) s ≡ kputs font ys (kputs font xs s)
unfolding kputs
kputs-append font [] ys s = refl
kputs-append font (x ∷ xs) ys s = kputs-append font xs ys (tty_kputchar font x s)

kputchar-eq :
    (font : ℕ → ℕ → ℕ) (c : ℕ) (s : Tty)
    → tty_kputchar font c s ≡ (
        if c == 10
        then new_line (back_inside s)
        else step_right (
            tty_kputchar_at font
              (u32 (back_inside s).column)
              (u32 (back_inside s).row)
              c
              (back_inside s)))
unfolding tty_kputchar
kputchar-eq font c s = refl

putchar-eq :
    (font : ℕ → ℕ → ℕ) (c : ℕ) (s : Tty)
    → c ≢ 10
    → back_inside s ≡ s
    → tty_kputchar font c s ≡ step_right (tty_kputchar_at font (u32 s.column) (u32 s.row) c s)
putchar-eq font c s printed inside = rw (kputchar-eq font c s, ne→== c 10 printed, inside) refl

tty_kputchar_at-IsAt :
    (font : ℕ → ℕ → ℕ) (x y c : ℕ) (s : Tty) (width height row column : ℕ)
    → IsAt s width height row column
    → IsAt (tty_kputchar_at font x y c s) width height row column
unfolding tty_kputchar_at
tty_kputchar_at-IsAt font x y c s width height row column at = record {
  row_is = at.row_is;
  column_is = at.column_is;
  width_is = at.width_is;
  height_is = at.height_is;
  chars_is = at.chars_is;
}

step_right-within :
    (s : Tty) (width height row column : ℕ)
    → IsAt s width height row column
    → column < width / 9
    → column < 2 ^ 32
    → IsAt (step_right s) width height row (column + 1)
unfolding step_right
step_right-within s width height row column at more small =
    let next : add64 s.column 1 ≡ column + 1 = omega (arith, at.column_is) in
    let stays : ltb s.char_width (column + 1) ≡ false = ground (arith, at.chars_is) in
    rw (next, stays)
      (record {
        row_is = at.row_is;
        column_is = refl;
        width_is = at.width_is;
        height_is = at.height_is;
        chars_is = at.chars_is;
      })

step_right-wraps :
    (s : Tty) (width height row : ℕ)
    → IsAt s width height row (width / 9)
    → width < 2 ^ 32
    → row < 2 ^ 32
    → IsAt (step_right s) width height (row + 1) 0
unfolding step_right
step_right-wraps s width height row at small low =
    let next : add64 s.column 1 ≡ width / 9 + 1 = omega (arith, at.column_is) in
    let wraps : ltb s.char_width (width / 9 + 1) ≡ true = ground (arith, at.chars_is) in
    rw (next, wraps)
      (record {
        row_is = omega (arith, at.row_is);
        column_is = refl;
        width_is = at.width_is;
        height_is = at.height_is;
        chars_is = at.chars_is;
      })

module _ (font : ℕ → ℕ → ℕ) (c width height : ℕ) (printed : c ≢ 10) (wide : 0 < width)
    (small : width < 2 ^ 32) (short : height < 2 ^ 32) where
  putchar_within :
      (s : Tty) (row column : ℕ)
      → IsAt s width height row column
      → row < height
      → column < width / 9
      → IsAt (tty_kputchar font c s) width height row (column + 1)
  putchar_within s row column at below left =
      rw (putchar-eq font c s printed (inside-eq s width height row column at below (omega arith)))
        (step_right-within (tty_kputchar_at font (u32 s.column) (u32 s.row) c s) width height row
          column
          (tty_kputchar_at-IsAt font (u32 s.column) (u32 s.row) c s width height row column at) left
          (omega arith))

  putchar_wraps :
      (s : Tty) (row : ℕ)
      → IsAt s width height row (width / 9)
      → row < height
      → IsAt (tty_kputchar font c s) width height (row + 1) 0
  putchar_wraps s row at below =
      rw
        (putchar-eq font c s printed
          (inside-eq s width height row (width / 9) at below (omega arith)))
        (step_right-wraps (tty_kputchar_at font (u32 s.column) (u32 s.row) c s) width height row
          (tty_kputchar_at-IsAt font (u32 s.column) (u32 s.row) c s width height row (width / 9) at)
          small (omega arith))

  rest_of_line :
      (n : ℕ) (s : Tty) (row column : ℕ)
      → IsAt s width height row column
      → row < height
      → column + n ≡ width / 9
      → IsAt (kputs font (times (suc n) c) s) width height (row + 1) 0
  unfolding kputs
  rest_of_line zero s row column at below full =
      putchar_wraps s row (subst (IsAt s width height row) (omega (arith, full)) at) below
  rest_of_line (suc n) s row column at below full =
      rest_of_line n (tty_kputchar font c s) row (column + 1)
        (putchar_within s row column at below (omega (arith, full))) below (omega (arith, full))

  kputs-lines :
      (n : ℕ) (s : Tty) (row : ℕ)
      → IsAt s width height row 0
      → row + n ≤ height
      → IsAt (kputs font (full_lines n width c) s) width height (row + n) 0
  kputs-lines zero s row at fits =
      subst (λ t. IsAt t width height (row + 0) 0) (sym (kputs-nil font s))
        (subst (λ r. IsAt s width height r 0) (omega arith) at)
  kputs-lines (suc n) s row at fits =
      let first = rest_of_line (width / 9) s row 0 at (omega arith) (omega arith) in
      let rest =
        kputs-lines n (kputs font (times (suc (width / 9)) c) s) (row + 1) first (omega arith) in
      subst (λ t. IsAt t width height (row + suc n) 0)
        (sym (kputs-append font (times (suc (width / 9)) c) (full_lines n width c) s))
        (subst
          (λ r.
            IsAt (kputs font (full_lines n width c) (kputs font (times (suc (width / 9)) c) s))
              width height r 0)
          (omega arith) rest)

init-IsAt : (width height : ℕ) → IsAt (tty_init width height) width height 0 0
unfolding tty_init
init-IsAt width height = record {
  row_is = refl;
  column_is = refl;
  width_is = refl;
  height_is = refl;
  chars_is = refl;
}

-- The next character is drawn from this pixel on.
pub record DrawsFrom (s s' : Tty) (index : ℕ) : Type 0 where
  pub colour : ℕ
  pub others : List (ℕ × ℕ)
  pub drawn_is : s'.drawn ≡ s.drawn ++ ((index, colour) ∷ others)

step_right-drawn : (s : Tty) → (step_right s).drawn ≡ s.drawn
unfolding step_right
step_right-drawn s = elim (Bool-cases (ltb s.char_width (add64 s.column 1))) [
  | inl e ↦ rw e refl
  | inr e ↦ rw e refl
]

abbrev first_colour : (ℕ → ℕ) → ℕ
first_colour data_ = if pixel_bit (data_ 0) 8 == 1 then 0xff_ffff else 0

abbrev later_pixels : (ℕ → ℕ) → ℕ → ℕ → ℕ → List (ℕ × ℕ)
later_pixels data_ x y width =
    draw_row 8 (data_ 0) (u32 (x + 1)) y width ++ draw_rows 15 data_ 1 x (u32 (y + 1)) width

draw_rows-first :
    (data_ : ℕ → ℕ) (x y width : ℕ)
    → draw_rows 16 data_ 0 x y width
      ≡ (u32 (u32 (y * width) + x), first_colour data_) ∷ later_pixels data_ x y width
unfolding draw_rows draw_row
draw_rows-first data_ x y width = refl

tty_kputchar_at-drawn :
    (font : ℕ → ℕ → ℕ) (x y c : ℕ) (s : Tty)
    → (tty_kputchar_at font x y c s).drawn
      ≡ s.drawn
        ++ draw_rows 16
            (font c)
            0
            (u32 ((if leb s.fb_width x then 0 else x) * 9))
            (u32 ((if leb s.fb_height y then 0 else y) * 17))
            s.fb_width
unfolding tty_kputchar_at
tty_kputchar_at-drawn font x y c s = refl

draws_from :
    (font : ℕ → ℕ → ℕ) (c : ℕ) (s : Tty) (width height row : ℕ)
    → IsAt s width height row 0
    → 0 < width
    → row < height
    → row * 17 < 2 ^ 32
    → row * 17 * width < 2 ^ 32
    → DrawsFrom s (tty_kputchar_at font (u32 s.column) (u32 s.row) c s) (row * 17 * width)
draws_from font c s width height row at wide below small index =
    let x : u32 s.column ≡ 0 = omega (arith, at.column_is) in
    let y : u32 s.row ≡ row = omega (arith, at.row_is) in
    let left : leb s.fb_width 0 ≡ false = ground (arith, at.width_is) in
    let low : leb s.fb_height row ≡ false = ground (arith, at.height_is) in
    let line : u32 (row * 17) ≡ row * 17 = omega arith in
    let start : u32 (u32 (row * 17 * width) + 0) ≡ row * 17 * width = omega arith in
    record {
      colour = first_colour (font c);
      others = later_pixels (font c) 0 (row * 17) width;
      drawn_is =
          tty_kputchar_at-drawn font (u32 s.column) (u32 s.row) c s
          ∙ ap (λ ps. s.drawn ++ ps)
              (rw (x, left, y, low, line, at.width_is) (draw_rows-first (font c) 0 (row * 17) width)
                ∙ ap (λ i. (i, first_colour (font c)) ∷ later_pixels (font c) 0 (row * 17) width)
                    start);
    }

-- On a console of less than 2 ^ 32 pixel rows and columns, and at least one column, after a text of `n`
-- lines, each one character longer than `char_width` and none a newline, where `n` is below the height but
-- 17 times `n` is not, and the pixel's index fits in 32 bits: the next character is drawn from the pixel of
-- index 17 * n * width on, which is at or behind the end of the framebuffer.
pub kputs-outside :
    (font : ℕ → ℕ → ℕ) (c width height n : ℕ)
    → c ≢ 10
    → 0 < width
    → n * 17 * width < 2 ^ 32
    → n < height
    → height ≤ n * 17
    → width < 2 ^ 32
    → height < 2 ^ 32
    → n * 17 < 2 ^ 32
    → DrawsFrom
        (kputs font (full_lines n width c) (tty_init width height))
        (tty_kputchar font c (kputs font (full_lines n width c) (tty_init width height)))
        (n * 17 * width)
      × (height * width ≤ n * 17 * width)
kputs-outside font c width height n printed wide index below past small short lines =
    let s = kputs font (full_lines n width c) (tty_init width height) in
    let at =
      kputs-lines font c width height printed wide small short n (tty_init width height) 0
        (init-IsAt width height) (omega arith) in
    let here : IsAt s width height n 0 = subst (λ r. IsAt s width height r 0) (omega arith) at in
    let d = draws_from font c s width height n here wide below lines index in
    (
      record {
        colour = d.colour;
        others = d.others;
        drawn_is =
            ap (λ t. t.drawn)
              (putchar-eq font c s printed (inside-eq s width height n 0 here below wide))
            ∙ step_right-drawn (tty_kputchar_at font (u32 s.column) (u32 s.row) c s)
            ∙ d.drawn_is;
      },
      mul-le-mul_right width past,
    )
