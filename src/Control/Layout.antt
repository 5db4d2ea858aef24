-- ===== src/Control/Layout.antt =====
-- bzccscanner.c: the rectangles that WndResize gives to the controls. A width or a height that would be
-- negative is 0 here.
use bzcc_scanner.Base.{ℕ, ◌+◌, ◌-◌, ◌*◌, ◌/◌, ◌<◌, ◌≤◌, ◌≡◌, List, ◌++◌, [], ◌∷◌, All, arith}
use Prim.Native.Nat.{min, max}

-- A button of the row: its largest and smallest width, and the margin that is taken off it and
-- added behind it.
pub record Button : Type 0 where
  pub max_size : ℕ
  pub min_size : ℕ
  pub margin : ℕ

-- hSetName, hURL, hJoin and hRefresh, with m = 4.
abbrev pub buttons : List Button
buttons =
    record { max_size = 65; min_size = 50; margin = 4 }
    ∷ record { max_size = 100; min_size = 70; margin = 8 }
    ∷ record { max_size = 65; min_size = 60; margin = 16 }
    ∷ record { max_size = 150; min_size = 80; margin = 8 }
    ∷ []

-- What MoveWindow is given.
pub record Rect : Type 0 where
  pub x : ℕ
  pub y : ℕ
  pub width : ℕ
  pub height : ℕ

-- The row and the position behind it.
pub record Row : Type 0 where
  pub places : List Rect
  pub behind : ℕ

-- The quotient of an `int` that may be negative counts as 0: it is below the smallest widths then.
abbrev pub w_button : ℕ → ℕ
w_button w = (w - 8 - 150) / 4

unfoldable pub place_buttons : (w y x : ℕ) → List Button → Row
place_buttons w y x [] = record { places = []; behind = x }
place_buttons w y x (b ∷ bs) =
    let size = min (max (w_button w) b.min_size) b.max_size in
    let rest = place_buttons w y (x + size + b.margin) bs in
    record {
      places = record { x = x; y = y; width = size - b.margin; height = 25 } ∷ rest.places;
      behind = rest.behind;
    }

-- The box of the local names, the buttons and the button of the preferences, from left to right.
unfoldable pub button_row : (w y : ℕ) → List Rect
unfolding place_buttons
button_row w y =
    let row = place_buttons w y 159 buttons in
    record { x = 5; y = y; width = 150; height = 25 } ∷ row.places
    ++ record { x = max row.behind (w - 32 - 4); y = y; width = 32; height = 28 } ∷ []

-- The rows of the window, from the top.
pub record Layout : Type 0 where
  pub headers : List Rect
  pub boxes : List Rect
  pub row : List Rect
  pub game_list : Rect
  pub status_bar : Rect

-- WndResize
unfoldable pub wnd_resize : (w h : ℕ) → Layout
unfolding button_row
wnd_resize w h =
    let w_boxes = w / 4 in
    let h_boxes = h / 2 - 4 in
    let y_row = h_boxes + 20 + 4 in
    let y_list = y_row + 25 + 8 in
    let shell = min w_boxes h_boxes in
    let x_shell = w_boxes + (w_boxes - shell) / 2 in
    let w_text = max shell (w_boxes - x_shell) in
    record {
      headers =
          record { x = 10; y = 0; width = w_boxes - 4 - 10; height = 20 }
          ∷ record { x = x_shell + 10; y = 0; width = w_text - 8 - 10; height = 20 }
          ∷ record { x = w_boxes * 2 + 10; y = 0; width = w_boxes - 12 - 10; height = 20 }
          ∷ record { x = w_boxes * 3 + 10 - 4; y = 0; width = w_boxes - 10; height = 20 }
          ∷ [];
      boxes =
          record { x = 0; y = 20; width = w_boxes - 4; height = h_boxes }
          ∷ record { x = x_shell; y = 20; width = shell - 8; height = shell }
          ∷ record { x = w_boxes * 2; y = 20; width = w_boxes - 12; height = h_boxes }
          ∷ record { x = w_boxes * 3 - 4; y = 20; width = w_boxes; height = h_boxes }
          ∷ [];
      row = button_row w y_row;
      game_list = record { x = 0; y = y_list; width = w; height = h + 4 - y_list - 25 };
      status_bar = record { x = 0; y = h - 25; width = w; height = 25 };
    }

-- Each control has a width and ends in front of the next one.
abbrev pub IsApart : List Rect → Type 0
IsApart [] = Unit
IsApart (p ∷ []) = 0 < p.width
IsApart (p ∷ q ∷ ps) = (0 < p.width) × (p.x + p.width < q.x) × IsApart (q ∷ ps)

-- The controls lie between two heights.
abbrev pub IsBetween : (top bottom : ℕ) → List Rect → Type 0
IsBetween top bottom rs = All (λ r. (top ≤ r.y) × (0 < r.height) × (r.y + r.height ≤ bottom)) rs

button_row-IsApart : (w y : ℕ) → IsApart (button_row w y)
unfolding button_row place_buttons
button_row-IsApart w y = ground arith

button_row-IsBetween :
    (w y top bottom : ℕ) → top ≤ y → y + 28 ≤ bottom → IsBetween top bottom (button_row w y)
unfolding button_row place_buttons
button_row-IsBetween w y top bottom above below = ground arith

-- In a client area of 92 pixels by 150 or more, the controls of each row of WndResize have a width and
-- end in front of the next one; each row has heights and lies above the next one; and the game list
-- has a height, but ends four pixels below the top of the status bar.
pub wnd_resize-IsApart :
    (w h : ℕ)
    → 92 ≤ w
    → 150 ≤ h
    → IsApart (wnd_resize w h).headers
      × IsApart (wnd_resize w h).boxes
      × IsApart (wnd_resize w h).row
      × IsBetween 0 20 (wnd_resize w h).headers
      × IsBetween 20 (h / 2 + 16) (wnd_resize w h).boxes
      × IsBetween (h / 2 + 20) (h / 2 + 48) (wnd_resize w h).row
      × (h / 2 + 48 < (wnd_resize w h).game_list.y)
      × (0 < (wnd_resize w h).game_list.height)
      × ((wnd_resize w h).game_list.y + (wnd_resize w h).game_list.height
          ≡ (wnd_resize w h).status_bar.y + 4)
unfolding wnd_resize
wnd_resize-IsApart w h wide high = (
  ground arith,
  ground arith,
  button_row-IsApart w (h / 2 - 4 + 20 + 4),
  ground arith,
  ground arith,
  button_row-IsBetween w _ _ _ (omega arith) (omega arith),
  omega arith,
  omega arith,
  omega arith,
)
