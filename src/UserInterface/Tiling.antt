-- ===== src/UserInterface/Tiling.antt =====
-- Where the windows lie in the terminal.
use chat_application.Prelude.{
  ℕ, ◌+◌, ◌-◌, ◌/◌, ◌≤◌, ◌<◌, ◌≡◌, refl, ap, true, false, ◌||◌, some, ltb, leb, arith, Bool-cases,
  inl, inr,
}
use chat_application.Prelude.Int.{ℤ, pos, negsuc, minus, plus}
use chat_application.UserInterface.{Layout, ui_init}

-- The strips of the border window lie side by side between its two sides, and none is empty.
pub record IsTiled (screen_width : ℕ) (l : Layout) : Type 0 where
  pub outputs : ℕ
  pub some_output : 0 < outputs
  pub output_width : l.output_win.width ≡ pos outputs
  pub output_begin : l.output_win.begin_x ≡ pos 1
  pub left : l.left_line ≡ pos (1 + outputs)
  pub messages : ℕ
  pub some_message : 0 < messages
  pub msg_width : l.msg_win.width ≡ pos messages
  pub msg_begin : l.msg_win.begin_x ≡ pos (1 + outputs + 1)
  pub right : l.right_line ≡ pos (1 + outputs + 1 + messages)
  pub infos : ℕ
  pub some_info : 0 < infos
  pub info_width : l.info_win.width ≡ pos infos
  pub info_begin : l.info_win.begin_x ≡ pos (1 + outputs + 1 + messages + 1)
  pub whole : 1 + outputs + 1 + messages + 1 + infos + 1 ≡ screen_width

-- The columns that are left for the output window.
left_over : ℕ → ℕ
left_over w = w - (w / 2 + w / 5 + 4)

wide : (w : ℕ) → 13 ≤ w → leb (w / 2 + w / 5 + 4) w ≡ true
wide w h = ground arith

narrow : (w : ℕ) → 6 ≤ w → w ≤ 12 → w - (w / 2 + w / 5 + 4) ≡ 0
narrow w h p = omega arith

tall_enough : (h w : ℕ) → 24 ≤ h → 6 ≤ w → (ltb h 24 || ltb w 6) ≡ false
tall_enough h w p q = ground arith

-- In a terminal of at least 24 lines and 13 columns the three windows and the two lines between
-- them lie side by side in the border window, fill it, and none is empty.
pub ui_init-IsTiled :
    (screen_height screen_width : ℕ)
    → 24 ≤ screen_height
    → 13 ≤ screen_width
    → (l : Layout) × (ui_init screen_height screen_width ≡ some l) × IsTiled screen_width l
unfolding ui_init minus plus left_over
ui_init-IsTiled h w tall broad = rw (tall_enough h w tall (omega arith)) (
  _,
  refl,
  record {
    outputs = left_over w;
    some_output = omega arith;
    output_width = rw (wide w broad) refl;
    output_begin = refl;
    left = rw (wide w broad) (ap pos (omega arith));
    messages = w / 5;
    some_message = omega arith;
    msg_width = refl;
    msg_begin = rw (wide w broad) (ap pos (omega arith));
    right = rw (wide w broad) (ap pos (omega arith));
    infos = w / 2;
    some_info = omega arith;
    info_width = refl;
    info_begin = rw (wide w broad) (ap pos (omega arith));
    whole = omega arith;
  },
)

-- A width that leaves no column.
abbrev pub HasNoColumn : ℤ → Type 0
HasNoColumn (pos n) = n ≡ 0
HasNoColumn (negsuc n) = Unit

-- In a terminal of at least 24 lines and 6 to 12 columns ui_init goes on, with no column left for
-- the output window.
pub ui_init-too_narrow :
    (screen_height screen_width : ℕ)
    → 24 ≤ screen_height
    → 6 ≤ screen_width
    → screen_width ≤ 12
    → (l : Layout) × (ui_init screen_height screen_width ≡ some l) × HasNoColumn l.output_win.width
unfolding ui_init minus plus
ui_init-too_narrow h w tall broad small =
    rw (tall_enough h w tall broad) (elim (Bool-cases (leb (w / 2 + w / 5 + 4) w)) [
      | inl fits ↦ (_, refl, rw fits (narrow w broad small))
      | inr short ↦ (_, refl, rw short tt)
    ])
