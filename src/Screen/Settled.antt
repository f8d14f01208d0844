-- ===== src/Screen/Settled.antt =====
-- src/core/game-window.ts and src/overlay/resize-helpers.ts: what small changes do not move.
use lo_lprox_chat.Common.{
  ℕ, ◌+◌, ◌≤◌, ◌≡◌, ◌≢◌, ◌↔◌, ◌⊎◌, inl, inr, refl, ◌&&◌, Bool-cases, true, false, Option, none,
  some, arith, leb,
}
use lo_lprox_chat.Common.Int.{pos, distance_ℤ}
use lo_lprox_chat.Screen.{
  ScreenRect, compute_desired_height, should_send_size, resize_hysteresis_px,
}
use lo_lprox_chat.Screen.GameWindow.{
  GameWindowInfo, keep, apply, is_plausible_game_rect, rects_are_close, update_to, Warning,
  decide_game_rect_update, not_found, implausible,
}

-- `update_to` by itself.
update_to-apply :
    (current next : ScreenRect) (o : Option ScreenRect)
    → (update_to current o ≡ apply next)
      ↔ ((o ≡ some next) × (rects_are_close current next ≡ false))
unfolding update_to
update_to-apply current next none = (λ e. ground arith, λ e. ground arith)
update_to-apply current next (some rect) = ground arith

update_to-warns :
    (current : ScreenRect) (o : Option ScreenRect) (w : Warning)
    → update_to current o ≢ keep (some w)
unfolding update_to
update_to-warns current none w e = ground arith
update_to-warns current (some rect) w e = ground arith

-- The rectangle changes exactly for one that is found, plausible, and more than 4 px away in its
-- place or its size; and a warning stands exactly if none is found or the one found is not plausible.
pub decide_game_rect_update_iff :
    (current next : ScreenRect) (info : GameWindowInfo)
    → ((decide_game_rect_update current (some info) ≡ apply next) ↔ (
        (info.found && is_plausible_game_rect info.rect info.virtual_screen ≡ true)
        × (info.rect ≡ some next)
        × (rects_are_close current next ≡ false)))
      × (((w : Warning) × (decide_game_rect_update current (some info) ≡ keep (some w)))
          ↔ (info.found && is_plausible_game_rect info.rect info.virtual_screen ≡ false))
unfolding decide_game_rect_update
decide_game_rect_update_iff current next info =
    let changes = update_to-apply current next info.rect in
    let warns = update_to-warns current info.rect in
    elim (Bool-cases info.found) [
      | inl f ↦ elim (Bool-cases (is_plausible_game_rect info.rect info.virtual_screen)) [
        | inl p ↦
            rw (f, p)
              (
                (λ e. (refl, (changes.0 e).0, (changes.0 e).1), λ h. changes.1 (h.1, h.2)),
                (λ h. absurd (warns h.0 h.1), λ e. absurd (ground arith)),
              )
        | inr p ↦
            rw (f, p)
              ((λ e. ground arith, λ h. ground arith), (λ h. refl, λ e. (implausible, refl)))
      ]
      | inr f ↦ rw f ((λ e. ground arith, λ h. ground arith), (λ h. refl, λ e. (not_found, refl)))
    ]

far_iff :
    (w b : ℕ)
    → (leb resize_hysteresis_px (distance_ℤ (pos w) (pos b)) ≡ true) ↔ ((b + 3 ≤ w) ⊎ (w + 3 ≤ b))
unfolding distance_ℤ
far_iff w b = ground arith

-- The panel is between 120 and 1200 px high, and once it has a height, only a panel that is 3 px
-- higher or lower changes it: sizes that were sent in turn are that far apart.
pub should_send_size_iff :
    (measured before : ℕ)
    → let wanted = compute_desired_height measured in
      (120 ≤ wanted)
      × (wanted ≤ 1200)
      × (should_send_size none wanted resize_hysteresis_px ≡ true)
      × ((should_send_size (some before) wanted resize_hysteresis_px ≡ true)
          ↔ ((before + 3 ≤ wanted) ⊎ (wanted + 3 ≤ before)))
unfolding compute_desired_height should_send_size
should_send_size_iff measured before =
    (omega arith, omega arith, refl, far_iff (compute_desired_height measured) before)
